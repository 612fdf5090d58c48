-- ===== src/Emulator/CoreConfig.antt =====
-- src/net64/emulator/m64plus_config.cpp: `Config` and `ConfigSection`, which wrap the configuration of
-- the core. `Api` is what the core's functions do: each takes the state of the configuration and returns
-- its error code, and what it writes. A call that changes the state returns the new one.
pub mod Section
pub mod Refines
mod Tests
use net64_coop.Prelude.{
  ℕ, zero, suc, Bool, true, false, Option, none, some, if◌then◌else◌, ℤ, pos, negsuc,
}
use net64_coop.Net.{Text}
use net64_coop.Text.{nuls}
use net64_coop.Emulator.Error.{Error, success, Result, ok, throws}

-- `m64p_type`
pub data ParamType : Type 0 where
  type_int type_float type_bool type_string : ParamType

-- `F` stands for the floats and `H` for the handles of sections. What is returned beside an error is not
-- read. The last argument of `config_get_string` is the buffer before the call.
pub record Api (S H F : Type 0) : Type 0 where
  pub config_open_section : S → Text → Error × H
  pub config_save_file : S → Error × S
  pub config_save_section : S → Text → Error × S
  pub config_delete_section : S → Text → Error × S
  pub config_revert_changes : S → Text → Error × S
  pub config_has_unsaved_changes : S → Text → ℤ
  pub config_set_int : S → H → Text → ℤ → Error × S
  pub config_set_float : S → H → Text → F → Error × S
  pub config_set_bool : S → H → Text → ℤ → Error × S
  pub config_set_string : S → H → Text → Text → Error × S
  pub config_get_int : S → H → Text → Error × ℤ
  pub config_get_float : S → H → Text → Error × F
  pub config_get_bool : S → H → Text → Error × ℤ
  pub config_get_string : S → H → Text → Text → Error × Text
  pub config_get_parameter_type : S → H → Text → Error × ParamType
  pub config_get_parameter_help : S → H → Text → Option Text
  pub config_set_default_int : S → H → Text → ℤ → Text → Error × S
  pub config_set_default_float : S → H → Text → F → Text → Error × S
  pub config_set_default_bool : S → H → Text → ℤ → Text → Error × S
  pub config_set_default_string : S → H → Text → Text → Text → Error × S

-- `if(ret != Error::SUCCESS) throw`
unfoldable pub checked {ℓ} : {A : Type ℓ} → Error → A → Result A
checked success a = ok a
checked e a = throws e

-- the same for a call that changes the state, which stays as the core leaves it
unfoldable pub checked_change {ℓ} : {S : Type ℓ} → Error × S → Result (Unit {0}) × S
checked_change (e, s) = (checked e tt, s)

abbrev pub is_nonzero : ℤ → Bool
is_nonzero (pos zero) = false
is_nonzero i = true

abbrev pub int_of_bool : Bool → ℤ
int_of_bool true = pos 1
int_of_bool false = pos 0

abbrev pub string_buf_len : ℕ
string_buf_len = 128

module _ {S H F : Type 0} (api : Api S H F) where
  unfoldable pub open_section : S → Text → Result H
  open_section s name = let (e, h) = api.config_open_section s name in checked e h

  unfoldable pub save : S → Result (Unit {0}) × S
  save s = checked_change (api.config_save_file s)

  unfoldable pub save_section : S → Text → Result (Unit {0}) × S
  save_section s section = checked_change (api.config_save_section s section)

  unfoldable pub delete_section : S → Text → Result (Unit {0}) × S
  delete_section s section = checked_change (api.config_delete_section s section)

  unfoldable pub has_unsaved_changes : S → Text → Bool
  has_unsaved_changes s section = is_nonzero (api.config_has_unsaved_changes s section)

  unfoldable pub revert_changes : S → Text → Result (Unit {0}) × S
  revert_changes s section = checked_change (api.config_revert_changes s section)
