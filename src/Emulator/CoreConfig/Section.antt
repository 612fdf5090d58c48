-- ===== src/Emulator/CoreConfig/Section.antt =====
-- `ConfigSection` of src/net64/emulator/m64plus_config.cpp: a section that was opened, with its handle.
use net64_coop.Prelude.{Bool, Option, ℤ}
use net64_coop.Net.{Text}
use net64_coop.Text.{nuls}
use net64_coop.Emulator.Error.{Result}
use net64_coop.Emulator.CoreConfig.{
  ParamType, Api, checked, checked_change, is_nonzero, int_of_bool, string_buf_len,
}

module _ {S H F : Type 0} (api : Api S H F) (s : S) (section_hdl : H) (param : Text) where
  unfoldable pub set_default_int : ℤ → Text → Result (Unit {0}) × S
  set_default_int value help_str =
      checked_change (api.config_set_default_int s section_hdl param value help_str)

  unfoldable pub set_default_float : F → Text → Result (Unit {0}) × S
  set_default_float value help_str =
      checked_change (api.config_set_default_float s section_hdl param value help_str)

  unfoldable pub set_default_bool : Bool → Text → Result (Unit {0}) × S
  set_default_bool value help_str =
      checked_change (api.config_set_default_bool s section_hdl param (int_of_bool value) help_str)

  unfoldable pub set_default_string : Text → Text → Result (Unit {0}) × S
  set_default_string value help_str =
      checked_change (api.config_set_default_string s section_hdl param value help_str)

  unfoldable pub set_int : ℤ → Result (Unit {0}) × S
  set_int value = checked_change (api.config_set_int s section_hdl param value)

  unfoldable pub set_float : F → Result (Unit {0}) × S
  set_float value = checked_change (api.config_set_float s section_hdl param value)

  unfoldable pub set_bool : Bool → Result (Unit {0}) × S
  set_bool value = checked_change (api.config_set_bool s section_hdl param (int_of_bool value))

  unfoldable pub set_string : Text → Result (Unit {0}) × S
  set_string value = checked_change (api.config_set_string s section_hdl param value)

  unfoldable pub help : Option Text
  help = api.config_get_parameter_help s section_hdl param

  unfoldable pub param_type : Result ParamType
  param_type = let (e, type) = api.config_get_parameter_type s section_hdl param in checked e type

  unfoldable pub get_int : Result ℤ
  get_int = let (e, value) = api.config_get_int s section_hdl param in checked e value

  unfoldable pub get_float : Result F
  get_float = let (e, value) = api.config_get_float s section_hdl param in checked e value

  unfoldable pub get_bool : Result Bool
  get_bool =
      let (e, value) = api.config_get_bool s section_hdl param in checked e (is_nonzero value)

  -- The whole buffer is returned, with what stands behind the text.
  unfoldable pub get_string : Result Text
  get_string =
      let (e, value) = api.config_get_string s section_hdl param (nuls string_buf_len) in
      checked e value
