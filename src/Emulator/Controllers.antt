-- ===== src/Emulator/Controllers.antt =====
-- `Mupen64PlusControllerSettings` in src/net64/emulator/m64plus.cpp: the device, pak, mode and switches of
-- a controller, which are kept in a section of the core's configuration. The core is outside the
-- repository: `Config` is what its calls do, where `none` and `false` stand for a thrown error.
pub mod RoundTrip
pub mod Sample
mod Tests
use net64_coop.Prelude.{
  ℕ, Bool, true, false, ◌&&◌, ◌||◌, Option, none, some, List, [], ◌∷◌, ◌==◌, if◌then◌else◌, ℤ, pos,
  negsuc,
}
use net64_coop.Net.{Text}
use net64_coop.Text.{codes, same_text, c_str}

pub data ControllerPak : Type 0 where
  no_pak mem_pak rumble_pak : ControllerPak

pub data ConfigurationMode : Type 0 where
  manual auto_named_sdl_dev automatic : ConfigurationMode

-- The name of a parameter of the section.
abbrev pub Key : Type 0
Key = Text

abbrev pub plugin_key : Key
plugin_key = codes "plugin"

abbrev pub mode_key : Key
mode_key = codes "mode"

abbrev pub name_key : Key
name_key = codes "name"

abbrev pub device_key : Key
device_key = codes "device"

pub record Config (S : Type 0) : Type 0 where
  pub open_section : S → Bool
  pub get_int : S → Key → Option ℤ
  pub get_bool : S → Key → Option Bool
  pub get_string : S → Key → Option Text
  pub set_int : S → Key → ℤ → Option S
  pub set_bool : S → Key → Bool → Option S
  pub set_string : S → Key → Text → Option S
  pub save : S → Bool

abbrev pub keyboard : Text
keyboard = codes "Keyboard"

-- the `switch` of `get_pak`, of `set_pak`, of `get_config_mode` and of `set_config_mode`
unfoldable pub pak_of : ℤ → Option ControllerPak
pak_of (pos n) =
    if n == 1
    then some no_pak
    else if n == 2
    then some mem_pak
    else if n == 5
    then some rumble_pak
    else none
pak_of (negsuc n) = none

unfoldable pub number_of_pak : ControllerPak → ℤ
number_of_pak no_pak = pos 1
number_of_pak mem_pak = pos 2
number_of_pak rumble_pak = pos 5

unfoldable pub mode_of : ℤ → Option ConfigurationMode
mode_of (pos n) =
    if n == 0
    then some manual
    else if n == 1
    then some auto_named_sdl_dev
    else if n == 2
    then some automatic
    else none
mode_of (negsuc n) = none

unfoldable pub number_of_mode : ConfigurationMode → ℤ
number_of_mode manual = pos 0
number_of_mode auto_named_sdl_dev = pos 1
number_of_mode automatic = pos 2

abbrev pub is_minus_one : ℤ → Bool
is_minus_one (pos n) = false
is_minus_one (negsuc n) = n == 0

module _ {S : Type 0} (config : Config S) where
  -- A change and `save()`: what the setter returns, and the configuration.
  unfoldable pub saved : S → Option S → Bool × S
  saved s none = (false, s)
  saved s (some s') = (config.save s', s')

  unfoldable pub get_pak : S → Option ControllerPak
  get_pak s =
      if config.open_section s
      then elim (config.get_int s plugin_key) [ none ↦ none | some i ↦ pak_of i ]
      else none

  unfoldable pub set_pak : S → ControllerPak → Bool × S
  set_pak s pak = elim (get_pak s) [
    | none ↦ (false, s)
    | some old ↦
        if config.open_section s
        then saved s (config.set_int s plugin_key (number_of_pak pak))
        else (false, s)
  ]

  unfoldable pub get_config_mode : S → Option ConfigurationMode
  get_config_mode s =
      if config.open_section s
      then elim (config.get_int s mode_key) [ none ↦ none | some i ↦ mode_of i ]
      else none

  unfoldable pub set_config_mode : S → ConfigurationMode → Bool × S
  set_config_mode s mode = elim (get_config_mode s) [
    | none ↦ (false, s)
    | some old ↦
        if config.open_section s
        then saved s (config.set_int s mode_key (number_of_mode mode))
        else (false, s)
  ]

  -- `get_plugged` and `get_mouse_enabled`, with the keys "plugged" and "mouse"
  unfoldable pub get_switch : S → Key → Option Bool
  get_switch s key = if config.open_section s then config.get_bool s key else none

  unfoldable pub set_switch : S → Key → Bool → Bool × S
  set_switch s key v = elim (get_switch s key) [
    | none ↦ (false, s)
    | some old ↦ if config.open_section s then saved s (config.set_bool s key v) else (false, s)
  ]

  unfoldable pub get_device : S → Option (Text × ℤ)
  get_device s =
      if config.open_section s
      then elim (config.get_string s name_key) [
        | none ↦ none
        | some name ↦ elim (config.get_int s device_key) [ none ↦ none | some i ↦ some (name, i) ]
      ]
      else none

  -- The two changes are made one after the other; an error of the second leaves the first.
  unfoldable pub put_device : S → Text → ℤ → Bool × S
  put_device s name i = elim (config.set_string s name_key (c_str name)) [
    | none ↦ (false, s)
    | some s' ↦ saved s' (config.set_int s' device_key i)
  ]

  unfoldable pub set_device : S → Text → ℤ → Bool × S
  set_device s device device_index = elim (get_device s) [
    | none ↦ (false, s)
    | some old ↦
        if config.open_section s
        then if is_minus_one device_index || same_text device keyboard
          then put_device s keyboard (negsuc 0)
          else put_device s device device_index
        else (false, s)
  ]
