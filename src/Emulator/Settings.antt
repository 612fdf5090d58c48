-- ===== src/Emulator/Settings.antt =====
-- `Mupen64PlusAudioSettings` and `Mupen64PlusVideoSettings` of src/net64/emulator/m64plus.cpp: the volume in
-- the section "Audio-SDL", and the switches and the size of the screen in "Video-General". The floats
-- are a parameter, with the conversions of the code.
pub mod Screen
mod Tests
use net64_coop.Prelude.{
  ℕ, ◌+◌, ◌-◌, ◌%◌, ◌^◌, Bool, true, false, Option, none, some, ltb, if◌then◌else◌, ℤ, pos, negsuc,
}
use net64_coop.Text.{codes}
use net64_coop.Emulator.Controllers.{Key, Config, saved}

-- `static_cast<unsigned>` of an `int`, and back
unfoldable pub unsigned_of : ℤ → ℕ
unsigned_of (pos n) = n % 2 ^ 32
unsigned_of (negsuc n) = 2 ^ 32 - 1 - n % 2 ^ 32

unfoldable pub int_of_unsigned : ℕ → ℤ
int_of_unsigned n = if ltb n (2 ^ 31) then pos n else negsuc (2 ^ 32 - 1 - n)

abbrev pub screen_width : Key
screen_width = codes "ScreenWidth"

abbrev pub screen_height : Key
screen_height = codes "ScreenHeight"

abbrev pub volume_default : Key
volume_default = codes "VOLUME_DEFAULT"

module _ {S : Type 0} (config : Config S) where
  -- `get_fullscreen` and `get_vsync`, with the keys "Fullscreen" and "VerticalSync"
  unfoldable pub get_video_switch : S → Key → Option Bool
  get_video_switch s key = if config.open_section s then config.get_bool s key else none

  unfoldable pub set_video_switch : S → Key → Bool → Bool × S
  set_video_switch s key v = elim (get_video_switch s key) [
    | none ↦ (false, s)
    | some old ↦
        if config.open_section s then saved config s (config.set_bool s key v) else (false, s)
  ]

  unfoldable pub get_dimensions : S → Option (ℕ × ℕ)
  get_dimensions s =
      if config.open_section s
      then elim (config.get_int s screen_width) [
        | none ↦ none
        | some w ↦ elim (config.get_int s screen_height) [
          | none ↦ none
          | some h ↦ some (unsigned_of w, unsigned_of h)
        ]
      ]
      else none

  -- An error of the second change leaves the first.
  unfoldable pub put_dimensions : S → ℕ → ℕ → Bool × S
  put_dimensions s width height = elim (config.set_int s screen_width (int_of_unsigned width)) [
    | none ↦ (false, s)
    | some s' ↦ saved config s' (config.set_int s' screen_height (int_of_unsigned height))
  ]

  unfoldable pub set_dimensions : S → ℕ → ℕ → Bool × S
  set_dimensions s width height = elim (get_dimensions s) [
    | none ↦ (false, s)
    | some old ↦ if config.open_section s then put_dimensions s width height else (false, s)
  ]

  -- `static_cast<float>(i) / 100` and `static_cast<int>(vol * 100)`
  module _ {F : Type 0} (fraction : ℤ → F) (percent : F → ℤ) where
    unfoldable pub get_volume : S → Option F
    get_volume s =
        if config.open_section s
        then elim (config.get_int s volume_default) [ none ↦ none | some i ↦ some (fraction i) ]
        else none

    unfoldable pub set_volume : S → F → Bool × S
    set_volume s vol = elim (get_volume s) [
      | none ↦ (false, s)
      | some old ↦
          if config.open_section s
          then saved config s (config.set_int s volume_default (percent vol))
          else (false, s)
    ]
