-- ===== src/Emulator/Analog.antt =====
-- The dead zone and the peak of the analog stick in src/net64/emulator/m64plus.cpp: `parse_analog_xy` and
-- the four calls of `Mupen64PlusControllerSettings`. The floats are a parameter, with the conversions of
-- the code.
pub mod Limits
mod Tests
use net64_coop.Prelude.{
  ℕ, ◌%◌, ◌^◌, Bool, true, false, Option, none, some, [], ◌∷◌, ◌++◌, ltb, ◌==◌, if◌then◌else◌,
}
use net64_coop.Net.{Text}
use net64_coop.Text.{codes, decimal, stoul}
use net64_coop.Emulator.Inputs.{Outcome, ok, system_error, other_error, undefined, ◌>>=◌}
use net64_coop.Emulator.Controllers.{Key, Config, saved}

-- `std::numeric_limits<std::int16_t>::max()`, which is also half the `uint16_t` maximum
abbrev pub max_analog : ℕ
max_analog = 32767

-- what stands behind the first comma
unfoldable pub after_comma : Text → Option Text
after_comma [] = none
after_comma (c ∷ s) = if c == 44 then some s else after_comma s

-- `std::clamp` between 0 and the maximum
unfoldable pub clamp : ℕ → ℕ
clamp n = if ltb max_analog n then max_analog else n

-- Every exception is turned into a system error. `stoul` does not read past a NUL.
unfoldable pub parse_analog_xy : Text → Outcome (ℕ × ℕ)
parse_analog_xy str = elim (after_comma str) [
  | none ↦ system_error
  | some behind ↦ elim (stoul str) [
    | none ↦ system_error
    | some x ↦ elim (stoul behind) [ none ↦ system_error | some y ↦ ok (clamp x, clamp y) ]
  ]
]

unfoldable pub analog_text : ℕ → Text
analog_text n = decimal n ++ (codes "," ++ decimal n)

-- `scale` is the division by the maximum as a float, and `absolute` the product with it as an `unsigned`.
-- The dead zone has the key "AnalogDeadzone" and the peak "AnalogPeak".
module _ {S F : Type 0} (config : Config S) (scale : ℕ → F) (absolute : F → ℕ) where
  unfoldable pub get_analog : S → Key → Option F
  get_analog s key =
      if config.open_section s
      then elim (config.get_string s key) [
        | none ↦ none
        | some text ↦ elim (parse_analog_xy text) [ ok xy ↦ some (scale xy.0) | _ ↦ none ]
      ]
      else none

  unfoldable pub set_analog : S → Key → F → Bool × S
  set_analog s key value = elim (get_analog s key) [
    | none ↦ (false, s)
    | some old ↦
        if config.open_section s
        then saved config s (config.set_string s key (analog_text (absolute value)))
        else (false, s)
  ]
