-- ===== src/Emulator/Analog/Tests.antt =====
-- The theorem of the analog stick at a configuration that is three functions.
use net64_coop.Prelude.{ℕ, arith, pos, ◌≡◌, refl, true, some}
use net64_coop.Text.{codes, padded, stoul, decimal, digits, signed_number, trim, number, value}
use net64_coop.Emulator.Controllers.{Key}
use net64_coop.Emulator.Controllers.Sample.{Section, config, config-Works}
use net64_coop.Emulator.Analog.{
  get_analog, set_analog, analog_text, after_comma, clamp, parse_analog_xy,
}
use net64_coop.Emulator.Analog.Limits.{analog_is_read}

abbrev section : Section
section = record { ints = λ k. pos 1; bools = λ k. true; strings = λ k. analog_text 4096 }

abbrev peak_key : Key
peak_key = codes "AnalogPeak"

-- the numbers themselves in place of the floats
abbrev as_is : ℕ → ℕ
as_is n = n

section_has_a_peak : get_analog config as_is as_is section peak_key ≡ some 4096
unfolding get_analog analog_text parse_analog_xy padded stoul after_comma decimal digits
    signed_number trim number value clamp
section_has_a_peak = refl

analog_is_read_example :
    (s' : Section) × (set_analog config as_is as_is section peak_key 40000 ≡ (true, s'))
    × (get_analog config as_is as_is s' peak_key ≡ some 32767)
unfolding clamp
analog_is_read_example =
    analog_is_read config config-Works as_is as_is section peak_key 40000 4096 (omega arith)
      section_has_a_peak
