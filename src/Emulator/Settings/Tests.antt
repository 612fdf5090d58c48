-- ===== src/Emulator/Settings/Tests.antt =====
-- The theorem of the screen at a configuration that is three functions.
use net64_coop.Prelude.{arith, pos, ◌≡◌, refl, true, some, []}
use net64_coop.Emulator.Controllers.Sample.{Section, config, config-Works}
use net64_coop.Emulator.Settings.{unsigned_of, get_dimensions, set_dimensions}
use net64_coop.Emulator.Settings.Screen.{dimensions_are_read}

abbrev section : Section
section = record { ints = λ k. pos 640; bools = λ k. true; strings = λ k. [] }

section_has_dimensions : get_dimensions config section ≡ some (640, 640)
unfolding get_dimensions unsigned_of
section_has_dimensions = refl

dimensions_are_read_example :
    (s' : Section) × (set_dimensions config section 1920 4294967295 ≡ (true, s'))
    × (get_dimensions config s' ≡ some (1920, 4294967295))
dimensions_are_read_example =
    dimensions_are_read config config-Works section 1920 4294967295 (640, 640) (omega arith)
      (omega arith) section_has_dimensions
