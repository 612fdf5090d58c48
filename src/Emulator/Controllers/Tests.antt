-- ===== src/Emulator/Controllers/Tests.antt =====
-- The theorems at a configuration that is three functions.
use net64_coop.Prelude.{pos, ◌≡◌, refl, true, some, [], ◌∷◌}
use net64_coop.Emulator.Controllers.{no_pak, get_pak, pak_of}
use net64_coop.Emulator.Controllers.Sample.{Section, config}

abbrev section : Section
section = record { ints = λ k. pos 1; bools = λ k. true; strings = λ k. 88 ∷ [] }

section_has_a_pak : get_pak config section ≡ some no_pak
unfolding get_pak pak_of
section_has_a_pak = refl
