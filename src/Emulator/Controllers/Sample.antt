-- ===== src/Emulator/Controllers/Sample.antt =====
-- A configuration that is three functions, for the tests.
use net64_coop.Prelude.{ℤ, ◌≡◌, refl, Bool, true, some, [], ◌∷◌, arith, if◌then◌else◌}
use net64_coop.Net.{Text}
use net64_coop.Text.{same_text, padded}
use net64_coop.Emulator.Controllers.{Key, Config}
use net64_coop.Emulator.Controllers.RoundTrip.{Works}

pub record Section : Type 0 where
  pub ints : Key → ℤ
  pub bools : Key → Bool
  pub strings : Key → Text

pub same_text_self : (t : Text) → same_text t t ≡ true
unfolding same_text
same_text_self [] = refl
same_text_self (c ∷ t) = ground (arith, same_text_self t)

abbrev pub config : Config Section
config = record {
  open_section = λ s. true;
  get_int = λ s k. some (s.ints k);
  get_bool = λ s k. some (s.bools k);
  get_string = λ s k. some (padded (s.strings k));
  set_int = λ s k i. some (record s { ints = λ j. if same_text j k then i else s.ints j });
  set_bool = λ s k v. some (record s { bools = λ j. if same_text j k then v else s.bools j });
  set_string = λ s k t. some (record s { strings = λ j. if same_text j k then t else s.strings j });
  save = λ s. true;
}

pub config-Works : Works config
config-Works = record {
  opens = λ s. refl;
  saves = λ s. refl;
  sets_int = λ s k i. (_, refl, rw (same_text_self k) refl, λ j. refl, λ j other. rw other refl);
  sets_bool = λ s k v. (_, refl, rw (same_text_self k) refl);
  sets_string = λ s k t fits. (_, refl, rw (same_text_self k) refl);
}
