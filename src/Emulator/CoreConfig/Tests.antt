-- ===== src/Emulator/CoreConfig/Tests.antt =====
-- A core whose configuration is three functions, and the theorem at it.
use net64_coop.Prelude.{sym, ap, ◌∙◌, ℕ, ℤ, pos, ◌≡◌, refl, none, ◌++◌, length, drop, if◌then◌else◌}
use net64_coop.Net.{Text}
use net64_coop.Text.{codes, same_text}
use net64_coop.Emulator.Error.{success, input_not_found, throws}
use net64_coop.Emulator.Controllers.Sample.{same_text_self}
use net64_coop.Emulator.CoreConfig.{type_int, Api, checked, open_section}
use net64_coop.Emulator.CoreConfig.Refines.{
  section_config, IsHonest, Remembers, Trusted, section_config-Trusted,
}

record Store : Type 0 where
  ints : Text → ℤ
  bools : Text → ℤ
  strings : Text → Text

-- The one section is "Core"; its handle is 7.
abbrev core : Api Store ℕ ℕ
core = record {
  config_open_section =
      λ s name. (if same_text name (codes "Core") then success else input_not_found, 7);
  config_save_file = λ s. (success, s);
  config_save_section = λ s name. (success, s);
  config_delete_section = λ s name. (success, s);
  config_revert_changes = λ s name. (success, s);
  config_has_unsaved_changes = λ s name. pos 0;
  config_set_int =
      λ s h k i. (success, record s { ints = λ j. if same_text j k then i else s.ints j });
  config_set_float = λ s h k x. (success, s);
  config_set_bool =
      λ s h k i. (success, record s { bools = λ j. if same_text j k then i else s.bools j });
  config_set_string =
      λ s h k t. (success, record s { strings = λ j. if same_text j k then t else s.strings j });
  config_get_int = λ s h k. (success, s.ints k);
  config_get_float = λ s h k. (success, 0);
  config_get_bool = λ s h k. (success, s.bools k);
  config_get_string = λ s h k buffer. (success, s.strings k ++ drop (length (s.strings k)) buffer);
  config_get_parameter_type = λ s h k. (success, type_int);
  config_get_parameter_help = λ s h k. none;
  config_set_default_int = λ s h k i text. (success, s);
  config_set_default_float = λ s h k x text. (success, s);
  config_set_default_bool = λ s h k i text. (success, s);
  config_set_default_string = λ s h k t text. (success, s);
}

core-IsHonest : IsHonest core (codes "Core")
unfolding same_text
core-IsHonest = record {
  handle = 7;
  opens = λ s. refl;
  saves = λ s. refl;
  keeps_int =
      λ s k i. (_, refl, rw (same_text_self k) refl, λ j buffer. refl, λ j other. rw other refl);
  keeps_bool = λ s k i. (_, refl, rw (same_text_self k) refl);
  keeps_string = λ s k t buffer short. (_, refl, rw (same_text_self k) refl);
}

core-Remembers : Remembers core (codes "Core")
core-Remembers = record {
  one_handle = λ s s' h h' e e'. sym (ap (λ p. p.1) e) ∙ ap (λ p. p.1) e';
  keeps_int = λ s s' h k i v e g.
      let set : (if same_text k k then i else s.ints k) ≡ s'.ints k = ap (λ p. p.1.ints k) e in
      sym (ap (λ p. p.1) g) ∙ sym set ∙ rw (same_text_self k) refl;
  keeps_bool = λ s s' h k i v e g.
      let set : (if same_text k k then i else s.bools k) ≡ s'.bools k = ap (λ p. p.1.bools k) e in
      sym (ap (λ p. p.1) g) ∙ sym set ∙ rw (same_text_self k) refl;
  keeps_string = λ s s' h k t v buffer short e g.
      let set : (if same_text k k then t else s.strings k) ≡ s'.strings k =
        ap (λ p. p.1.strings k) e in
      let now : s'.strings k ≡ t = sym set ∙ rw (same_text_self k) refl in
      sym (ap (λ p. p.1) g) ∙ ap (λ l. l ++ drop (length l) buffer) now;
}

section_config-Trusted_example : Trusted core (codes "Core") (section_config core (codes "Core"))
section_config-Trusted_example = section_config-Trusted core (codes "Core") core-Remembers

other_section : (s : Store) → open_section core s (codes "Rsp") ≡ throws input_not_found
unfolding open_section checked same_text
other_section s = refl
