-- ===== src/Emulator/Preparation/Tests.antt =====
-- A core that keeps a text for each section and key, where some keys cannot be set.
use net64_coop.Prelude.{
  ℕ, pos, ◌≡◌, refl, ◌&&◌, some, none, [], ◌∷◌, ◌++◌, length, drop, if◌then◌else◌, ◌==◌, Bool-cases,
  inl, inr,
}
use net64_coop.Net.{Text}
use net64_coop.Text.{codes, same_text}
use net64_coop.Emulator.Error.{success, internal, input_not_found, files}
use net64_coop.Emulator.CoreConfig.{type_int, Api}
use net64_coop.Emulator.Preparation.{prepare_config, events_section, core_section}
use net64_coop.Emulator.Preparation.Hotkeys.{Documents, hotkey_is_taken_away}

abbrev Store : Type 0
Store = ℕ → Text → Text

abbrev put : Store → ℕ → Text → Text → Store
put s h k t = λ g j. if (g == h) && same_text k j then t else s g j

-- The handle of "CoreEvents" is 1 and that of "Core" is 2. The changes of numbers fail, as does the file.
abbrev core : Api Store ℕ ℕ
core = record {
  config_open_section = λ s name.
      if same_text name events_section
      then (success, 1)
      else if same_text name core_section
      then (success, 2)
      else (input_not_found, 0);
  config_save_file = λ s. (files, s);
  config_save_section = λ s name. (files, s);
  config_delete_section = λ s name. (success, s);
  config_revert_changes = λ s name. (success, s);
  config_has_unsaved_changes = λ s name. pos 0;
  config_set_int = λ s h k i. (internal, s);
  config_set_float = λ s h k x. (internal, s);
  config_set_bool = λ s h k i. (internal, s);
  config_set_string = λ s h k t. (success, put s h k t);
  config_get_int = λ s h k. (success, pos 0);
  config_get_float = λ s h k. (success, 0);
  config_get_bool = λ s h k. (success, pos 0);
  config_get_string = λ s h k buffer. (success, s h k ++ drop (length (s h k)) buffer);
  config_get_parameter_type = λ s h k. (success, type_int);
  config_get_parameter_help = λ s h k. none;
  config_set_default_int = λ s h k i text. (success, s);
  config_set_default_float = λ s h k x text. (success, s);
  config_set_default_bool = λ s h k i text. (success, s);
  config_set_default_string = λ s h k t text. (success, s);
}

abbrev pause : Text
pause = codes "Kbd Mapping Pause"

core-Documents : Documents core 1 2 pause
unfolding same_text
core-Documents = record {
  opens_events = λ s. refl;
  opens_core = λ s. refl;
  clears = λ s k hit buffer. rw hit refl;
  keeps = λ s k c buffer. elim (Bool-cases (same_text k pause)) [
    | inl hit ↦ rw hit refl
    | inr miss ↦ rw miss (c buffer)
  ];
  keeps_string = λ s k t c buffer. c buffer;
  keeps_bool = λ s k i c buffer. c buffer;
  keeps_file = λ s c buffer. c buffer;
}

-- Every hotkey is the key "p" at first.
abbrev before : Store
before = λ h k. 112 ∷ []

hotkey_is_taken_away_example :
    (s' : Store) × (prepare_config core
        (codes "s")
        (codes "t")
        (λ s. (success, codes "Rsp" ∷ events_section ∷ core_section ∷ []))
        before
      ≡ some s')
    × ((buffer : Text) → core.config_get_string s' 1 pause buffer ≡ (success, buffer))
unfolding same_text
hotkey_is_taken_away_example =
    hotkey_is_taken_away core pause core-Documents (codes "s") (codes "t")
      (λ s. (success, codes "Rsp" ∷ events_section ∷ core_section ∷ [])) before refl refl
