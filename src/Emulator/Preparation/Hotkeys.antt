-- ===== src/Emulator/Preparation/Hotkeys.antt =====
-- A forbidden hotkey has no key after `prepare_config`.
use net64_coop.Prelude.{
  Bool, true, false, ◌||◌, ◌≡◌, refl, some, List, [], ◌∷◌, arith, ℤ, Bool-cases, inl, inr, pos,
}
use net64_coop.Net.{Text}
use net64_coop.Text.{codes, same_text}
use net64_coop.Emulator.Error.{Error, success, ok}
use net64_coop.Emulator.Core.{is_failure}
use net64_coop.Emulator.CoreConfig.{Api, open_section, save, checked, checked_change}
use net64_coop.Emulator.CoreConfig.Section.{set_bool, set_string}
use net64_coop.Emulator.Preparation.{
  forbidden_hotkeys, events_section, core_section, ignore, clear_hotkeys, set_paths, on_section,
  on_sections, prepare_config,
}

abbrev pub is_among : Text → List Text → Bool
is_among t [] = false
is_among t (u ∷ us) = same_text u t || is_among t us

module _ {S H F : Type 0} (api : Api S H F) (events core : H) (hotkey : Text) where
  -- The value of the hotkey is empty: nothing is written into a buffer.
  abbrev pub IsCleared : S → Type 0
  IsCleared s = (buffer : Text) → api.config_get_string s events hotkey buffer ≡ (success, buffer)

  -- What the core documents: the two sections open; a hotkey that is set to nothing is empty; no other
  -- change makes it anything else.
  pub record Documents : Type 0 where
    pub opens_events : (s : S) → api.config_open_section s events_section ≡ (success, events)
    pub opens_core : (s : S) → api.config_open_section s core_section ≡ (success, core)
    pub clears :
        (s : S) (k : Text)
        → same_text k hotkey ≡ true
        → IsCleared (api.config_set_string s events k []).1
    pub keeps : (s : S) (k : Text) → IsCleared s → IsCleared (api.config_set_string s events k []).1
    pub keeps_string :
        (s : S) (k t : Text) → IsCleared s → IsCleared (api.config_set_string s core k t).1
    pub keeps_bool :
        (s : S) (k : Text) (i : ℤ) → IsCleared s → IsCleared (api.config_set_bool s core k i).1
    pub keeps_file : (s : S) → IsCleared s → IsCleared (api.config_save_file s).1

module _ {S H F : Type 0} (api : Api S H F) {events core : H} (hotkey : Text)
    (doc : Documents api events core hotkey) where
  abbrev pub Cleared : S → Type 0
  Cleared s = IsCleared api events core hotkey s

  clear_hotkeys-IsCleared :
      (keys : List Text) (s : S) → Cleared s → Cleared (clear_hotkeys api events keys s)
  unfolding clear_hotkeys ignore set_string checked_change
  clear_hotkeys-IsCleared [] s c = c
  clear_hotkeys-IsCleared (k ∷ keys) s c = clear_hotkeys-IsCleared keys _ (doc.keeps s k c)

  clear_hotkeys-clears :
      (keys : List Text) (s : S)
      → is_among hotkey keys ≡ true
      → Cleared (clear_hotkeys api events keys s)
  unfolding clear_hotkeys ignore set_string checked_change
  clear_hotkeys-clears [] s among = absurd (ground arith)
  clear_hotkeys-clears (k ∷ keys) s among = elim (Bool-cases (same_text k hotkey)) [
    | inl hit ↦ clear_hotkeys-IsCleared keys _ (doc.clears s k hit)
    | inr miss ↦ clear_hotkeys-clears keys _ (rw miss at among)
  ]

  opens_events_lem : (s : S) → open_section api s events_section ≡ ok events
  unfolding open_section checked
  opens_events_lem s = rw (doc.opens_events s, open_section) refl

  opens_core_lem : (s : S) → open_section api s core_section ≡ ok core
  unfolding open_section checked
  opens_core_lem s = rw (doc.opens_core s, open_section) refl

  module _ (screenshot save_path : Text) where
    set_paths-IsCleared : (s : S) → Cleared s → Cleared (set_paths api screenshot save_path core s)
    unfolding set_paths ignore set_string set_bool checked_change
    set_paths-IsCleared s c = doc.keeps_string _ (codes "SaveSRAMPath") save_path (
        doc.keeps_string _ (codes "SaveStatePath") save_path (
          doc.keeps_string _ (codes "ScreenshotPath") screenshot
            (doc.keeps_bool s (codes "DisableExtraMem") (pos 0) c)))

    -- A section does not disturb a hotkey that is cleared, and that of the events clears it.
    on_section-IsCleared :
        (name : Text) (s : S)
        → (s' : S) × (on_section api screenshot save_path name s ≡ some s')
          × (Cleared s → Cleared s')
          × (same_text name events_section ≡ true
              → is_among hotkey forbidden_hotkeys ≡ true
              → Cleared s')
    unfolding on_section
    on_section-IsCleared name s = elim (Bool-cases (same_text name events_section)) [
      | inl hit ↦ (
        clear_hotkeys api events forbidden_hotkeys s,
        rw hit (rw (opens_events_lem s) refl),
        clear_hotkeys-IsCleared forbidden_hotkeys s,
        λ e among. clear_hotkeys-clears forbidden_hotkeys s among,
      )
      | inr miss ↦ elim (Bool-cases (same_text name core_section)) [
        | inl hit ↦ (
          set_paths api screenshot save_path core s,
          rw (miss, hit) (rw (opens_core_lem s) refl),
          set_paths-IsCleared s,
          λ e among. absurd (ground arith),
        )
        | inr other ↦ (s, rw (miss, other) refl, λ c. c, λ e among. absurd (ground arith))
      ]
    ]

    on_sections-IsCleared :
        (names : List Text) (s : S)
        → (s' : S) × (on_sections api screenshot save_path names s ≡ some s')
          × (Cleared s → Cleared s')
          × (is_among events_section names ≡ true
              → is_among hotkey forbidden_hotkeys ≡ true
              → Cleared s')
    unfolding on_sections
    on_sections-IsCleared [] s = (s, refl, λ c. c, λ e among. absurd (ground arith))
    on_sections-IsCleared (name ∷ names) s =
        let (s1, ran, kept, cleared) = on_section-IsCleared name s in
        let (s2, rest, kept', cleared') = on_sections-IsCleared names s1 in
        (
          s2,
          rw (ran, on_sections) rest,
          λ c. kept' (kept c),
          λ e among. elim (Bool-cases (same_text name events_section)) [
            | inl hit ↦ kept' (cleared hit among)
            | inr miss ↦ cleared' (rw miss at e) among
          ],
        )

    -- Over a core that does as documented and lists the section of the events, each forbidden hotkey is
    -- empty after `prepare_config`, which ends: whether other changes fail, the list itself fails behind
    -- its callbacks, or the file cannot be saved.
    pub hotkey_is_taken_away :
        (config_list_sections : S → Error × List Text) (s : S)
        → is_among hotkey forbidden_hotkeys ≡ true
        → is_among events_section (config_list_sections s).1 ≡ true
        → (s' : S) × (prepare_config api screenshot save_path config_list_sections s ≡ some s')
          × Cleared s'
    unfolding prepare_config save checked_change
    hotkey_is_taken_away config_list_sections s forbidden events_listed =
        let (s1, ran, _, cleared) = on_sections-IsCleared (config_list_sections s).1 s in
        let c = cleared events_listed forbidden in
        elim (Bool-cases (is_failure (config_list_sections s).0)) [
          | inl failed ↦ (s1, rw (ran, prepare_config) (rw failed refl), c)
          | inr listed ↦ (_, rw (ran, prepare_config) (rw listed refl), doc.keeps_file s1 c)
        ]
