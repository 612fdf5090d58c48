-- ===== src/Emulator/Preparation.antt =====
-- `Mupen64Plus::prepare_config` of src/net64/emulator/m64plus.cpp: the hotkeys that are taken away and the
-- paths that are set before a ROM is loaded. The paths are arguments, as is the function of the core that
-- lists the sections to a callback.
pub mod Hotkeys
mod Tests
use net64_coop.Prelude.{Bool, true, false, Option, none, some, List, [], ◌∷◌, if◌then◌else◌}
use net64_coop.Net.{Text}
use net64_coop.Text.{codes, same_text}
use net64_coop.Emulator.Error.{Error, success, Result, ok, throws, undefined}
use net64_coop.Emulator.Core.{is_failure}
use net64_coop.Emulator.CoreConfig.{Api, open_section, save}
use net64_coop.Emulator.CoreConfig.Section.{set_bool, set_string}

-- `FORBIDDEN_HOTKEYS`
abbrev pub forbidden_hotkeys : List Text
forbidden_hotkeys =
    codes "Kbd Mapping Load State"
    ∷ codes "Kbd Mapping Speed Down"
    ∷ codes "Kbd Mapping Speed Up"
    ∷ codes "Kbd Mapping Pause"
    ∷ codes "Kbd Mapping Fast Forward"
    ∷ codes "Kbd Mapping Frame Advance"
    ∷ codes "Kbd Mapping Gameshark"
    ∷ []

abbrev pub events_section : Text
events_section = codes "CoreEvents"

abbrev pub core_section : Text
core_section = codes "Core"

-- `IGNR`
unfoldable pub ignore : {S : Type 0} → Result (Unit {0}) × S → S
ignore (r, s) = s

module _ {S H F : Type 0} (api : Api S H F) where
  unfoldable pub clear_hotkeys : H → List Text → S → S
  clear_hotkeys section [] s = s
  clear_hotkeys section (hotkey ∷ hotkeys) s =
      clear_hotkeys section hotkeys (ignore (set_string api s section hotkey []))

  module _ (screenshot save_path : Text) where
    unfoldable pub set_paths : H → S → S
    set_paths section s =
        let s1 = ignore (set_bool api s section (codes "DisableExtraMem") false) in
        let s2 = ignore (set_string api s1 section (codes "ScreenshotPath") screenshot) in
        let s3 = ignore (set_string api s2 section (codes "SaveStatePath") save_path) in
        ignore (set_string api s3 section (codes "SaveSRAMPath") save_path)

    -- The callback. `none`: an exception of `open_section` goes through the core, which is C code.
    unfoldable pub on_section : Text → S → Option S
    on_section name s =
        if same_text name events_section
        then elim (open_section api s events_section) [
          | ok section ↦ some (clear_hotkeys section forbidden_hotkeys s)
          | _ ↦ none
        ]
        else if same_text name core_section
        then elim (open_section api s core_section) [
          | ok section ↦ some (set_paths section s)
          | _ ↦ none
        ]
        else some s

    unfoldable pub on_sections : List Text → S → Option S
    on_sections [] s = some s
    on_sections (name ∷ names) s = elim (on_section name s) [
      | none ↦ none
      | some s' ↦ on_sections names s'
    ]

    -- What the core answers to `config_list_sections`, and the names that it calls back with.
    module _ (config_list_sections : S → Error × List Text) where
      -- Errors are logged; where the list fails the configuration is not saved.
      unfoldable pub prepare_config : S → Option S
      prepare_config s =
          let (e, names) = config_list_sections s in
          elim (on_sections names s) [
            | none ↦ none
            | some s' ↦ some (if is_failure e then s' else (save api s').1)
          ]
