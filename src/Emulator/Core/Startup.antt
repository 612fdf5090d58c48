-- ===== src/Emulator/Core/Startup.antt =====
-- How the constructors of the core end, and what they leave behind.
use net64_coop.Prelude.{◌≡◌, refl, ap, ◌≢◌, ◌⊎◌, inl, inr, true, false, ◌∷◌, Bool-cases}
use net64_coop.Net.{Text}
use net64_coop.Emulator.Error.{Error, success}
use net64_coop.Emulator.Core.{
  PluginInfo, Calls, core_startup, core_shutdown, create_folders, Library, Made, made, failed,
  folder_error, create_folder_structure, init_core, core_from_handle, core_from_file, destroy_core,
  or_destroyed, init_again, core_from_process, is_failure,
}

-- What the construction of a core may come to. A core that is made was started and has its folders;
-- one that failed was not started, or its start failed with the error that is thrown; where a folder
-- cannot be created the core was started.
abbrev pub Leaves : Library → Calls → Made PluginInfo × Calls → Type 0
Leaves lib calls (made info, calls') =
    (lib.core_get_version ≡ (success, info))
    × (lib.core_starts calls ≡ success)
    × (calls' ≡ create_folders ∷ core_startup ∷ calls)
Leaves lib calls (failed e, calls') =
    (e ≢ success)
    × ((calls' ≡ calls) ⊎ ((calls' ≡ core_startup ∷ calls) × (lib.core_starts calls ≡ e)))
Leaves lib calls (folder_error, calls') =
    (calls' ≡ core_startup ∷ calls) × (lib.core_starts calls ≡ success)

is_failure-ne : (e : Error) → is_failure e ≡ true → e ≢ success
unfolding is_failure
is_failure-ne e h k = cc (ap is_failure k)

is_failure-eq : (e : Error) → is_failure e ≡ false → e ≡ success
unfolding is_failure
is_failure-eq success h = refl
is_failure-eq _ h = cc

init_core-Leaves : (lib : Library) (calls : Calls) → Leaves lib calls (init_core lib calls)
unfolding init_core create_folder_structure
init_core-Leaves lib calls =
    let start = lib.core_starts calls in
    elim (Bool-cases (is_failure lib.core_get_version.0)) [
      | inl no_version ↦ rw no_version (is_failure-ne lib.core_get_version.0 no_version, inl refl)
      | inr version ↦ rw version (elim (Bool-cases (is_failure start)) [
        | inl refused ↦ rw refused (is_failure-ne start refused, inr (refl, refl))
        | inr starts ↦ rw starts (elim (Bool-cases (lib.folders_created (core_startup ∷ calls))) [
          | inl folders ↦ rw folders (
            ap (λ e. (e, lib.core_get_version.1)) (is_failure-eq lib.core_get_version.0 version),
            is_failure-eq start starts,
            refl,
          )
          | inr none_made ↦ rw none_made (refl, is_failure-eq start starts)
        ])
      ])
    ]

module _ (lib : Library) (calls : Calls) where
  -- However the construction of a core from a library file ends, it is one of these: the core is made,
  -- started once and with its folders; it was not started, or its start was refused with the error
  -- that is thrown; or a folder could not be created, and the core stays started with no object that
  -- would shut it down.
  pub core_from_file-Leaves :
      (lib_path : Text) → Leaves lib calls (core_from_file lib lib_path calls)
  unfolding core_from_file
  core_from_file-Leaves lib_path = elim (Bool-cases (lib.file_loads lib_path)) [
    | inl loads ↦ rw loads (init_core-Leaves lib calls)
    | inr missing ↦ rw missing (cc, inl refl)
  ]

-- What the construction of a core from the current process may come to, if the core refuses to be started
-- twice: no core is made. The version could not be read, or a start was refused with the error that is
-- thrown, where a core that had been started before is shut down; or a folder could not be created, and
-- the core stays started.
abbrev pub LeavesNone : Library → Calls → Made PluginInfo × Calls → Type 0
LeavesNone lib calls (made info, calls') = ⊥
LeavesNone lib calls (failed e, calls') =
    (e ≢ success)
    × ((calls' ≡ calls)
        ⊎ (((calls' ≡ core_startup ∷ calls) × (lib.core_starts calls ≡ e))
            ⊎ ((calls' ≡ core_shutdown ∷ core_startup ∷ create_folders ∷ core_startup ∷ calls)
                × (lib.core_starts calls ≡ success)
                × (lib.core_starts (create_folders ∷ core_startup ∷ calls) ≡ e))))
LeavesNone lib calls (folder_error, calls') =
    (calls' ≡ core_startup ∷ calls) × (lib.core_starts calls ≡ success)

init_core-refused :
    (lib : Library) (calls : Calls) (info : PluginInfo)
    → lib.core_get_version ≡ (success, info)
    → is_failure (lib.core_starts calls) ≡ true
    → init_core lib calls ≡ (failed (lib.core_starts calls), core_startup ∷ calls)
unfolding init_core is_failure
init_core-refused lib calls info version refused =
    simp (init_core, version, is_failure, refused) refl

module _ (lib : Library) (calls : Calls)
    (again : is_failure (lib.core_starts (create_folders ∷ core_startup ∷ calls)) ≡ true) where
  init_again-LeavesNone :
      (r : Made PluginInfo × Calls) → Leaves lib calls r → LeavesNone lib calls (init_again lib r)
  unfolding init_again or_destroyed destroy_core
  init_again-LeavesNone (made info, calls') (version, starts, same) =
      let run = create_folders ∷ core_startup ∷ calls in
      rw (same, init_core-refused lib run info version again)
        (is_failure-ne (lib.core_starts run) again, inr (inr (refl, starts, refl)))
  init_again-LeavesNone (failed e, calls') (bad, inl same) = (bad, inl same)
  init_again-LeavesNone (failed e, calls') (bad, inr started) = (bad, inr (inl started))
  init_again-LeavesNone (folder_error, calls') left = left

  -- If the core refuses to be started while it runs, the constructor for the core of the current process,
  -- which starts the core in the constructor to which it delegates and then once more, never makes a
  -- core: whatever the core answers, it throws. A core that was started before is shut down, unless it
  -- was a folder that could not be created.
  pub core_from_process_fails : LeavesNone lib calls (core_from_process lib calls)
  unfolding core_from_process core_from_handle
  core_from_process_fails =
      init_again-LeavesNone (core_from_handle lib calls) (init_core-Leaves lib calls)
