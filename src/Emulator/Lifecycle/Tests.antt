-- ===== src/Emulator/Lifecycle/Tests.antt =====
-- A run of the emulator, and the theorems at it.
use net64_coop.Prelude.{◌≡◌, ◌≢◌, refl, true, none, some, [], ◌∷◌}
use net64_coop.Emulator.Lifecycle.{
  Mupen, stopped, starting, running, paused, nobody, emulation, launched, executing, for_nothing,
  for_start, went, make_mupen, load_rom, start, enter, on_core_state, CoreState, core_running,
  core_stopped, finish, stop, stop_waits, join, state, state_running, state_paused,
}
use net64_coop.Emulator.Lifecycle.Invariant.{
  Reaches, begun, up, ended, made, loaded, started, entered, runs,
}
use net64_coop.Emulator.Lifecycle.Safety.{is_fine, no_assertion_fails}
use net64_coop.Emulator.Lifecycle.Paused.{reports, never_running_again, stop_and_join}

abbrev ready : Mupen
ready = record make_mupen { rom_loaded = true }

abbrev launching : Mupen
launching = record ready { state = starting; thread = launched; waits = for_start }

abbrev in_core : Mupen
in_core = record ready { state = starting; thread = executing; mutex = emulation }

abbrev up_and_running : Mupen
up_and_running = record ready { state = running; thread = executing; notified = state_running ∷ [] }

runs_there : Reaches up_and_running up
unfolding load_rom start enter on_core_state
runs_there =
    runs in_core up_and_running
      (entered launching in_core begun
        (started ready launching begun (loaded make_mupen ready begun none made refl refl) refl
          refl)
        refl refl)
      refl refl

abbrev pausing : Mupen
pausing = record up_and_running { state = paused; notified = state_running ∷ state_paused ∷ [] }

abbrev resumed : Mupen
resumed = record pausing { notified = state_running ∷ state_paused ∷ state_running ∷ [] }

no_assertion_fails_example :
    (for_nothing ≡ for_nothing
      → (is_fine (stop up_and_running) ≡ true)
        × (true ≡ true → is_fine (start up_and_running) ≡ true))
    × (executing ≡ launched → is_fine (enter up_and_running) ≡ true)
    × (executing ≡ executing
        → up ≡ begun
        → is_fine (on_core_state up_and_running core_running) ≡ true)
    × (executing ≡ executing
        → up ≡ up
        → (s : CoreState) → is_fine (on_core_state up_and_running s) ≡ true)
    × (executing ≡ executing → up ≡ ended → is_fine (finish up_and_running none) ≡ true)
no_assertion_fails_example = no_assertion_fails up_and_running up runs_there

never_running_again_example : state resumed ≢ some state_running
unfolding reports on_core_state
never_running_again_example = never_running_again (core_running ∷ []) pausing resumed refl refl

stop_and_join_example :
    (m1 : Mupen) × (m2 : Mupen) × (m3 : Mupen) × (m4 : Mupen) × (m5 : Mupen) × (m6 : Mupen) × (stop
        up_and_running
      ≡ went m1)
    × (on_core_state m1 core_stopped ≡ went m2)
    × (finish m2 none ≡ went m3)
    × (stop_waits m3 ≡ went m4)
    × (join m4 ≡ (went m5, none))
    × (m5.state ≡ stopped)
    × (m5.mutex ≡ nobody)
    × (start m5 ≡ went m6)
    × (m6.state ≡ starting)
stop_and_join_example = stop_and_join up_and_running runs_there refl refl refl
