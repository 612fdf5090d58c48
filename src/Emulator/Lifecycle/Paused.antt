-- ===== src/Emulator/Lifecycle/Paused.antt =====
-- What `state` answers after a pause, and how a run ends.
use net64_coop.Prelude.{◌≡◌, ◌≢◌, refl, true, none, some, List, [], ◌∷◌, ◌++◌, arith}
use net64_coop.Emulator.Lifecycle.{
  Mupen, stopped, starting, running, paused, stopping, joinable, nobody, emulation, no_thread,
  launched, executing, finished, for_nothing, for_start, for_stop, Run, went, blocked, asserts,
  undefined, throws, start, on_core_state, CoreState, core_running, core_paused, core_stopped,
  finish, stop, stop_waits, join, state, state_running, state_joinable,
}
use net64_coop.Emulator.Lifecycle.Invariant.{Reaches, up, reached-IsSound}

-- The states that the core reports, one after the other.
unfoldable pub reports : Mupen → List CoreState → Run
reports m [] = went m
reports m (s ∷ ss) = elim (on_core_state m s) [
  | went m' ↦ reports m' ss
  | blocked ↦ blocked
  | asserts ↦ asserts
  | undefined ↦ undefined
  | throws e m' ↦ throws e m'
]

abbrev NotRunning : Mupen → Type 0
NotRunning m = (m.state ≢ running) × (m.state ≢ starting)

report_keeps :
    (m m' : Mupen) (s : CoreState) → NotRunning m → on_core_state m s ≡ went m' → NotRunning m'
unfolding on_core_state
report_keeps m m' core_running n e = (λ h. ground arith, λ h. ground arith)
report_keeps m m' core_paused n e = (λ h. ground arith, λ h. ground arith)
report_keeps m m' core_stopped n e = (λ h. ground arith, λ h. ground arith)

reports_keep :
    (ss : List CoreState) (m m' : Mupen) → NotRunning m → reports m ss ≡ went m' → NotRunning m'
unfolding reports
reports_keep [] m m' n e = (λ h. ground arith, λ h. ground arith)
reports_keep (s ∷ ss) m m' n e =
    (elim (on_core_state m s)
        as (λ r.
          on_core_state m s ≡ r
          → (elim r as (λ x. Run) [
            | went m1 ↦ reports m1 ss
            | blocked ↦ blocked
            | asserts ↦ asserts
            | undefined ↦ undefined
            | throws x m1 ↦ throws x m1
          ])
            ≡ went m'
          → NotRunning m') [
            | went m1 ↦ λ q e. reports_keep ss m1 m' (report_keeps m m1 s n q) e
            | blocked ↦ λ q e. cc
            | asserts ↦ λ q e. cc
            | undefined ↦ λ q e. cc
            | throws x m1 ↦ λ q e. cc
          ])
      refl e

-- Within the run in which the emulation was paused `state` does not answer RUNNING again, whatever the
-- core reports, and however often it reports that it goes on: the callback takes that report only while
-- starting.
pub never_running_again :
    (ss : List CoreState) (m m' : Mupen)
    → m.state ≡ paused
    → reports m ss ≡ went m'
    → state m' ≢ some state_running
unfolding state
never_running_again ss m m' p e =
    let n = reports_keep ss m m' (λ h. ground arith, λ h. ground arith) e in λ h. ground arith

-- From every running or paused state that can be reached, `stop`, the core's report that it has
-- stopped, the end of the emulation thread, the end of the loop in `stop`, and `join` all go through,
-- without an exit code, and lead to a stopped emulator with a free mutex that can start again.
pub stop_and_join :
    (m : Mupen)
    → Reaches m up
    → m.thread ≡ executing
    → m.waits ≡ for_nothing
    → m.rom_loaded ≡ true
    → (m1 : Mupen) × (m2 : Mupen) × (m3 : Mupen) × (m4 : Mupen) × (m5 : Mupen) × (m6 : Mupen)
      × (stop m ≡ went m1)
      × (on_core_state m1 core_stopped ≡ went m2)
      × (finish m2 none ≡ went m3)
      × (stop_waits m3 ≡ went m4)
      × (join m4 ≡ (went m5, none))
      × (m5.state ≡ stopped)
      × (m5.mutex ≡ nobody)
      × (start m5 ≡ went m6)
      × (m6.state ≡ starting)
unfolding stop on_core_state finish stop_waits join start
stop_and_join m r t w l =
    let v = reached-IsSound r in
    let free : m.mutex ≡ nobody = ground arith in
    let m1 : Mupen = record m { state = stopping; waits = for_stop } in
    let m2 : Mupen = record m1 { state = joinable; mutex = emulation } in
    let m3 : Mupen = record m2 {
      mutex = nobody;
      thread = finished none;
      notified = m2.notified ++ (state_joinable ∷ []);
    } in
    let m4 : Mupen = record m3 { waits = for_nothing } in
    let m5 : Mupen = record m4 { state = stopped; thread = no_thread } in
    let m6 : Mupen = record m5 { state = starting; thread = launched; waits = for_start } in
    (
      m1,
      m2,
      m3,
      m4,
      m5,
      m6,
      ground arith,
      ground arith,
      refl,
      refl,
      refl,
      refl,
      refl,
      ground arith,
      refl,
    )
