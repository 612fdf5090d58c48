-- ===== src/Emulator/Lifecycle/Safety.antt =====
-- Where no assertion of `start`, `stop` and the emulation thread fails and the mutex is used properly.
use net64_coop.Prelude.{◌≡◌, Bool, true, false, none, arith}
use net64_coop.Emulator.Lifecycle.{
  Mupen, launched, executing, for_nothing, Run, asserts, undefined, start, enter, on_core_state,
  CoreState, core_running, core_paused, core_stopped, finish, stop,
}
use net64_coop.Emulator.Lifecycle.Invariant.{
  Phase, begun, up, ended, Reaches, IsSound, reached-IsSound,
}

-- Neither an assertion that fails nor a mutex that is misused.
abbrev pub is_fine : Run → Bool
is_fine asserts = false
is_fine undefined = false
is_fine _ = true

safe_user :
    (m : Mupen) (p : Phase)
    → IsSound m p
    → m.waits ≡ for_nothing
    → (is_fine (stop m) ≡ true) × (m.rom_loaded ≡ true → is_fine (start m) ≡ true)
unfolding stop start
safe_user m p v w = (ground arith, λ l. ground arith)

safe_thread :
    (m : Mupen) (p : Phase)
    → IsSound m p
    → (m.thread ≡ launched → is_fine (enter m) ≡ true)
      × (m.thread ≡ executing → p ≡ begun → is_fine (on_core_state m core_running) ≡ true)
      × (m.thread ≡ executing → p ≡ up → (s : CoreState) → is_fine (on_core_state m s) ≡ true)
      × (m.thread ≡ executing → p ≡ ended → is_fine (finish m none) ≡ true)
unfolding enter on_core_state finish
safe_thread m p v = (
  λ t. ground arith,
  λ t q. ground arith,
  λ t q s. elim s [
    | core_running ↦ ground arith
    | core_paused ↦ ground arith
    | core_stopped ↦ ground arith
  ],
  λ t q. ground arith,
)

-- In every state that a user who waits for each call and a core that keeps to its order can reach: a call
-- of `stop`, a call of `start` while a ROM is loaded, the start of the emulation thread, each report of
-- the core that is due and the end of the thread without an error fail no assertion, take no mutex that
-- the thread has already and release none that it has not.
pub no_assertion_fails :
    (m : Mupen) (p : Phase)
    → Reaches m p
    → (m.waits ≡ for_nothing
        → (is_fine (stop m) ≡ true) × (m.rom_loaded ≡ true → is_fine (start m) ≡ true))
      × (m.thread ≡ launched → is_fine (enter m) ≡ true)
      × (m.thread ≡ executing → p ≡ begun → is_fine (on_core_state m core_running) ≡ true)
      × (m.thread ≡ executing → p ≡ up → (s : CoreState) → is_fine (on_core_state m s) ≡ true)
      × (m.thread ≡ executing → p ≡ ended → is_fine (finish m none) ≡ true)
no_assertion_fails m p r =
    let v = reached-IsSound r in
    let (a, b, c, d) = safe_thread m p v in ((λ w. safe_user m p v w), a, b, c, d)
