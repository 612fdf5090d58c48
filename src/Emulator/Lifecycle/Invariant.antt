-- ===== src/Emulator/Lifecycle/Invariant.antt =====
-- What holds of the emulator between two stretches of its threads, and that no assertion fails.
use net64_coop.Prelude.{◌≡◌, ◌≢◌, refl, Bool, true, false, Option, none, some, arith}
use net64_coop.Emulator.Error.{Error}
use net64_coop.Emulator.Lifecycle.{
  Mupen, MupenState, stopped, starting, running, paused, stopping, joinable, Owner, nobody,
  emulation, Thread, no_thread, launched, executing, finished, Waits, for_nothing, for_start,
  for_stop, went, make_mupen, load_rom, unload_rom, start, enter, on_core_state, core_running,
  core_paused, core_stopped, finish, stop, stop_waits, join,
}

-- How far the core has come: before it reported that it runs, after that, and after it reported that
-- it has stopped.
pub data Phase : Type 0 where
  begun up ended : Phase

-- The core reports that it runs before anything else and that it has stopped once, at the end; its
-- call returns without an error only after that, and with one only before it runs or after that.
pub data Reaches : Mupen → Phase → Type 0 where
  made : Reaches make_mupen begun
  loaded :
      (m m' : Mupen) (p : Phase) (answer : Option Error)
      → Reaches m p
      → m.waits ≡ for_nothing
      → load_rom m answer ≡ went m'
      → Reaches m' p
  unloaded :
      (m m' : Mupen) (p : Phase)
      → Reaches m p
      → m.waits ≡ for_nothing
      → unload_rom m ≡ went m'
      → Reaches m' p
  started :
      (m m' : Mupen) (p : Phase)
      → Reaches m p
      → m.waits ≡ for_nothing
      → start m ≡ went m'
      → Reaches m' p
  entered :
      (m m' : Mupen) (p : Phase)
      → Reaches m p
      → m.thread ≡ launched
      → enter m ≡ went m'
      → Reaches m' begun
  runs :
      (m m' : Mupen)
      → Reaches m begun
      → m.thread ≡ executing
      → on_core_state m core_running ≡ went m'
      → Reaches m' up
  resumes :
      (m m' : Mupen)
      → Reaches m up
      → m.thread ≡ executing
      → on_core_state m core_running ≡ went m'
      → Reaches m' up
  pauses :
      (m m' : Mupen)
      → Reaches m up
      → m.thread ≡ executing
      → on_core_state m core_paused ≡ went m'
      → Reaches m' up
  stops :
      (m m' : Mupen)
      → Reaches m up
      → m.thread ≡ executing
      → on_core_state m core_stopped ≡ went m'
      → Reaches m' ended
  finishes :
      (m m' : Mupen)
      → Reaches m ended
      → m.thread ≡ executing
      → finish m none ≡ went m'
      → Reaches m' ended
  fails :
      (m m' : Mupen) (p : Phase) (e : Error)
      → Reaches m p
      → p ≢ up
      → m.thread ≡ executing
      → finish m (some e) ≡ went m'
      → Reaches m' p
  asked_to_stop :
      (m m' : Mupen) (p : Phase)
      → Reaches m p
      → m.waits ≡ for_nothing
      → stop m ≡ went m'
      → Reaches m' p
  stop_returned :
      (m m' : Mupen) (p : Phase)
      → Reaches m p
      → m.waits ≡ for_stop
      → stop_waits m ≡ went m'
      → Reaches m' p
  joined :
      (m m' : Mupen) (p : Phase)
      → Reaches m p
      → m.waits ≡ for_nothing
      → (join m).0 ≡ went m'
      → Reaches m' p

abbrev is_up : MupenState → Bool
is_up running = true
is_up paused = true
is_up stopping = true
is_up _ = false

-- Who has the mutex and which states there are, for each state of the emulation thread.
abbrev fits : Thread → Phase → MupenState → Owner → Waits → Bool
fits no_thread p stopped nobody for_nothing = true
fits launched p starting nobody for_start = true
fits executing begun starting emulation for_nothing = true
fits executing up running nobody for_nothing = true
fits executing up paused nobody for_nothing = true
fits executing up stopping nobody for_stop = true
fits executing up paused nobody for_stop = true
fits executing ended joinable emulation for_nothing = true
fits executing ended joinable emulation for_stop = true
fits (finished e) p joinable nobody for_nothing = true
fits (finished e) p joinable nobody for_stop = true
fits _ _ _ _ _ = false

abbrev pub IsSound : Mupen → Phase → Type 0
IsSound m p = fits m.thread p m.state m.mutex m.waits ≡ true

stop-IsSound :
    (m m' : Mupen) (p : Phase)
    → IsSound m p
    → m.waits ≡ for_nothing
    → stop m ≡ went m'
    → IsSound m' p
unfolding stop
stop-IsSound m m' p v w e = ground arith

load_rom-IsSound :
    (m m' : Mupen) (p : Phase) (answer : Option Error)
    → IsSound m p
    → load_rom m answer ≡ went m'
    → IsSound m' p
unfolding load_rom
load_rom-IsSound m m' p answer v e = ground arith

unload_rom-IsSound :
    (m m' : Mupen) (p : Phase) → IsSound m p → unload_rom m ≡ went m' → IsSound m' p
unfolding unload_rom
unload_rom-IsSound m m' p v e = ground arith

start-IsSound : (m m' : Mupen) (p : Phase) → IsSound m p → start m ≡ went m' → IsSound m' p
unfolding start
start-IsSound m m' p v e = ground arith

enter-IsSound :
    (m m' : Mupen) (p : Phase)
    → IsSound m p
    → m.thread ≡ launched
    → enter m ≡ went m'
    → IsSound m' begun
unfolding enter
enter-IsSound m m' p v t e = ground arith

runs-IsSound :
    (m m' : Mupen)
    → IsSound m begun
    → m.thread ≡ executing
    → on_core_state m core_running ≡ went m'
    → IsSound m' up
unfolding on_core_state
runs-IsSound m m' v t e = ground arith

resumes-IsSound :
    (m m' : Mupen)
    → IsSound m up
    → m.thread ≡ executing
    → on_core_state m core_running ≡ went m'
    → IsSound m' up
unfolding on_core_state
resumes-IsSound m m' v t e = ground arith

pauses-IsSound :
    (m m' : Mupen)
    → IsSound m up
    → m.thread ≡ executing
    → on_core_state m core_paused ≡ went m'
    → IsSound m' up
unfolding on_core_state
pauses-IsSound m m' v t e = ground arith

stops-IsSound :
    (m m' : Mupen)
    → IsSound m up
    → m.thread ≡ executing
    → on_core_state m core_stopped ≡ went m'
    → IsSound m' ended
unfolding on_core_state
stops-IsSound m m' v t e = ground arith

finish-IsSound :
    (m m' : Mupen) (p : Phase) (o : Option Error)
    → IsSound m p
    → p ≢ up
    → m.thread ≡ executing
    → finish m o ≡ went m'
    → IsSound m' p
unfolding finish
finish-IsSound m m' p none v np t e = ground arith
finish-IsSound m m' p (some x) v np t e = ground arith

stop_waits-IsSound :
    (m m' : Mupen) (p : Phase)
    → IsSound m p
    → m.waits ≡ for_stop
    → stop_waits m ≡ went m'
    → IsSound m' p
unfolding stop_waits
stop_waits-IsSound m m' p v w e = ground arith

join-IsSound :
    (m m' : Mupen) (p : Phase)
    → IsSound m p
    → m.waits ≡ for_nothing
    → (join m).0 ≡ went m'
    → IsSound m' p
unfolding join
join-IsSound m m' p v w e = ground arith

pub reached-IsSound : {m : Mupen} {p : Phase} → Reaches m p → IsSound m p
reached-IsSound made = refl
reached-IsSound (loaded m m' p answer r w e) = load_rom-IsSound m m' p answer (reached-IsSound r) e
reached-IsSound (unloaded m m' p r w e) = unload_rom-IsSound m m' p (reached-IsSound r) e
reached-IsSound (started m m' p r w e) = start-IsSound m m' p (reached-IsSound r) e
reached-IsSound (entered m m' p r t e) = enter-IsSound m m' p (reached-IsSound r) t e
reached-IsSound (runs m m' r t e) = runs-IsSound m m' (reached-IsSound r) t e
reached-IsSound (resumes m m' r t e) = resumes-IsSound m m' (reached-IsSound r) t e
reached-IsSound (pauses m m' r t e) = pauses-IsSound m m' (reached-IsSound r) t e
reached-IsSound (stops m m' r t e) = stops-IsSound m m' (reached-IsSound r) t e
reached-IsSound (finishes m m' r t e) =
    finish-IsSound m m' ended none (reached-IsSound r) (λ q. cc) t e
reached-IsSound (fails m m' p x r np t e) =
    finish-IsSound m m' p (some x) (reached-IsSound r) np t e
reached-IsSound (asked_to_stop m m' p r w e) = stop-IsSound m m' p (reached-IsSound r) w e
reached-IsSound (stop_returned m m' p r w e) = stop_waits-IsSound m m' p (reached-IsSound r) w e
reached-IsSound (joined m m' p r w e) = join-IsSound m m' p (reached-IsSound r) w e
