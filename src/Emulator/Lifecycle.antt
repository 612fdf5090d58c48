-- ===== src/Emulator/Lifecycle.antt =====
-- src/net64/emulator/m64plus.cpp: loading a ROM, and starting, stopping and joining the emulation,
-- with the mutex that the user's thread and the emulation thread share. A function is one stretch of a
-- thread between two points at which it may wait; `blocked` is a stretch that waits. The core is outside
-- the repository: the states that it reports and its result are inputs.
pub mod Invariant
pub mod Safety
pub mod Paused
mod Tests
use net64_coop.Prelude.{
  ℕ, Bool, true, false, not, ◌||◌, Option, none, some, List, [], ◌∷◌, ◌++◌, if◌then◌else◌,
}
use net64_coop.Emulator.Error.{Error}

pub data MupenState : Type 0 where
  stopped starting running paused stopping joinable : MupenState

-- `Emulator::State`
pub data State : Type 0 where
  state_stopped state_running state_paused state_joinable : State

-- The states that the core reports.
pub data CoreState : Type 0 where
  core_running core_paused core_stopped : CoreState

pub data Owner : Type 0 where
  nobody user emulation : Owner

-- The emulation thread: not there, before it has the mutex, in the core, and done, with what it threw.
pub data Thread : Type 0 where
  no_thread launched executing : Thread
  finished : Option Error → Thread

-- What the user's thread waits for.
pub data Waits : Type 0 where
  for_nothing for_start for_stop : Waits

pub record Mupen : Type 0 where
  pub state : MupenState
  pub rom_loaded : Bool
  pub mutex : Owner
  pub thread : Thread
  pub waits : Waits
  pub notified : List State

pub data Run : Type 0 where
  went : Mupen → Run
  blocked asserts undefined : Run
  throws : Error → Mupen → Run

abbrev pub make_mupen : Mupen
make_mupen = record {
  state = stopped;
  rom_loaded = false;
  mutex = nobody;
  thread = no_thread;
  waits = for_nothing;
  notified = [];
}

abbrev is_stopped : MupenState → Bool
is_stopped stopped = true
is_stopped _ = false

-- `mutex_.lock()` by one of the two threads: it waits for the other, and may not have it already.
abbrev lock_by_user : Mupen → Run → Run
lock_by_user m next = elim m.mutex [ nobody ↦ next | emulation ↦ blocked | user ↦ undefined ]

abbrev lock_by_emulation : Mupen → Run → Run
lock_by_emulation m next = elim m.mutex [ nobody ↦ next | emulation ↦ undefined | user ↦ blocked ]

abbrev notify : Mupen → State → Mupen
notify m s = record m { notified = m.notified ++ (s ∷ []) }

-- `load_rom` and `unload_rom`, the first with what the core answers; an error of the second is logged
unfoldable pub load_rom : Mupen → Option Error → Run
load_rom m answer = lock_by_user m (
    if m.rom_loaded
    then asserts
    else elim answer [ none ↦ went (record m { rom_loaded = true }) | some e ↦ throws e m ])

unfoldable pub unload_rom : Mupen → Run
unload_rom m = lock_by_user m (
    if not m.rom_loaded || not (is_stopped m.state)
    then asserts
    else went (record m { rom_loaded = false }))

-- `start` up to the point where it waits for the emulation thread to own the mutex
unfoldable pub start : Mupen → Run
start m =
    if not m.rom_loaded
    then asserts
    else lock_by_user m (
        if not (is_stopped m.state)
        then went m
        else went (record m { state = starting; thread = launched; waits = for_start }))

-- The emulation thread takes the mutex, which lets `start` return, and attaches the plugins.
unfoldable pub enter : Mupen → Run
enter m =
    lock_by_emulation m
      (went (record m { mutex = emulation; thread = executing; waits = for_nothing }))

-- `mutex_.unlock()` by the emulation thread
abbrev unlock : Mupen → Run → Run
unlock m next = elim m.mutex [ emulation ↦ next | nobody ↦ undefined | user ↦ undefined ]

-- the state callback
unfoldable pub on_core_state : Mupen → CoreState → Run
on_core_state m core_running = elim m.state [
  | starting ↦ unlock m (went (notify (record m { state = running; mutex = nobody }) state_running))
  | s ↦ went (notify m state_running)
]
on_core_state m core_paused =
    lock_by_emulation m (went (notify (record m { state = paused }) state_paused))
on_core_state m core_stopped =
    lock_by_emulation m (went (record m { state = joinable; mutex = emulation }))

-- the end of the emulation thread, after the core has returned
unfoldable pub finish : Mupen → Option Error → Run
finish m none = elim m.state [
  | joinable ↦
      unlock m (went (notify (record m { mutex = nobody; thread = finished none }) state_joinable))
  | s ↦ asserts
]
finish m (some e) =
    let done = record m { state = joinable; mutex = nobody; thread = finished (some e) } in
    unlock m (
      went
        (notify (elim m.state [ starting ↦ notify done state_running | s ↦ done ]) state_joinable))

-- `stop` up to the point where it waits for the emulation to be stopped
unfoldable pub stop : Mupen → Run
stop m = lock_by_user m (elim m.state [
  | stopped ↦ went m
  | stopping ↦ went m
  | joinable ↦ went m
  | starting ↦ asserts
  | running ↦ went (record m { state = stopping; waits = for_stop })
  | paused ↦ went (record m { state = stopping; waits = for_stop })
])

-- the loop at the end of `stop`
unfoldable pub stop_waits : Mupen → Run
stop_waits m = elim m.state [ joinable ↦ went (record m { waits = for_nothing }) | s ↦ blocked ]

-- `join`: the exit code, if the thread threw
unfoldable pub join : Mupen → Run × Option Error
join m = elim m.state [
  | stopped ↦ (went m, none)
  | joinable ↦ elim m.thread [
    | finished e ↦ (lock_by_user m (went (record m { state = stopped; thread = no_thread })), e)
    | t ↦ (blocked, none)
  ]
  | s ↦ (asserts, none)
]

-- `state`; `none` where its assertion fails
unfoldable pub state : Mupen → Option State
state m = elim m.state [
  | running ↦ some state_running
  | joinable ↦ some state_joinable
  | paused ↦ some state_paused
  | stopped ↦ some state_stopped
  | s ↦ none
]
