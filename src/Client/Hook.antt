-- ===== src/Client/Hook.antt =====
-- Finding the game, and what a tick does before and after.
use mathlib.Core.Path.{subst}
use net64_coop.MsgQueue.{drain}
use net64_coop.Prelude.{
  sym, ap, ◌∙◌, not, Bool, ℕ, suc, ◌+◌, ◌≤◌, ◌≡◌, ◌≢◌, refl, true, false, Option, none, some, List,
  [], ◌∷◌, ◌++◌, arith, ◌==◌, if◌then◌else◌,
}
use net64_coop.Emulator.Error.{Result, ok, throws, undefined, ◌>>=◌}
use net64_coop.Emulator.Memory.{Machine}
use net64_coop.MemHandle.{read, u32}
use net64_coop.MsgQueue.{Message, SharedState, RawAccess}
use net64_coop.Net.{Text, NetMessage}
use net64_coop.Client.{Client, PeerState, hooked_called}
use net64_coop.Client.Ticking.{
  Game, try_hook, hooked, check_version, log_version, make_sender, make_receiver, Outcome,
  read_header, find_game, drained, client_compat_ver, magic_number, magic_number_addr,
  header_ptr_addr, on_game_messages, World, poll_game, tick,
}
use net64_coop.Client.Invariant.{IsSound}
use net64_coop.Client.{emit, incompatible_game, ClientError, Effect}
use net64_coop.MsgQueue.{poll}
use net64_coop.MsgQueue.Valid.{IsValid}
use net64_coop.MsgQueue.Drain.{in_use, drain-Ends, last_answer}
use net64_coop.Prelude.{length, count}
use net64_coop.MsgQueue.{slot_in_use}

-- What the callback is told, if everything before it can be read.
abbrev pub verdict : Result ℕ → Result ℕ → Result (Option ClientError)
verdict compat version = compat >>= λ v.
    if v == client_compat_ver then (version >>= λ u. ok none) else ok (some incompatible_game)

-- All that is read through the pointer to the header, in order.
abbrev pub header_says : Game → Machine → ℕ → Result (Option ClientError)
header_says game m header = game.receive_queue m header >>= λ r.
    game.send_queue m header >>= λ s. verdict (game.compat_version m header) (game.version m header)

-- The client has stopped looking for the game and has the header. If everything was read, it has both
-- queues, and the callback was called once, with the verdict; a failed read left `try_hook`, and the
-- callback was not called.
abbrev pub Reported : ℕ → List Effect → Result (Option ClientError) → Outcome → Type 0
Reported header es says (result, c) =
    (c.hooking ≡ false) × (c.header ≡ some header) × elim says as (λ r. Type 0) [
      | ok told ↦
          (result ≡ ok tt)
          × (c.effects ≡ es ++ (hooked_called told ∷ []))
          × (c.rcv_queue ≡ true)
          × (c.snd_queue ≡ true)
      | throws e ↦ (result ≡ throws e) × (c.effects ≡ es)
      | undefined ↦ (result ≡ undefined) × (c.effects ≡ es)
    ]

module _ (header : ℕ) (c : Client) (off : c.hooking ≡ false) (at : c.header ≡ some header) where
  decided :
      (same : Bool) (version : Result ℕ)
      → c.rcv_queue ≡ true
      → c.snd_queue ≡ true
      → Reported header c.effects
          (if same then (version >>= λ u. ok none) else ok (some incompatible_game))
          (if not same
            then (ok tt, emit c (hooked_called (some incompatible_game)))
            else log_version c version)
  unfolding log_version
  decided true (ok version) r s = (off, at, (refl, refl, r, s))
  decided true (throws e) r s = (off, at, (refl, refl))
  decided true undefined r s = (off, at, (refl, refl))
  decided false version r s = (off, at, (refl, refl, r, s))

  check_version-Reported :
      (compat version : Result ℕ)
      → c.rcv_queue ≡ true
      → c.snd_queue ≡ true
      → Reported header c.effects (verdict compat version) (check_version c compat version)
  unfolding check_version
  check_version-Reported (ok compat) version r s = decided (compat == client_compat_ver) version r s
  check_version-Reported (throws e) version r s = (off, at, (refl, refl))
  check_version-Reported undefined version r s = (off, at, (refl, refl))

module _ (game : Game) (m : Machine) where
  make_sender-Reported :
      (header : ℕ) (c : Client) (queue : Result ℕ)
      → c.hooking ≡ false
      → c.header ≡ some header
      → c.rcv_queue ≡ true
      → Reported header c.effects
          (queue >>= λ s. verdict (game.compat_version m header) (game.version m header))
          (make_sender game m header c queue)
  unfolding make_sender
  make_sender-Reported header c (ok queue) off at r =
      check_version-Reported header (record c { snd_queue = true }) off at
        (game.compat_version m header) (game.version m header) r refl
  make_sender-Reported header c (throws e) off at r = (off, at, (refl, refl))
  make_sender-Reported header c undefined off at r = (off, at, (refl, refl))

  make_receiver-Reported :
      (header : ℕ) (c : Client) (queue : Result ℕ)
      → c.hooking ≡ false
      → c.header ≡ some header
      → Reported header c.effects
          (queue >>= λ r. game.send_queue m header >>= λ s.
            verdict (game.compat_version m header) (game.version m header))
          (make_receiver game m header c queue)
  unfolding make_receiver
  make_receiver-Reported header c (ok queue) off at =
      make_sender-Reported header (record c { rcv_queue = true }) (game.send_queue m header) off at
        refl
  make_receiver-Reported header c (throws e) off at = (off, at, (refl, refl))
  make_receiver-Reported header c undefined off at = (off, at, (refl, refl))

  header_found :
      (c : Client) (header : ℕ)
      → c.mem_hdl ≡ true
      → read u32 m magic_number_addr ≡ ok magic_number
      → read u32 m header_ptr_addr ≡ ok header
      → try_hook game m c
        ≡ make_receiver game m header
            (record c { hooking = false; header = some header })
            (game.receive_queue m header)
  unfolding try_hook find_game read_header
  header_found c header handle magic pointer =
      simp (try_hook, handle, find_game, magic, pointer, read_header) refl

  -- Once the magic number and the pointer to the header are there, the client no longer looks for the
  -- game and has the header. The positions of both queues, the compatibility version and, if that is the
  -- client's own, the version are read: if all of these reads succeed, the client has both queues and the
  -- callback was called once, with an error exactly if the compatibility version is another; otherwise
  -- the first read that fails leaves `try_hook`, and the callback is not called.
  pub try_hook_reports :
      (c : Client) (header : ℕ)
      → c.mem_hdl ≡ true
      → read u32 m magic_number_addr ≡ ok magic_number
      → read u32 m header_ptr_addr ≡ ok header
      → Reported header c.effects (header_says game m header) (try_hook game m c)
  try_hook_reports c header handle magic pointer =
      subst (λ out. Reported header c.effects (header_says game m header) out)
        (sym (header_found c header handle magic pointer))
        (make_receiver-Reported header (record c { hooking = false; header = some header })
          (game.receive_queue m header) refl refl)

in_use-le : (ds : List ℕ) → count slot_in_use ds ≤ length ds
in_use-le [] = omega arith
in_use-le (d ∷ ds) = ground (arith, in_use-le ds)

-- How `tick` ends after the messages: as the last poll, unless a handler has failed before.
abbrev pub finished : Result (Unit {0}) → Result (Unit {0}) → Result (Unit {0})
finished (ok u) end = end
finished (throws e) end = throws e
finished undefined end = undefined

ends :
    (done end : Result (Unit {0}))
    → elim done as (λ x. Result (Unit {0})) [
      | ok u ↦ end
      | throws e ↦ throws e
      | undefined ↦ undefined
    ]
      ≡ finished done end
ends (ok u) end = refl
ends (throws e) end = refl
ends undefined end = refl

drained-run :
    (c : Client) (msgs : List Message) (end : Result (Unit {0})) (q q' : SharedState)
    → drained c (some (msgs, end, q')) q
      ≡ ((finished (on_game_messages c msgs).0 end, (on_game_messages c msgs).1), q')
unfolding drained
drained-run c msgs end q q' = rw (ends (on_game_messages c msgs).0 end) refl

module _ (game : Game) (raw : RawAccess) where
  polls :
      (c : Client) (q : SharedState)
      → hooked game c ≡ true
      → c.rcv_queue ≡ true
      → poll_game game raw c q ≡ drained c (drain raw (suc q.size) q) q
  unfolding poll_game
  polls c q there queue = simp (poll_game, there, queue) refl

  -- A client with a header and a valid queue, whatever the raw access to the emulator's memory does. Without
  -- a receiver the call is undefined. With one, messages are taken until a poll returns false or fails, as
  -- many as have left the queue, and are passed on in their order; the result is that of the first handler
  -- that fails, or else of that poll.
  pub poll_game_drains :
      (c : Client) (q : SharedState)
      → hooked game c ≡ true
      → IsValid q
      → (c.rcv_queue ≡ false → poll_game game raw c q ≡ ((undefined, c), q))
        × (c.rcv_queue ≡ true
            → (msgs : List Message) × (end : Result (Unit {0})) × (q' : SharedState) × (length msgs
                  + in_use q'
                ≡ in_use q)
              × (poll raw q' ≡ (last_answer end, q'))
              × (poll_game game raw c q
                  ≡ ((finished (on_game_messages c msgs).0 end, (on_game_messages c msgs).1), q')))
  unfolding poll_game
  poll_game_drains c q there valid =
      let e =
        drain-Ends raw (suc q.size) q valid
          (omega (arith, in_use-le q.descriptor_array, valid.descriptors)) in
      (
        λ gone. simp (poll_game, there, gone) refl,
        λ queue. (
          e.msgs,
          e.end,
          e.left,
          e.total,
          e.stop,
          polls c q there queue
              ∙ ap (λ run. drained c run q) e.run
              ∙ drained-run c e.msgs e.end q e.left,
        ),
      )

-- While the magic number is not there, a tick does nothing at all: no event is served and no timeout is
-- checked.
pub tick_waits :
    (game : Game) (raw : RawAccess) (asked : PeerState) (git_desc : Text)
    (parse : List ℕ → Option NetMessage) (c : Client) (w : World) (magic : ℕ)
    → c.hooking ≡ true
    → IsSound c
    → read u32 w.machine magic_number_addr ≡ ok magic
    → magic ≢ magic_number
    → tick game raw asked git_desc parse c w ≡ ((ok tt, c), w.queue)
unfolding tick try_hook find_game
tick_waits game raw asked git_desc parse c w magic looking v there other =
    let differs : (magic == magic_number) ≡ false = ground arith in
    let handle : c.mem_hdl ≡ true = v.handle looking in
    simp (tick, looking, try_hook, handle, there, find_game, differs) refl
