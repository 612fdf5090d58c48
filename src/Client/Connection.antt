-- ===== src/Client/Connection.antt =====
-- Every tick keeps the client's invariant, whatever ENet and the game do; and the ends of a connection.
use net64_coop.Prelude.{
  ℕ, suc, ◌-◌, ◌≡◌, refl, Bool, true, false, ◌&&◌, Option, none, some, List, [], ◌∷◌, arith, ◌==◌,
  if◌then◌else◌, ltb, inl, inr, Bool-cases,
}
use net64_coop.Emulator.Error.{Result, ok, throws, undefined}
use net64_coop.Emulator.Memory.{Machine}
use net64_coop.MemHandle.{read, u32}
use net64_coop.MsgQueue.{Message, SharedState, RawAccess, drain}
use net64_coop.Net.{Text, NetMessage}
use net64_coop.Client.{Client, PeerState, Effect, emit, connecting, disconnecting}
use net64_coop.Client.Handlers.{on_connect, on_disconnect}
use net64_coop.Client.GameLogger.{push_message, logger_subscriptions}
use net64_coop.Client.Ticking.{
  Game, Outcome, try_hook, hooked, Event, established, lost, received, check_timeouts,
  connect_times_out, disconnect_times_out, check_version, log_version, make_sender, make_receiver,
  read_header, find_game, log_result, drained, client_compat_ver, magic_number, magic_number_addr,
  header_ptr_addr, on_established, on_lost, serve, service, on_game_message, on_game_messages,
  World, poll_game, tick,
}
use net64_coop.Client.Invariant.{
  IsSound, is_some, emit-IsSound, ended, disconnect-IsSound, kept, send-IsSound,
  on_net_message-IsSound,
}

established_peer :
    {c : Client} (state : PeerState)
    → IsSound c
    → IsSound (record c { peer = elim c.peer [ none ↦ none | some old ↦ some state ] })
established_peer {c} state v = record {
  handle = v.handle;
  pointed = v.pointed;
  sender = v.sender;
  receiver = v.receiver;
  hosted = λ h. v.hosted (λ e. h (rw e refl));
  callbacks = λ h. v.callbacks (λ e. h (rw e refl));
}

called-IsSound :
    {c : Client} (b : Bool) (e : Effect) → IsSound c → IsSound (if b then emit c e else c)
called-IsSound true e v = emit-IsSound e v
called-IsSound false e v = v

on_established-IsSound :
    {c : Client} (git_desc : Text) (state : PeerState)
    → IsSound c
    → IsSound (on_established git_desc c state)
unfolding on_established on_connect
on_established-IsSound {c} git_desc state v =
    send-IsSound _ (called-IsSound c.connect_callback _ (established_peer state v))

on_lost-IsSound : {c : Client} → IsSound c → IsSound (on_lost c)
unfolding on_lost on_disconnect
on_lost-IsSound {c} v = record {
  handle = ground (arith, v.handle);
  pointed = ground (arith, v.pointed);
  sender = ground (arith, v.sender);
  receiver = ground (arith, v.receiver);
  hosted = λ h. absurd (h refl);
  callbacks = λ h. absurd (h refl);
}

serve-IsSound :
    (git_desc : Text) (parse : List ℕ → Option NetMessage) (events : List Event) {c : Client}
    → IsSound c
    → IsSound (serve git_desc parse c events).1
unfolding serve
serve-IsSound git_desc parse [] v = v
serve-IsSound git_desc parse (established state ∷ events) v =
    serve-IsSound git_desc parse events (on_established-IsSound git_desc state v)
serve-IsSound git_desc parse (lost ∷ events) v = on_lost-IsSound v
serve-IsSound git_desc parse (received packet ∷ events) v =
    serve-IsSound git_desc parse events (on_net_message-IsSound parse packet v)

on_disconnect-IsSound : {c : Client} → IsSound c → IsSound (on_disconnect c)
unfolding on_disconnect
on_disconnect-IsSound v = kept _ _ _ _ _ _ v

connect_times_out-IsSound :
    {c : Client} (asked : PeerState) (now : ℕ) → IsSound c → IsSound (connect_times_out asked c now)
unfolding connect_times_out
connect_times_out-IsSound {c} asked now v =
    elim (Bool-cases (connecting c && ltb c.connect_timeout (now - c.connection_start_time))) [
      | inl late ↦ rw late (disconnect-IsSound asked 0 now v)
      | inr early ↦ rw early v
    ]

disconnect_times_out-IsSound :
    {c : Client} (now : ℕ) → IsSound c → IsSound (disconnect_times_out c now)
unfolding disconnect_times_out
disconnect_times_out-IsSound {c} now v =
    elim (Bool-cases
      (disconnecting c && ltb c.disconnect_timeout (now - c.disconnection_start_time))) [
        | inl late ↦
            rw late (emit-IsSound _ (emit-IsSound _ (ended (on_disconnect-IsSound v) false)))
        | inr early ↦ rw early v
      ]

check_timeouts-IsSound :
    {c : Client} (asked : PeerState) (now : ℕ) → IsSound c → IsSound (check_timeouts asked c now)
unfolding check_timeouts
check_timeouts-IsSound asked now v =
    disconnect_times_out-IsSound now (connect_times_out-IsSound asked now v)

log_version-IsSound : {c : Client} (o : Result ℕ) → IsSound c → IsSound (log_version c o).1
unfolding log_version
log_version-IsSound (ok version) v = emit-IsSound _ v
log_version-IsSound (throws e) v = v
log_version-IsSound undefined v = v

check_version-IsSound :
    {c : Client} (o version : Result ℕ) → IsSound c → IsSound (check_version c o version).1
unfolding check_version
check_version-IsSound (ok compat) version v = elim (Bool-cases (compat == client_compat_ver)) [
  | inl same ↦ rw same (log_version-IsSound version v)
  | inr other ↦ rw other (emit-IsSound _ v)
]
check_version-IsSound (throws e) version v = v
check_version-IsSound undefined version v = v

module _ (game : Game) (m : Machine) where
  make_sender-IsSound :
      {c : Client} (header : ℕ) (o : Result ℕ)
      → c.rcv_queue ≡ true
      → IsSound c
      → IsSound (make_sender game m header c o).1
  unfolding make_sender
  make_sender-IsSound header (ok queue) there v =
      check_version-IsSound (game.compat_version m header) (game.version m header) (record {
        handle = v.handle;
        pointed = v.pointed;
        sender = λ h. there;
        receiver = v.receiver;
        hosted = v.hosted;
        callbacks = v.callbacks;
      })
  make_sender-IsSound header (throws e) there v = v
  make_sender-IsSound header undefined there v = v

  make_receiver-IsSound :
      {c : Client} (header : ℕ) (o : Result ℕ)
      → is_some c.header ≡ true
      → IsSound c
      → IsSound (make_receiver game m header c o).1
  unfolding make_receiver
  make_receiver-IsSound header (ok queue) there v =
      make_sender-IsSound header (game.send_queue m header) refl (record {
        handle = v.handle;
        pointed = v.pointed;
        sender = λ h. refl;
        receiver = λ h. there;
        hosted = v.hosted;
        callbacks = v.callbacks;
      })
  make_receiver-IsSound header (throws e) there v = v
  make_receiver-IsSound header undefined there v = v

  read_header-IsSound :
      {c : Client} (o : Result ℕ)
      → c.mem_hdl ≡ true
      → IsSound c
      → IsSound (read_header game m c o).1
  unfolding read_header
  read_header-IsSound (ok header) handle v =
      make_receiver-IsSound header (game.receive_queue m header) refl (record {
        handle = v.handle;
        pointed = λ h. handle;
        sender = v.sender;
        receiver = λ h. refl;
        hosted = v.hosted;
        callbacks = v.callbacks;
      })
  read_header-IsSound (throws e) handle v = v
  read_header-IsSound undefined handle v = v

  find_game-IsSound :
      {c : Client} (o : Result ℕ) → c.mem_hdl ≡ true → IsSound c → IsSound (find_game game m c o).1
  unfolding find_game
  find_game-IsSound (ok magic) handle v = elim (Bool-cases (magic == magic_number)) [
    | inl there ↦ rw there (
        read_header-IsSound (read u32 m header_ptr_addr) handle (record {
          handle = λ h. ground arith;
          pointed = v.pointed;
          sender = v.sender;
          receiver = v.receiver;
          hosted = v.hosted;
          callbacks = v.callbacks;
        }))
    | inr absent ↦ rw absent v
  ]
  find_game-IsSound (throws e) handle v = v
  find_game-IsSound undefined handle v = v

  looked-IsSound :
      {c : Client} (b : Bool)
      → c.mem_hdl ≡ b
      → IsSound c
      → IsSound
          (if◌then◌else◌ {A = Outcome} b
            (find_game game m c (read u32 m magic_number_addr))
            (undefined, c)).1
  looked-IsSound true handle v = find_game-IsSound (read u32 m magic_number_addr) handle v
  looked-IsSound false without v = v

  try_hook-IsSound : {c : Client} → IsSound c → IsSound (try_hook game m c).1
  unfolding try_hook
  try_hook-IsSound {c} v = looked-IsSound c.mem_hdl refl v

log_result-IsSound :
    {c : Client} (o : Result (Text × Option Text)) → IsSound c → IsSound (log_result c o).1
unfolding log_result
log_result-IsSound (ok (text_buf, none)) v = kept _ _ _ _ _ _ v
log_result-IsSound (ok (text_buf, some line)) v = emit-IsSound _ (kept _ _ _ _ _ _ v)
log_result-IsSound (throws e) v = v
log_result-IsSound undefined v = v

on_game_messages-IsSound :
    (msgs : List Message) {c : Client} → IsSound c → IsSound (on_game_messages c msgs).1
unfolding on_game_messages on_game_message
on_game_messages-IsSound [] v = v
on_game_messages-IsSound (msg ∷ msgs) {c} v =
    let next : Client = (on_game_message c msg).1 in
    let w : IsSound next =
      log_result-IsSound (push_message logger_subscriptions c.text_buf msg) v in
    elim (on_game_message c msg).0
      as (λ done.
        IsSound
          (elim done as (λ x. Outcome) [
            | ok u ↦ on_game_messages next msgs
            | throws e ↦ (throws e, next)
            | undefined ↦ (undefined, next)
          ]).1) [ ok u ↦ on_game_messages-IsSound msgs w | throws e ↦ w | undefined ↦ w ]

drained-IsSound :
    {c : Client} (o : Option (List Message × Result (Unit {0}) × SharedState)) (q : SharedState)
    → IsSound c
    → IsSound (drained c o q).0.1
unfolding drained
drained-IsSound none q v = v
drained-IsSound (some (msgs, end, q')) q v = on_game_messages-IsSound msgs v

either-IsSound :
    (b : Bool) (x y : Outcome × SharedState)
    → IsSound x.0.1
    → IsSound y.0.1
    → IsSound (if b then x else y).0.1
either-IsSound true x y v w = v
either-IsSound false x y v w = w

module _ (game : Game) (raw : RawAccess) where
  poll_game-IsSound :
      {c : Client} (q : SharedState) → IsSound c → IsSound (poll_game game raw c q).0.1
  unfolding poll_game
  poll_game-IsSound {c} q v =
      either-IsSound (hooked game c) _ _
        (either-IsSound c.rcv_queue _ _ (drained-IsSound (drain raw (suc q.size) q) q v) v) v

  module _ (asked : PeerState) (git_desc : Text) (parse : List ℕ → Option NetMessage) where
    service-IsSound :
        {c : Client} (events : List Event) → IsSound c → IsSound (service git_desc parse c events).1
    unfolding service
    service-IsSound {c} events v = elim (Bool-cases c.host) [
      | inl there ↦ simp there (serve-IsSound git_desc parse events v)
      | inr away ↦ simp away v
    ]

    -- A tick keeps a client sound whatever the memory, the queue in it, the events of ENet and the time
    -- are, also when an exception leaves it.
    pub client_tick-IsSound :
        {c : Client} (w : World) → IsSound c → IsSound (tick game raw asked git_desc parse c w).0.1
    unfolding tick
    client_tick-IsSound {c} w v =
        let served = service-IsSound w.events (check_timeouts-IsSound asked w.now v) in
        either-IsSound c.hooking _ _ (try_hook-IsSound game w.machine v) (
          either-IsSound (service git_desc parse (check_timeouts asked c w.now) w.events).0 _ _
            served (poll_game-IsSound w.queue served))
