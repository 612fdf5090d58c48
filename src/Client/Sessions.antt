-- ===== src/Client/Sessions.antt =====
-- What the user of a client sees: the timeouts, the ends of a connection, and the polling of the game.
use net64_coop.Prelude.{
  ℕ, ◌-◌, ◌≤◌, ◌≡◌, refl, Bool, true, false, Option, none, some, List, [], ◌∷◌, ◌++◌, arith, ltb,
  inl, inr, ◌⊎◌, Bool-cases,
}
use net64_coop.MsgQueue.{RawAccess}
use net64_coop.Net.{Text, NetMessage, timed_out}
use net64_coop.Client.{
  Client, PeerState, peer_connecting, connect_called, disconnect_called, resets_peer, connecting,
  is_disconnected, disconnecting, disconnect, connect, Answers, hook, unhook, set_chat_callback,
  send_chat_message, make_client, no_player, abort_connecting,
}
use net64_coop.Client.Handlers.{on_disconnect, on_net_message}
use net64_coop.Client.Ticking.{
  Game, Event, established, lost, received, check_timeouts, connect_times_out, disconnect_times_out,
  on_established, on_lost, serve, World, tick,
}
use net64_coop.Client.Invariant.{
  IsSound, make_client-IsSound, hook-IsSound, disconnect-IsSound, unhook-IsSound, connect-IsSound,
  calls-IsSound,
}
use net64_coop.Client.Connection.{client_tick-IsSound}

-- Everything that a client can come to by the calls of its user and by ticks in whatever worlds.
pub data Reaches (game : Game) (raw : RawAccess) (asked : PeerState) (git_desc : Text)
    (parse : List ℕ → Option NetMessage) : Client → Type 0 where
  made : Reaches game raw asked git_desc parse make_client
  hooking :
      (c : Client)
      → Reaches game raw asked git_desc parse c
      → Reaches game raw asked git_desc parse (hook c)
  unhooked :
      (c : Client) (now : ℕ)
      → Reaches game raw asked git_desc parse c
      → Reaches game raw asked git_desc parse (unhook asked c now)
  connected_to :
      (c c' : Client) (answers : Answers) (username : Text) (timeout now : ℕ)
      → Reaches game raw asked git_desc parse c
      → connect c answers username timeout now ≡ some c'
      → Reaches game raw asked git_desc parse c'
  disconnected :
      (c : Client) (timeout now : ℕ)
      → Reaches game raw asked git_desc parse c
      → Reaches game raw asked git_desc parse (disconnect asked c timeout now)
  chatted :
      (c : Client) (message : Text)
      → Reaches game raw asked git_desc parse c
      → Reaches game raw asked git_desc parse (send_chat_message c message)
  listening :
      (c : Client) (given : Bool)
      → Reaches game raw asked git_desc parse c
      → Reaches game raw asked git_desc parse (set_chat_callback c given)
  ticked :
      (c : Client) (w : World)
      → Reaches game raw asked git_desc parse c
      → Reaches game raw asked git_desc parse (tick game raw asked git_desc parse c w).0.1

-- However a client is used, also when the reads of the game's header throw at whatever point: one that
-- looks for the game or has a header has a memory handle, one that has a sender has a receiver, one that
-- has a receiver has a header, and one that has a peer has a host and the callbacks of `connect`. A header
-- without a receiver is not excluded.
pub Reaches-IsSound :
    {game : Game} {raw : RawAccess} {asked : PeerState} {git_desc : Text}
    {parse : List ℕ → Option NetMessage} {c : Client}
    → Reaches game raw asked git_desc parse c
    → IsSound c
Reaches-IsSound made = make_client-IsSound
Reaches-IsSound (hooking c r) = hook-IsSound (Reaches-IsSound r)
Reaches-IsSound (unhooked c now r) = unhook-IsSound _ now (Reaches-IsSound r)
Reaches-IsSound (connected_to c c' answers username timeout now r e) =
    connect-IsSound answers username timeout now (Reaches-IsSound r) e
Reaches-IsSound (disconnected c timeout now r) =
    disconnect-IsSound _ timeout now (Reaches-IsSound r)
Reaches-IsSound (chatted c message r) = (calls-IsSound true message (Reaches-IsSound r)).1
Reaches-IsSound (listening c given r) = (calls-IsSound given [] (Reaches-IsSound r)).0
Reaches-IsSound (ticked c w r) = client_tick-IsSound _ _ _ _ _ w (Reaches-IsSound r)

abort_lem :
    (asked : PeerState) (c : Client) (timeout now : ℕ)
    → connecting c ≡ true
    → disconnect asked c timeout now ≡ abort_connecting c
unfolding disconnect
abort_lem asked c timeout now trying = simp (trying, disconnect) refl

connect_in_time :
    (asked : PeerState) (c : Client) (now : ℕ)
    → ((connect_times_out asked c now).peer ≡ none)
      ⊎ ((connect_times_out asked c now ≡ c)
          × (connecting c ≡ true → now - c.connection_start_time ≤ c.connect_timeout))
unfolding connect_times_out abort_connecting
connect_in_time asked c now = elim (Bool-cases (connecting c)) [
  | inl trying ↦ elim (Bool-cases (ltb c.connect_timeout (now - c.connection_start_time))) [
    | inl late ↦ inl (simp (connect_times_out, trying, late, abort_lem asked c 0 now trying) refl)
    | inr early ↦ inr (simp (connect_times_out, trying, early) refl, λ h. ground arith)
  ]
  | inr settled ↦ inr (simp (connect_times_out, settled) refl, λ h. ground arith)
]

disconnect_in_time :
    (c : Client) (now : ℕ)
    → ((disconnect_times_out c now).peer ≡ none)
      ⊎ ((disconnect_times_out c now ≡ c)
          × (disconnecting c ≡ true → now - c.disconnection_start_time ≤ c.disconnect_timeout))
unfolding disconnect_times_out
disconnect_in_time c now = elim (Bool-cases (disconnecting c)) [
  | inl leaving ↦ elim (Bool-cases (ltb c.disconnect_timeout (now - c.disconnection_start_time))) [
    | inl late ↦ inl (simp (disconnect_times_out, leaving, late) refl)
    | inr early ↦ inr (simp (disconnect_times_out, leaving, early) refl, λ h. ground arith)
  ]
  | inr settled ↦ inr (simp (disconnect_times_out, settled) refl, λ h. ground arith)
]

abbrev pub ConnectsInTime : ℕ → Client → Type 0
ConnectsInTime now c = connecting c ≡ true → now - c.connection_start_time ≤ c.connect_timeout

abbrev pub DisconnectsInTime : ℕ → Client → Type 0
DisconnectsInTime now c =
    disconnecting c ≡ true → now - c.disconnection_start_time ≤ c.disconnect_timeout

in_time :
    (now : ℕ) (c c1 c2 : Client)
    → (c1.peer ≡ none) ⊎ ((c1 ≡ c) × ConnectsInTime now c)
    → (c2.peer ≡ none) ⊎ ((c2 ≡ c1) × DisconnectsInTime now c1)
    → ConnectsInTime now c2 × DisconnectsInTime now c2
in_time now c c1 c2 o (inl gone) = (λ h. ground arith, λ h. ground arith)
in_time now c c1 c2 (inl gone) (inr (same, leaves)) = (λ h. ground arith, λ h. ground arith)
in_time now c c1 c2 (inr (same1, connects)) (inr (same, leaves)) =
    (rw (same, same1) connects, rw same leaves)

-- After the two checks with which a tick starts unless the client looks for the game, no attempt to
-- connect is older than its timeout, and no attempt to disconnect either. A tick of a client that looks
-- for the game has no such checks.
pub no_late_peer :
    (asked : PeerState) (c : Client) (now : ℕ)
    → ConnectsInTime now (check_timeouts asked c now)
      × DisconnectsInTime now (check_timeouts asked c now)
unfolding check_timeouts
no_late_peer asked c now =
    in_time now c (connect_times_out asked c now) _ (connect_in_time asked c now)
      (disconnect_in_time (connect_times_out asked c now) now)

-- A user who disconnects before the server answers: there is no peer and no host, the peer is reset,
-- and both callbacks are called, the first with the error of a timeout.
pub abort_calls_back :
    (c c' : Client) (asked : PeerState) (answers : Answers) (username : Text)
    (timeout now wait later : ℕ)
    → answers.host_made ≡ true
    → answers.resolved ≡ true
    → answers.peer_made ≡ true
    → answers.new_peer ≡ peer_connecting
    → connect c answers username timeout now ≡ some c'
    → let c'' = disconnect asked c' wait later in
      (is_disconnected c'' ≡ true)
      × (c''.host ≡ false)
      × (c''.effects
          ≡ ((c.effects ++ (resets_peer ∷ [])) ++ (connect_called (some timed_out) ∷ []))
            ++ (disconnect_called ∷ []))
unfolding connect abort_connecting
abort_calls_back c c' asked answers username timeout now wait later hm rs pm st e =
    let peer : c'.peer ≡ some peer_connecting = ground arith in
    let before : c'.effects ≡ c.effects = ground arith in
    rw (abort_lem asked c' wait later (rw peer refl)) (refl, refl, rw before refl)

-- Whatever came before it, the loss of the connection leaves a client without peer, host, user name
-- and id, and it is the only event that ends the loop.
pub serve_lost :
    (git_desc : Text) (parse : List ℕ → Option NetMessage) (events : List Event) (c : Client)
    → (serve git_desc parse c events).0 ≡ true
    → let c' = (serve git_desc parse c events).1 in
      (is_disconnected c' ≡ true) × (c'.host ≡ false) × (c'.username ≡ []) × (c'.player ≡ no_player)
unfolding serve on_lost on_disconnect
serve_lost git_desc parse [] c e = ground arith
serve_lost git_desc parse (established state ∷ events) c e =
    serve_lost git_desc parse events (on_established git_desc c state) e
serve_lost git_desc parse (lost ∷ events) c e = (refl, refl, refl, refl)
serve_lost git_desc parse (received packet ∷ events) c e =
    serve_lost git_desc parse events (on_net_message parse c packet) e
