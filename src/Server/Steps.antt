-- ===== src/Server/Steps.antt =====
-- Every event keeps a sound server sound.
use net64_coop.Prelude.{
  find, erase, find-erase, ℕ, ◌≡◌, ◌≢◌, refl, ◌∙◌, inl, inr, none, some, Option, List, [], ◌∷◌,
  arith, ◌==◌, Option-cases, Bool-cases, not, leb,
}
use net64_coop.IdManager.{IdManager, detached, has_id, acquire_id}
use net64_coop.IdManager.Partition.{acquire_id-IsPartition}
use net64_coop.Net.{proto_ver, NetMessage, Text, c_handshake, c_chat_message}
use net64_coop.Server.{
  Player, Server, Event, connected, disconnected, received, out_of_range, max_peer_id, on_connect,
  accept_peer, on_disconnect, disconnect_found, player_left, on_chat_message, handle_message,
  on_net_message, on_event, tick,
}
use net64_coop.Server.Players.{keys, find-cons, find_absent, erase_absent}
use net64_coop.Server.Invariant.{IsSound, effects-IsSound, key_once}
use net64_coop.Server.PlayerChanges.{on_handshake-IsSound, destroy_player-IsSound}

module _ {s : Server} (v : IsSound s) where
  on_chat_message-IsSound : (x : Player) (message : Text) → IsSound (on_chat_message s x message)
  unfolding on_chat_message
  on_chat_message-IsSound x message = elim (Bool-cases (has_id x.id)) [
    | inl known ↦ rw known (effects-IsSound _ v)
    | inr unknown ↦ rw unknown v
  ]

  handle_message-IsSound :
      (k : ℕ) (msg : NetMessage) (o : Option Player)
      → find k s.players ≡ o
      → IsSound (handle_message s k msg o).0
  unfolding handle_message
  handle_message-IsSound k msg none e = v
  handle_message-IsSound k (c_handshake name version) (some x) e =
      on_handshake-IsSound v k x e name version
  handle_message-IsSound k (c_chat_message message) (some x) e = on_chat_message-IsSound x message
  handle_message-IsSound k msg (some x) e = v

  player_left-IsSound : (x : Player) (code : ℕ) → IsSound (player_left s x code)
  unfolding player_left
  player_left-IsSound x code = elim (Bool-cases (has_id x.id)) [
    | inl known ↦ rw known (effects-IsSound _ v)
    | inr unknown ↦ rw unknown v
  ]

  -- The players that were there are found behind a new one.
  find_older :
      (k q : ℕ) (x y : Player)
      → find k s.players ≡ none
      → find (s.peer_data q) s.players ≡ some y
      → find (s.peer_data q) ((k, x) ∷ erase k s.players) ≡ some y
  find_older k q x y nobody there = ground (
    arith,
    find-cons k (s.peer_data q) x (erase k s.players),
    find-erase k (s.peer_data q) s.players,
  )

  accept_peer-IsSound :
      (peer now : ℕ) (o : Option (ℕ × IdManager))
      → s.peer_data peer ≡ 0
      → acquire_id max_peer_id s.peer_ids ≡ o
      → IsSound (accept_peer s peer now o).0
  unfolding accept_peer
  accept_peer-IsSound peer now none z e = v
  accept_peer-IsSound peer now (some (k, m)) z e =
      let (pos, _, new, part) = acquire_id-IsPartition max_peer_id (keys s.players) v.peer_part e in
      let newcomer : Player = record {
        connect_time = now;
        id = detached;
        name = [];
        peer = peer;
      } in
      let nobody = find_absent k s.players new in
      let same = erase_absent k s.players new in
      record {
        peer_part = rw same part;
        player_part = rw (same, nobody) v.player_part;
        linked = λ q d. elim (Bool-cases (q == peer)) [
          | inl hit ↦ (
            newcomer,
            rw hit (ground (arith, find-cons k k newcomer (erase k s.players))),
            ground arith,
          )
          | inr miss ↦
              let (y, there, at) = v.linked q (rw miss at d) in
              (y, rw miss (find_older k q newcomer y nobody there), at)
        ];
        owned = λ j y there. ground (
          arith,
          find-cons k j newcomer (erase k s.players),
          find-erase k j s.players,
          v.owned j y,
          key_once v j y,
        );
      }

  pub on_connect-IsSound :
      (peer version connected_peers now : ℕ)
      → s.peer_data peer ≡ 0
      → IsSound (on_connect s peer version connected_peers now).0
  unfolding on_connect
  on_connect-IsSound peer version connected_peers now z = elim (Bool-cases (not s.accept_new)) [
    | inl closed ↦ rw closed (effects-IsSound _ v)
    | inr opened ↦ elim (Bool-cases (leb s.max_peers connected_peers)) [
      | inl full ↦ rw (opened, full) (effects-IsSound _ v)
      | inr room ↦ elim (Bool-cases (not (version == proto_ver))) [
        | inl old ↦ rw (opened, room, old) (effects-IsSound _ v)
        | inr same ↦ rw (opened, room, same) (accept_peer-IsSound peer now _ z refl)
      ]
    ]
  ]

  disconnect_found-IsSound :
      (peer code : ℕ) (o : Option Player)
      → s.peer_data peer ≢ 0
      → find (s.peer_data peer) s.players ≡ o
      → IsSound (disconnect_found s peer code o).0
  unfolding disconnect_found player_left
  disconnect_found-IsSound peer code none nz e = v
  disconnect_found-IsSound peer code (some x) nz e =
      let (y, there, at) = v.linked peer nz in
      let same : x.peer ≡ peer = ground arith in
      elim (Bool-cases (has_id x.id)) [
        | inl known ↦
            rw known
              (destroy_player-IsSound (effects-IsSound _ v) (s.peer_data peer) x e peer refl same)
        | inr unknown ↦ rw unknown (destroy_player-IsSound v (s.peer_data peer) x e peer refl same)
      ]

  pub on_disconnect-IsSound : (peer code : ℕ) → IsSound (on_disconnect s peer code).0
  unfolding on_disconnect
  on_disconnect-IsSound peer code = elim (Bool-cases (s.peer_data peer == 0)) [
    | inl null ↦ rw null v
    | inr some_key ↦ rw some_key (disconnect_found-IsSound peer code _ (λ z. ground arith) refl)
  ]

  on_net_message-IsSound :
      (parse : List ℕ → Option NetMessage) (peer : ℕ) (packet : List ℕ)
      → IsSound (on_net_message parse s peer packet)
  unfolding on_net_message
  on_net_message-IsSound parse peer packet = elim (Option-cases (parse packet)) [
    | inl bad ↦ rw (bad, on_net_message) v
    | inr (msg, good) ↦
        rw (good, on_net_message) (handle_message-IsSound (s.peer_data peer) msg _ refl)
  ]

-- ENet reports a connection only of a peer that is not connected, whose data is null.
abbrev pub Fits : Server → Event → Type 0
Fits s (connected peer version connected_peers now) = s.peer_data peer ≡ 0
Fits s (disconnected peer code) = Unit {0}
Fits s (received peer packet) = Unit {0}

module _ (parse : List ℕ → Option NetMessage) where
  pub on_event-IsSound :
      {s : Server} (event : Event) → IsSound s → Fits s event → IsSound (on_event parse s event).0
  unfolding on_event
  on_event-IsSound (connected peer version connected_peers now) v fits =
      on_connect-IsSound v peer version connected_peers now fits
  on_event-IsSound (disconnected peer code) v fits = on_disconnect-IsSound v peer code
  on_event-IsSound (received peer packet) v fits = on_net_message-IsSound v parse peer packet

  accept_peer-throws :
      (s : Server) (peer now : ℕ) (o : Option (ℕ × IdManager))
      → (accept_peer s peer now o).1 ≢ some out_of_range
  unfolding accept_peer
  accept_peer-throws s peer now none h = ground arith
  accept_peer-throws s peer now (some (k, m)) h = ground arith

  -- In a sound server every peer with data has its player, so no lookup fails outside a handler.
  on_event-throws :
      {s : Server} (event : Event) → IsSound s → (on_event parse s event).1 ≢ some out_of_range
  unfolding on_event on_connect on_disconnect disconnect_found
  on_event-throws {s} (connected peer version connected_peers now) v h =
      ground (arith, accept_peer-throws s peer now (acquire_id max_peer_id s.peer_ids))
  on_event-throws {s} (disconnected peer code) v h = ground (arith, v.linked peer)
  on_event-throws (received peer packet) v h = cc

  -- Each event fits the server that it meets, until one throws or the events end.
  abbrev pub AllFit : Server → List Event → Type 0
  AllFit s [] = Unit {0}
  AllFit s (event ∷ events) = Fits s event × AllFit (on_event parse s event).0 events

  -- `tick` keeps a server sound whatever the events are, so long as ENet reports connections only of
  -- peers that are not connected; and no exception of `players_.at` leaves it.
  pub tick-IsSound :
      (events : List Event) (s : Server)
      → IsSound s
      → AllFit s events
      → IsSound (tick parse s events).0 × ((tick parse s events).1 ≢ some out_of_range)
  unfolding tick
  tick-IsSound [] s v fits = (v, λ h. cc)
  tick-IsSound (event ∷ events) s v fits =
      let next = tick-IsSound events _ (on_event-IsSound event v fits.0) fits.1 in
      elim (Option-cases (on_event parse s event).1) [
        | inl calm ↦ rw (calm, tick) next
        | inr (e, thrown) ↦
            rw (thrown, tick)
              (on_event-IsSound event v fits.0, λ h. on_event-throws event v (thrown ∙ h))
      ]
