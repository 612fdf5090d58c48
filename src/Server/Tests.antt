-- ===== src/Server/Tests.antt =====
-- A small run of the server, and the theorems at it.
use net64_coop.Prelude.{
  find, erase, ℕ, ◌≤◌, ◌<◌, ◌≡◌, ◌≢◌, refl, ◌⊎◌, none, some, Option, List, [], ◌∷◌, ◌++◌, arith,
  ◌==◌, if◌then◌else◌, count, true,
}
use net64_coop.IdManager.{
  IdManager, IdHandle, detached, has_id, assign_new, acquire_id, make_handle,
}
use net64_coop.Net.{
  NetMessage, ServerDisconnectCode, s_handshake, s_player_list, s_client_disconnected,
  s_client_connected, c_handshake, c_chat_message,
}
use net64_coop.Server.{
  Player, Server, max_player_id, max_peer_id, sends, broadcasts, disconnects, replace, on_handshake,
  tick, on_disconnect, on_connect, on_net_message,
}
use net64_coop.Server.Players.{ids, keys}
use net64_coop.IdManager.Partition.{IsPartition}
use net64_coop.Server.Invariant.{IsSound}
use net64_coop.Server.{make_server, out_of_range, received, connected, on_event}
use net64_coop.Server.Invariant.{make_server-IsSound}
use net64_coop.Server.Steps.{tick-IsSound, on_event-IsSound}
use net64_coop.Server.Replies.{start, ticked, Reaches-ids_unique, handshake_answered, listing}
use net64_coop.Server.Connections.{
  refusal, connect_decides, disconnect_cleans, connect_then_disconnect,
}
use net64_coop.Server.Speech.{speaks_for_itself, IsOwnChange}

-- Packets of one byte: a handshake or a chat message, with fixed texts.
abbrev parse : List ℕ → Option NetMessage
parse [] = none
parse (b ∷ bytes) =
    if b == 1
    then some (c_handshake (65 ∷ []) (49 ∷ []))
    else if b == 2
    then some (c_chat_message (72 ∷ 105 ∷ []))
    else none

-- One player connects at peer 7 and then says who it is.
abbrev empty : Server
empty = make_server 4

abbrev one : Server
one = (on_connect empty 7 0 1 5).0

abbrev known : Server
known = on_net_message parse one 7 (1 ∷ [])

one-IsSound : IsSound one
unfolding on_connect on_event
one-IsSound = on_event-IsSound parse (connected 7 0 1 5) (make_server-IsSound 4) refl

known-IsSound : IsSound known
unfolding on_event
known-IsSound = on_event-IsSound parse (received 7 (1 ∷ [])) one-IsSound tt

known_effects :
    known.effects
    ≡ sends 7 (s_handshake 1)
      ∷ sends 7 (s_player_list (record { id = 1; name = 65 ∷ [] } ∷ []))
      ∷ broadcasts (s_client_connected 1 (65 ∷ []))
      ∷ []
unfolding on_connect on_net_message find acquire_id assign_new make_handle replace erase
known_effects = refl

abbrev unnamed : Player
unnamed = record { connect_time = 5; id = detached; name = []; peer = 7 }

abbrev alice : Player
alice = record {
  connect_time = 5;
  id = record { attached = true; id = 1 };
  name = 65 ∷ [];
  peer = 7;
}

tick-IsSound_example :
    IsSound (tick parse empty (connected 7 0 1 5 ∷ received 7 (1 ∷ []) ∷ [])).0
    × ((tick parse empty (connected 7 0 1 5 ∷ received 7 (1 ∷ []) ∷ [])).1 ≢ some out_of_range)
tick-IsSound_example =
    tick-IsSound parse (connected 7 0 1 5 ∷ received 7 (1 ∷ []) ∷ []) empty (make_server-IsSound 4)
      (refl, (tt, tt))

Reaches-ids_unique_example : known.peer_data 7 ≡ 1
unfolding on_connect on_net_message find acquire_id assign_new make_handle replace erase tick
    on_event
Reaches-ids_unique_example =
    Reaches-ids_unique parse known
      (ticked empty (connected 7 0 1 5 ∷ received 7 (1 ∷ []) ∷ []) (start 4) (refl, (tt, tt)))
      (known.peer_data 7) 1 alice alice refl refl refl refl refl

handshake_answered_example :
    ((h : IdHandle) × (find 1 (on_handshake one 1 unnamed (65 ∷ []) (49 ∷ [])).0.players
        ≡ some (record unnamed { name = 65 ∷ []; id = h }))
      × (has_id h ≡ true)
      × (count h.id (ids one.players) ≡ 0)
      × ((on_handshake one 1 unnamed (65 ∷ []) (49 ∷ [])).1 ≡ none)
      × ((on_handshake one 1 unnamed (65 ∷ []) (49 ∷ [])).0.effects
          ≡ one.effects
            ++ (sends 7 (s_handshake h.id)
                ∷ sends 7 (
                    s_player_list
                      (listing (on_handshake one 1 unnamed (65 ∷ []) (49 ∷ [])).0.players))
                ∷ broadcasts (s_client_connected h.id (65 ∷ []))
                ∷ [])))
    ⊎ ((i : ℕ) → 0 < i → i ≤ max_player_id → count i (ids one.players) ≡ 1)
unfolding on_connect find acquire_id
handshake_answered_example =
    handshake_answered one-IsSound 1 unnamed (65 ∷ []) (49 ∷ []) refl refl refl refl

connect_decides_example :
    ((code : ServerDisconnectCode) × (refusal empty 3 1 ≡ some code)
      × (on_connect empty 7 3 1 5 ≡ (record empty { effects = disconnects 7 code ∷ [] }, none)))
    ⊎ (((refusal empty 3 1 ≡ none)
          × (k : ℕ) × (m : IdManager) × (count k [] ≡ 0)
          × (on_connect empty 7 3 1 5 ≡ (
            record empty {
              players = (k, record { connect_time = 5; id = detached; name = []; peer = 7 }) ∷ [];
              peer_ids = m;
              peer_data = λ q. if q == 7 then k else 0;
            },
            none,
          )))
        ⊎ ((i : ℕ) → 0 < i → i ≤ max_peer_id → count i [] ≡ 1))
connect_decides_example = connect_decides empty 7 3 1 5 (make_server-IsSound 4)

disconnect_cleans_example :
    (x : Player) × (find (known.peer_data 7) known.players ≡ some x)
    × (x.peer ≡ 7)
    × ((on_disconnect known 7 1).1 ≡ none)
    × ((on_disconnect known 7 1).0.effects
        ≡ known.effects
          ++ (if has_id x.id then broadcasts (s_client_disconnected x.id.id 1) ∷ [] else []))
    × ((on_disconnect known 7 1).0.peer_data 7 ≡ 0)
    × ((j : ℕ)
        → find j (on_disconnect known 7 1).0.players
          ≡ (if known.peer_data 7 == j then none else find j known.players))
unfolding on_connect on_net_message find acquire_id assign_new make_handle
disconnect_cleans_example = disconnect_cleans known 7 1 known-IsSound (λ e. ground arith)

connect_then_disconnect_example :
    let s' = (on_disconnect (on_connect known 8 0 1 6).0 8 1).0 in
    (s'.players ≡ known.players)
    × (s'.effects ≡ known.effects)
    × (s'.player_ids ≡ known.player_ids)
    × ((q : ℕ) → s'.peer_data q ≡ known.peer_data q)
    × IsPartition max_peer_id (keys known.players) s'.peer_ids
unfolding on_connect on_net_message find acquire_id assign_new make_handle
connect_then_disconnect_example =
    connect_then_disconnect known 8 0 1 6 1 known-IsSound refl refl (λ e. ground arith)

speaks_for_itself_example :
    IsOwnChange known (on_net_message parse known 7 (2 ∷ [])) 7 (known.peer_data 7)
unfolding on_connect on_net_message find acquire_id assign_new make_handle
speaks_for_itself_example =
    speaks_for_itself parse known 7 (2 ∷ []) known-IsSound (λ e. ground arith)
