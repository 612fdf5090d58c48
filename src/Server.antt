-- ===== src/Server.antt =====
-- src/net64/server.hpp and .cpp, with its two components, src/net64/server/player_manager.cpp and
-- chat_server.cpp. ENet is outside the repository: its events come in as `Event`, the calls of it go
-- out as `Effect`, a peer is a number, and `peer_data` is what the server stored in `ENetPeer::data`.
-- The map of players is a list of pairs with an order that nothing depends on.
pub mod Players
pub mod Invariant
pub mod PlayerChanges
pub mod Steps
pub mod Replies
pub mod Connections
pub mod Speech
mod Tests
use net64_coop.Prelude.{
  ℕ, ◌-◌, ◌^◌, Bool, true, false, not, ◌||◌, Option, none, some, List, [], ◌∷◌, ◌++◌, map, ltb, leb,
  ◌==◌, if◌then◌else◌, find, erase,
}
use net64_coop.IdManager.{
  IdManager, IdHandle, detached, has_id, fresh, acquire_id, return_id, destroy_handle, assign_new,
}
use net64_coop.Net.{
  Text, is_empty, proto_ver, NetMessage, ListedPlayer, ServerDisconnectCode, c_handshake,
  c_chat_message, s_chat_message, s_handshake, s_player_list, s_client_disconnected,
  s_client_connected, not_accepted, server_full, incompatible, protocol_violation,
}

pub record Player : Type 0 where
  pub connect_time : ℕ
  pub id : IdHandle
  pub name : Text
  pub peer : ℕ

abbrev pub Players : Type 0
Players = List (ℕ × Player)

-- the calls of ENet
pub data Effect : Type 0 where
  sends : ℕ → NetMessage → Effect
  broadcasts : NetMessage → Effect
  disconnects : ℕ → ServerDisconnectCode → Effect
  resets : ℕ → Effect

pub data Exception : Type 0 where
  out_of_range runtime_error : Exception

pub record Server : Type 0 where
  pub accept_new : Bool
  pub max_peers : ℕ
  pub players : Players
  pub peer_ids : IdManager
  pub player_ids : IdManager
  pub peer_data : ℕ → ℕ
  pub effects : List Effect

-- `std::numeric_limits` of `std::uintptr_t` and of `player_id_t`
abbrev pub max_peer_id : ℕ
max_peer_id = 2 ^ 64 - 1

abbrev pub max_player_id : ℕ
max_player_id = 2 ^ 16 - 1

pub data Event : Type 0 where
  -- the peer, the version that it sent, the number of connected peers, the time
  connected : ℕ → ℕ → ℕ → ℕ → Event
  -- the peer and the code that it sent
  disconnected : ℕ → ℕ → Event
  -- the peer and the bytes of the packet
  received : ℕ → List ℕ → Event

-- a change of the player behind `players_.at(k)`
unfoldable pub replace : ℕ → Player → Players → Players
replace k x [] = []
replace k x ((j, p) ∷ ps) = if j == k then (j, x) ∷ ps else (j, p) ∷ replace k x ps

abbrev pub set_data : (ℕ → ℕ) → ℕ → ℕ → ℕ → ℕ
set_data f p d q = if q == p then d else f q

abbrev emit : Server → Effect → Server
emit s e = record s { effects = s.effects ++ (e ∷ []) }

-- `Server::send`, `Server::broadcast` and `Server::disconnect`
unfoldable pub send : Server → ℕ → NetMessage → Server
send s peer msg = emit s (sends peer msg)

unfoldable pub broadcast : Server → NetMessage → Server
broadcast s msg = emit s (broadcasts msg)

unfoldable pub disconnect : Server → ℕ → ServerDisconnectCode → Server
disconnect s peer reason = emit s (disconnects peer reason)

abbrev pub handshaked : Player → Bool
handshaked p = has_id p.id

-- What the caller goes on with: the server, and the exception if one was thrown.
abbrev pub Step : Type 0
Step = Server × Option Exception

-- the last part of `PlayerManager::on_message`: the three messages about the new player `x`
unfoldable pub announce : Server → Player → Server
unfolding send broadcast
announce s x =
    let s1 = send s x.peer (s_handshake x.id.id) in
    let listed =
      map (λ (kp : ℕ × Player). record { id = kp.1.id.id; name = kp.1.name }) s1.players in
    let s2 = send s1 x.peer (s_player_list listed) in
    broadcast s2 (s_client_connected x.id.id x.name)

unfoldable pub give_id : Server → ℕ → Player → Text → Option (IdHandle × IdManager) → Step
unfolding announce
give_id s k x name none =
    (record s { players = replace k (record x { name = name }) s.players }, some runtime_error)
give_id s k x name (some (h, ids)) =
    let x' = record x { name = name; id = h } in
    (announce (record s { players = replace k x' s.players; player_ids = ids }) x', none)

-- `PlayerManager::on_message`, where `k` is the key of the sender `x`
unfoldable pub on_handshake : Server → ℕ → Player → Text → Text → Step
unfolding give_id disconnect
on_handshake s k x name client_version_str =
    if has_id x.id
    then (disconnect s x.peer protocol_violation, none)
    else if is_empty client_version_str || is_empty name
    then (disconnect s x.peer protocol_violation, none)
    else give_id s k x name (assign_new max_player_id s.player_ids x.id)

-- `ChatServer::on_message`
unfoldable pub on_chat_message : Server → Player → Text → Server
unfolding broadcast
on_chat_message s x message =
    if handshaked x then broadcast s (s_chat_message x.id.id message) else s

-- The handlers run in the order in which the constructor adds them; each ignores the messages that it
-- does not receive, but `player(sender)` is looked up for each of them.
unfoldable pub handle_message : Server → ℕ → NetMessage → Option Player → Step
unfolding on_handshake on_chat_message
handle_message s k msg none = (s, some out_of_range)
handle_message s k (c_handshake name version) (some x) = on_handshake s k x name version
handle_message s k (c_chat_message message) (some x) = (on_chat_message s x message, none)
handle_message s k msg (some x) = (s, none)

-- `PlayerManager::on_disconnect`
unfoldable pub player_left : Server → Player → ℕ → Server
unfolding broadcast
player_left s x code = if handshaked x then broadcast s (s_client_disconnected x.id.id code) else s

-- `Server::destroy_player`: the handle in the player gives its id back
unfoldable pub destroy_player : Server → ℕ → Player → Server
destroy_player s peer x = record s {
  players = erase (s.peer_data peer) s.players;
  player_ids = destroy_handle max_player_id s.player_ids x.id;
  peer_ids = return_id max_peer_id s.peer_ids (s.peer_data peer);
  peer_data = set_data s.peer_data peer 0;
}

unfoldable pub disconnect_found : Server → ℕ → ℕ → Option Player → Step
disconnect_found s peer code none = (s, some out_of_range)
disconnect_found s peer code (some x) = (destroy_player (player_left s x code) peer x, none)

-- the case `ENET_EVENT_TYPE_DISCONNECT` of `Server::tick`
unfoldable pub on_disconnect : Server → ℕ → ℕ → Step
unfolding disconnect_found
on_disconnect s peer code =
    if s.peer_data peer == 0
    then (s, none)
    else disconnect_found s peer code (find (s.peer_data peer) s.players)

destroy_old : IdManager → Option Player → IdManager
destroy_old m none = m
destroy_old m (some old) = destroy_handle max_player_id m old.id

-- `players_[k] = std::make_unique<Player>(…)`: a player that was there is destroyed
unfoldable pub assign_player : Server → ℕ → Player → Server
unfolding destroy_old
assign_player s k x = record s {
  players = (k, x) ∷ erase k s.players;
  player_ids = destroy_old s.player_ids (find k s.players);
}

unfoldable pub accept_peer : Server → ℕ → ℕ → Option (ℕ × IdManager) → Step
unfolding assign_player
accept_peer s peer now none = (s, some runtime_error)
accept_peer s peer now (some (k, ids)) =
    let x : Player = record { connect_time = now; id = detached; name = []; peer = peer } in
    (assign_player (record s { peer_ids = ids; peer_data = set_data s.peer_data peer k }) k x, none)

-- the case `ENET_EVENT_TYPE_CONNECT`, with `PlayerManager::on_connect`
unfoldable pub on_connect : Server → ℕ → ℕ → ℕ → ℕ → Step
unfolding accept_peer disconnect
on_connect s peer version connected_peers now =
    if not s.accept_new
    then (disconnect s peer not_accepted, none)
    else if leb s.max_peers connected_peers
    then (disconnect s peer server_full, none)
    else if not (version == proto_ver)
    then (disconnect s peer incompatible, none)
    else accept_peer s peer now (acquire_id max_peer_id s.peer_ids)

module _ (parse : List ℕ → Option NetMessage) where
  -- `Server::on_net_message`: whatever is thrown is caught and logged
  unfoldable pub on_net_message : Server → ℕ → List ℕ → Server
  unfolding handle_message
  on_net_message s peer packet = elim (parse packet) [
    | none ↦ s
    | some msg ↦ (handle_message s (s.peer_data peer) msg (find (s.peer_data peer) s.players)).0
  ]

  -- the body of the loop of `Server::tick`
  unfoldable pub on_event : Server → Event → Step
  on_event s (connected peer version connected_peers now) =
      on_connect s peer version connected_peers now
  on_event s (disconnected peer code) = on_disconnect s peer code
  on_event s (received peer packet) = (on_net_message s peer packet, none)

  -- `Server::tick`: an exception that leaves an event ends it
  unfoldable pub tick : Server → List Event → Step
  tick s [] = (s, none)
  tick s (event ∷ events) =
      let (s', thrown) = on_event s event in
      elim thrown [ none ↦ tick s' events | some e ↦ (s', some e) ]

-- `Server::disconnect_all`
unfoldable pub disconnect_all : Server → ServerDisconnectCode → Server
disconnect_all s code = record s {
  effects = s.effects ++ map (λ (kp : ℕ × Player). disconnects kp.1.peer code) s.players;
}

destroy_handles : IdManager → Players → IdManager
destroy_handles ids [] = ids
destroy_handles ids ((k, x) ∷ ps) = destroy_handles (destroy_handle max_player_id ids x.id) ps

-- `Server::reset_all`
unfoldable pub reset_all : Server → Server
unfolding destroy_handles
reset_all s = record s {
  effects = s.effects ++ map (λ (kp : ℕ × Player). resets kp.1.peer) s.players;
  players = [];
  player_ids = destroy_handles s.player_ids s.players;
}

-- `Server::set_max_peers` and the setter `Server::accept_new`
unfoldable pub set_max_peers : Server → ℕ → Server
set_max_peers s max_peers = record s { max_peers = max_peers }

unfoldable pub set_accept_new : Server → Bool → Server
set_accept_new s v = record s { accept_new = v }

-- `Server::Server`, with a host that was created
abbrev pub make_server : ℕ → Server
make_server max_peers = record {
  accept_new = true;
  max_peers = max_peers;
  players = [];
  peer_ids = fresh;
  player_ids = fresh;
  peer_data = λ peer. 0;
  effects = [];
}
