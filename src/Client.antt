-- ===== src/Client.antt =====
-- src/net64/client.hpp and .cpp: the client's state, and the operations that its user calls. ENet is
-- outside the repository: a host and a peer are there or not, a peer has the state that ENet keeps in
-- it, and what ENet is asked to do and the callbacks that are called are listed as `Effect`. The
-- callbacks that are passed are not empty; a callback does not call the client.
pub mod Handlers
pub mod GameLogger
pub mod LogLines
pub mod Ticking
pub mod Invariant
pub mod Connection
pub mod Sessions
pub mod RemotePlayers
pub mod Hook
mod Tests
use net64_coop.Prelude.{
  ℕ, ◌-◌, ◌*◌, Bool, true, false, not, ◌&&◌, Option, none, some, List, [], ◌∷◌, ◌++◌, ltb, ◌==◌,
  if◌then◌else◌,
}
use net64_coop.Net.{
  Text, NetError, NetMessage, enet_host_creation, unkown_hostname, enet_peer_creation, timed_out,
  c_chat_message,
}

pub data ClientError : Type 0 where
  incompatible_game : ClientError

-- The states of an `ENetPeer` that the client asks for, and all others.
pub data PeerState : Type 0 where
  peer_connecting peer_connected peer_disconnecting peer_other : PeerState

pub data Effect : Type 0 where
  hooked_called : Option ClientError → Effect
  connect_called : Option NetError → Effect
  disconnect_called : Effect
  chat_called : Text → Text → Effect
  sends : NetMessage → Effect
  asks_disconnect resets_peer : Effect
  logs : Text → Effect

pub record LocalPlayer : Type 0 where
  pub name : Text
  pub id : ℕ

pub record RemotePlayer : Type 0 where
  pub id : ℕ
  pub name : Text

abbrev pub RemoteMap : Type 0
RemoteMap = List (ℕ × RemotePlayer)

-- `mem_hdl`, `rcv_queue` and `snd_queue` are whether the optional has a value, `header` is the address
-- in `net64_header_`, and times are in nanoseconds.
pub record Client : Type 0 where
  pub mem_hdl : Bool
  pub header : Option ℕ
  pub rcv_queue : Bool
  pub snd_queue : Bool
  pub hooking : Bool
  pub host : Bool
  pub peer : Option PeerState
  pub connection_start_time : ℕ
  pub connect_timeout : ℕ
  pub disconnection_start_time : ℕ
  pub disconnect_timeout : ℕ
  pub connect_callback : Bool
  pub disconnect_callback : Bool
  pub chat_callback : Bool
  pub player : LocalPlayer
  pub remote_players : RemoteMap
  pub username : Text
  pub text_buf : Text
  pub effects : List Effect

abbrev pub no_player : LocalPlayer
no_player = record { name = []; id = 0 }

-- `LocalPlayer::handshaked`
abbrev pub local_handshaked : LocalPlayer → Bool
local_handshaked p = if p.id == 0 then false else true

abbrev pub make_client : Client
make_client = record {
  mem_hdl = false;
  header = none;
  rcv_queue = false;
  snd_queue = false;
  hooking = false;
  host = false;
  peer = none;
  connection_start_time = 0;
  connect_timeout = 0;
  disconnection_start_time = 0;
  disconnect_timeout = 0;
  connect_callback = false;
  disconnect_callback = false;
  chat_callback = false;
  player = no_player;
  remote_players = [];
  username = [];
  text_buf = [];
  effects = [];
}

abbrev pub emit : Client → Effect → Client
emit c e = record c { effects = c.effects ++ (e ∷ []) }

abbrev pub in_state : PeerState → PeerState → Bool
in_state peer_connecting peer_connecting = true
in_state peer_connected peer_connected = true
in_state peer_disconnecting peer_disconnecting = true
in_state peer_other peer_other = true
in_state _ _ = false

abbrev peer_is : Client → PeerState → Bool
peer_is c state = elim c.peer [ none ↦ false | some p ↦ in_state p state ]

abbrev pub connecting : Client → Bool
connecting c = peer_is c peer_connecting

abbrev pub is_connected : Client → Bool
is_connected c = peer_is c peer_connected

abbrev pub disconnecting : Client → Bool
disconnecting c = peer_is c peer_disconnecting

abbrev pub is_disconnected : Client → Bool
is_disconnected c = elim c.peer [ none ↦ true | some p ↦ false ]

-- `Client::set_chat_callback` and `Client::hook`
unfoldable pub set_chat_callback : Client → Bool → Client
set_chat_callback c given = record c { chat_callback = given }

unfoldable pub hook : Client → Client
hook c = record c { mem_hdl = true; hooking = true }

-- What ENet answers to `connect`: whether it makes the host, resolves the name and makes the peer,
-- and the state that the new peer has.
pub record Answers : Type 0 where
  pub host_made : Bool
  pub resolved : Bool
  pub peer_made : Bool
  pub new_peer : PeerState

open_connection : Client → Answers → ℕ → Client
open_connection c answers now =
    if not answers.host_made
    then emit (record c { host = false }) (connect_called (some enet_host_creation))
    else if not answers.resolved
    then emit (record c { host = true }) (connect_called (some unkown_hostname))
    else if not answers.peer_made
    then emit (record c { host = true }) (connect_called (some enet_peer_creation))
    else record c { host = true; peer = some answers.new_peer; connection_start_time = now }

-- `Client::connect`; `none`: the assertion that there is no peer fails
unfoldable pub connect : Client → Answers → Text → ℕ → ℕ → Option Client
unfolding open_connection
connect c answers username timeout now =
    let c' = record c {
      connect_callback = true;
      disconnect_callback = true;
      connect_timeout = timeout;
      username = username;
    } in
    elim c.peer [ none ↦ some (open_connection c' answers now) | some p ↦ none ]

-- the first case of `Client::disconnect`
unfoldable pub abort_connecting : Client → Client
abort_connecting c =
    emit
      (emit (emit (record c { peer = none; host = false }) resets_peer)
        (connect_called (some timed_out)))
      disconnect_called

-- The state in which `enet_peer_disconnect` leaves a connected peer is an argument.
module _ (asked : PeerState) where
  unfoldable pub disconnect : Client → ℕ → ℕ → Client
  unfolding abort_connecting
  disconnect c timeout now =
      if connecting c
      then abort_connecting c
      else if not (is_connected c)
      then c
      else emit
          (record c {
            disconnect_timeout = timeout;
            peer = some asked;
            disconnection_start_time = now;
          })
          asks_disconnect

  unfoldable pub unhook : Client → ℕ → Client
  unfolding disconnect
  unhook c now =
      let c' = record c {
        hooking = false;
        rcv_queue = false;
        snd_queue = false;
        header = none;
        mem_hdl = false;
      } in
      disconnect c' (2 * 1000000000) now

-- `Client::send` and `Client::send_chat_message`
unfoldable pub send : Client → NetMessage → Client
send c msg = elim c.peer [ none ↦ c | some p ↦ emit c (sends msg) ]

unfoldable pub send_chat_message : Client → Text → Client
unfolding send
send_chat_message c message = send c (c_chat_message message)
