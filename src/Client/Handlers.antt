-- ===== src/Client/Handlers.antt =====
-- The client's components: src/net64/client/chat_client.cpp, local_player_manager.cpp and
-- player_list_manager.cpp, and how client.cpp passes messages and connection events to them. The map
-- of remote players is a list of pairs with an order that nothing depends on.
use net64_coop.Prelude.{
  ℕ, Bool, false, not, Option, none, some, List, [], ◌∷◌, ◌++◌, ◌==◌, if◌then◌else◌, find, erase,
}
use net64_coop.Net.{
  Text, ListedPlayer, NetMessage, c_handshake, s_chat_message, s_handshake, s_player_list,
  s_client_disconnected, s_client_connected,
}
use net64_coop.Client.{Client, RemoteMap, RemotePlayer, chat_called, emit, no_player, send}

-- `insert` of an `unordered_map`, which keeps what is there
unfoldable pub insert : ℕ → RemotePlayer → RemoteMap → RemoteMap
insert k x ps = elim (find k ps) [ none ↦ (k, x) ∷ ps | some p ↦ ps ]

abbrev pub joined : Text
joined = 32 ∷ 106 ∷ 111 ∷ 105 ∷ 110 ∷ 101 ∷ 100 ∷ []

abbrev pub left : Text
left = 32 ∷ 108 ∷ 101 ∷ 102 ∷ 116 ∷ []

-- `ChatClient::on_message` for its three messages; an unknown player is logged and ignored.
unfoldable pub chat_client : Bool → Client → NetMessage → Client
chat_client callback c (s_chat_message sender message) =
    if not callback
    then c
    else if sender == 0
    then emit c (chat_called [] message)
    else elim (find sender c.remote_players) [
      | none ↦ c
      | some p ↦ emit c (chat_called p.name message)
    ]
chat_client callback c (s_client_connected id name) =
    if not callback then c else emit c (chat_called [] (name ++ joined))
chat_client callback c (s_client_disconnected player code) =
    if not callback then c else elim (find player c.remote_players) [
      | none ↦ c
      | some p ↦ emit c (chat_called [] (p.name ++ left))
    ]
chat_client callback c msg = c

-- `LocalPlayerManager`
unfoldable pub local_player_manager : Client → NetMessage → Client
local_player_manager c (s_handshake id) = record c { player = record c.player { id = id } }
local_player_manager c msg = c

unfoldable pub insert_listed : List ListedPlayer → RemoteMap → RemoteMap
insert_listed [] ps = ps
insert_listed (x ∷ xs) ps = insert_listed xs (insert x.id (record { id = x.id; name = x.name }) ps)

-- `PlayerListManager`
unfoldable pub player_list_manager : Client → NetMessage → Client
unfolding insert_listed
player_list_manager c (s_client_connected id name) = record c {
  remote_players = insert id (record { id = id; name = name }) c.remote_players;
}
player_list_manager c (s_client_disconnected player code) = record c {
  remote_players = erase player c.remote_players;
}
player_list_manager c (s_player_list players) = record c {
  remote_players = insert_listed players c.remote_players;
}
player_list_manager c msg = c

-- The handlers in the order in which the constructor adds them; the last is a second `ChatClient`,
-- which no callback reaches.
unfoldable pub handle_message : Client → NetMessage → Client
unfolding chat_client local_player_manager player_list_manager
handle_message c msg =
    let c1 = chat_client c.chat_callback c msg in
    let c2 = local_player_manager c1 msg in
    let c3 = player_list_manager c2 msg in chat_client false c3 msg

-- `Client::on_net_message`: a packet that is not parsed is logged and ignored.
unfoldable pub on_net_message : (List ℕ → Option NetMessage) → Client → List ℕ → Client
unfolding handle_message
on_net_message parse c packet = elim (parse packet) [ none ↦ c | some msg ↦ handle_message c msg ]

-- `Client::on_connect` and `on_disconnect`, with `LocalPlayerManager`, the only component that receives
-- them; the version is generated by the build.
unfoldable pub on_connect : Text → Client → Client
unfolding send
on_connect git_desc c = send c (c_handshake c.username git_desc)

unfoldable pub on_disconnect : Client → Client
on_disconnect c = record c { username = []; player = no_player }
