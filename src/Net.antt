-- ===== src/Net.antt =====
-- src/net64/net: the messages between client and server, the codes and the channels. Texts are lists
-- of bytes. The byte format of a packet is cereal's, which is not part of the repository: where a packet
-- is read, `parse` is a parameter, and `none` stands for an exception.
use net64_coop.Prelude.{ℕ, List, [], Bool, true, false}

abbrev pub Text : Type 0
Text = List ℕ

-- `Net::S_DisconnectCode`
pub data ServerDisconnectCode : Type 0 where
  kicked banned server_shutdown not_accepted incompatible protocol_violation : ServerDisconnectCode
  server_full : ServerDisconnectCode

-- `Net::Error`
pub data NetError : Type 0 where
  invalid_ip unkown_hostname already_connected enet_peer_creation : NetError
  enet_host_creation timed_out : NetError

-- An entry of `S_PlayerList`.
pub record ListedPlayer : Type 0 where
  pub id : ℕ
  pub name : Text

-- The message types, with their fields. A `C_DisconnectCode` is the number that the peer sent.
pub data NetMessage : Type 0 where
  c_handshake : Text → Text → NetMessage
  c_chat_message : Text → NetMessage
  s_chat_message : ℕ → Text → NetMessage
  s_handshake : ℕ → NetMessage
  s_player_list : List ListedPlayer → NetMessage
  s_client_disconnected : ℕ → ℕ → NetMessage
  s_client_connected : ℕ → Text → NetMessage

-- `Net::PROTO_VER`
abbrev pub proto_ver : ℕ
proto_ver = 0

abbrev pub is_empty : Text → Bool
is_empty t = elim t [ [] ↦ true | _ ↦ false ]
