-- ===== src/Session/Joining.antt =====
-- A client that connects, waits, says who it is and stays: from then on it knows the players.
use net64_coop.Prelude.{ℕ, ◌≡◌, ◌≢◌, false, Option, none, some, List, find}
use net64_coop.IdManager.{has_id, acquire_id}
use net64_coop.Net.{NetMessage, Text, is_empty, c_handshake}
use net64_coop.Server.{Server, Player, max_player_id}
use net64_coop.Client.{Client}

-- The server can accept the handshake that the packet of the peer is.
pub record Introduces (parse : List ℕ → Option NetMessage) (peer : ℕ) (s : Server) (packet : List ℕ)
    : Type 0 where
  pub name : Text
  pub version : Text
  pub player : Player
  pub parsed : parse packet ≡ some (c_handshake name version)
  pub named_well : is_empty name ≡ false
  pub versioned : is_empty version ≡ false
  pub there : find (s.peer_data peer) s.players ≡ some player
  pub unknown : has_id player.id ≡ false
  pub id_left : acquire_id max_player_id s.player_ids ≢ none
