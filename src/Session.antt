-- ===== src/Session.antt =====
-- The server of src/net64/server.cpp together with a client of src/net64/client.cpp. All messages go over
-- one reliable channel of ENet, so that the client handles what is sent to its peer in order.
pub mod Roster
pub mod Changes
pub mod Messages
pub mod Handling
pub mod Following
pub mod Joining
mod Tests
use net64_coop.Prelude.{
  ℕ, Bool, true, false, not, ◌&&◌, Option, none, some, List, [], ◌∷◌, ◌++◌, ◌==◌, ◌≡◌, ◌<◌,
  if◌then◌else◌, find, length, drop,
}
use net64_coop.IdManager.{has_id}
use net64_coop.Net.{NetMessage}
use net64_coop.Server.{
  Player, Players, Server, Effect, Event, sends, broadcasts, disconnects, resets, received,
  connected, disconnected, on_event,
}
use net64_coop.Client.{Client, RemotePlayer}
use net64_coop.Client.Handlers.{handle_message}

abbrev pub is_named : ℕ → Player → Bool
is_named j x = has_id x.id && (x.id.id == j)

-- The player with an id, as the others should know it.
unfoldable pub named : ℕ → Players → Option RemotePlayer
named j [] = none
named j ((k, x) ∷ ps) =
    if is_named j x then some (record { id = x.id.id; name = x.name }) else named j ps

-- Whether a peer that is connected or not is still connected after calls of ENet.
unfoldable pub stays : ℕ → Bool → List Effect → Bool
stays peer online [] = online
stays peer online (sends q msg ∷ es) = stays peer online es
stays peer online (broadcasts msg ∷ es) = stays peer online es
stays peer online (disconnects q code ∷ es) = stays peer (online && not (q == peer)) es
stays peer online (resets q ∷ es) = stays peer (online && not (q == peer)) es

-- The messages among the calls of ENet that are sent to a peer: only while it is connected.
unfoldable pub addressed : ℕ → Bool → List Effect → List NetMessage
addressed peer online [] = []
addressed peer online (sends q msg ∷ es) =
    let rest = addressed peer online es in if online && (q == peer) then msg ∷ rest else rest
addressed peer online (broadcasts msg ∷ es) =
    let rest = addressed peer online es in if online then msg ∷ rest else rest
addressed peer online (disconnects q code ∷ es) = addressed peer (online && not (q == peer)) es
addressed peer online (resets q ∷ es) = addressed peer (online && not (q == peer)) es

-- Whether the connection of a peer is still there when ENet reports an event: not once its end is reported,
-- or another connection of the same peer.
unfoldable pub hears : ℕ → Bool → Event → Bool
hears peer online (connected q version connected_peers now) = online && not (q == peer)
hears peer online (disconnected q code) = online && not (q == peer)
hears peer online (received q packet) = online

unfoldable pub handle_all : Client → List NetMessage → Client
handle_all c [] = c
handle_all c (msg ∷ msgs) = handle_all (handle_message c msg) msgs

-- The calls that are new in the second of two servers.
abbrev pub news : Server → Server → List Effect
news s s' = drop (length s.effects) s'.effects

-- A client, and whether its connection to the server is still there.
pub record Listener : Type 0 where
  pub online : Bool
  pub client : Client

-- A server that meets events, and the client at a peer, which handles what each of them sends to it.
module _ (parse : List ℕ → Option NetMessage) (peer : ℕ) where
  abbrev pub meet : Server → Listener → Event → Server × Listener
  meet s l event =
      let s' = (on_event parse s event).0 in
      let online = hears peer l.online event in
      (
        s',
        record {
          online = stays peer online (news s s');
          client = handle_all l.client (addressed peer online (news s s'));
        },
      )

  unfoldable pub follow : Server → Listener → List Event → Server × Listener
  follow s l [] = (s, l)
  follow s l (event ∷ events) = let (s', l') = meet s l event in follow s' l' events

  -- Some events, and then a packet of the peer.
  abbrev pub greet : Server → Listener → List Event → List ℕ → Server × Listener
  greet s l before packet = let (s1, l1) = follow s l before in meet s1 l1 (received peer packet)

-- The client knows no player wrongly, or every player that has an id.
abbrev pub KnowsNoOther : Server → Client → Type 0
KnowsNoOther s c =
    (j : ℕ)
    → 0 < j
    → (p : RemotePlayer) → find j c.remote_players ≡ some p
    → named j s.players ≡ some p

abbrev pub KnowsAll : Server → Client → Type 0
KnowsAll s c = (j : ℕ) → 0 < j → find j c.remote_players ≡ named j s.players

-- A player without an id has the id 0.
abbrev pub HaveNull : Players → Type 0
HaveNull [] = Unit {0}
HaveNull ((k, x) ∷ ps) = (has_id x.id ≡ false → x.id.id ≡ 0) × HaveNull ps
