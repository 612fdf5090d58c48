-- ===== src/Session/Tests.antt =====
-- Two clients at a server: the second joins, and then the first leaves.
use net64_coop.Prelude.{ℕ, some, none, true, Option, List, [], ◌∷◌, ◌==◌, if◌then◌else◌}
use net64_coop.IdManager.{IdManager}
use net64_coop.Net.{NetMessage, c_handshake, c_chat_message}
use net64_coop.Server.{Event, make_server, connected, disconnected, received, on_event}
use net64_coop.Client.{make_client}
use net64_coop.Session.{Listener}
use net64_coop.Server.{Server}

-- Packets of one byte: two handshakes and a chat message.
abbrev parse : List ℕ → Option NetMessage
parse [] = none
parse (b ∷ bytes) =
    if b == 1
    then some (c_handshake (65 ∷ []) (49 ∷ []))
    else if b == 2
    then some (c_handshake (66 ∷ []) (49 ∷ []))
    else some (c_chat_message (72 ∷ 105 ∷ []))

-- Players at the peers 7 and 8, which have not said who they are.
abbrev one : Server
one = (on_event parse (make_server 4) (connected 7 0 1 5)).0

abbrev two : Server
two = (on_event parse one (connected 8 0 2 6)).0

abbrev before : List Event
before = received 7 (1 ∷ []) ∷ []

abbrev after : List Event
after = received 7 (3 ∷ []) ∷ disconnected 7 0 ∷ []

abbrev chatting : Listener
chatting = record { online = true; client = record make_client { chat_callback = true } }
