-- ===== src/Client/RemotePlayers.antt =====
-- The remote players that the client knows, and what the chat shows of them.
use net64_coop.Prelude.{
  append_assoc, find, find-erase, ℕ, ◌≡◌, ◌≢◌, refl, true, Option, none, some, List, [], ◌∷◌, ◌++◌,
  arith, ◌==◌, if◌then◌else◌, Option-cases, inl, inr, Bool-cases,
}
use net64_coop.Net.{
  Text, ListedPlayer, s_chat_message, s_handshake, s_player_list, s_client_disconnected,
  s_client_connected,
}
use net64_coop.Client.{Client, RemoteMap, RemotePlayer, chat_called, Answers, connect}
use net64_coop.Client.Handlers.{
  insert, insert_listed, chat_client, local_player_manager, player_list_manager, handle_message,
  joined, left, on_disconnect,
}
use net64_coop.Client.Ticking.{on_lost}

pub find-insert :
    (k j : ℕ) (x : RemotePlayer) (ps : RemoteMap)
    → find j (insert k x ps)
      ≡ elim (find j ps) [ none ↦ (if k == j then some x else none) | some p ↦ some p ]
unfolding find insert
find-insert k j x ps = elim (Option-cases (find k ps)) [
  | inl absent ↦ elim (Bool-cases (k == j)) [ inl same ↦ ground arith | inr other ↦ ground arith ]
  | inr (p, there) ↦ elim (Bool-cases (k == j)) [
    | inl same ↦ ground arith
    | inr other ↦ ground arith
  ]
]

-- The first entry of a list with an id.
abbrev pub listed : ℕ → List ListedPlayer → Option RemotePlayer
listed j [] = none
listed j (x ∷ xs) = if x.id == j then some (record { id = x.id; name = x.name }) else listed j xs

abbrev pub or_else : Option RemotePlayer → Option RemotePlayer → Option RemotePlayer
or_else none o = o
or_else (some p) o = some p

pub find-insert_listed :
    (j : ℕ) (xs : List ListedPlayer) (ps : RemoteMap)
    → find j (insert_listed xs ps) ≡ or_else (find j ps) (listed j xs)
unfolding insert_listed
find-insert_listed j [] ps = ground arith
find-insert_listed j (x ∷ xs) ps = ground (
  arith,
  find-insert_listed j xs (insert x.id (record { id = x.id; name = x.name }) ps),
  find-insert x.id j (record { id = x.id; name = x.name }) ps,
)

shows_arrival :
    (c : Client) (id : ℕ) (name : Text)
    → c.chat_callback ≡ true
    → handle_message c (s_client_connected id name) ≡ record c {
      remote_players = insert id (record { id = id; name = name }) c.remote_players;
      effects = c.effects ++ (chat_called [] (name ++ joined) ∷ []);
    }
unfolding handle_message chat_client player_list_manager
shows_arrival c id name callback = rw callback refl

shows_message :
    (c : Client) (id : ℕ) (message : Text) (p : RemotePlayer)
    → c.chat_callback ≡ true
    → id ≢ 0
    → find id c.remote_players ≡ some p
    → handle_message c (s_chat_message id message)
      ≡ record c { effects = c.effects ++ (chat_called p.name message ∷ []) }
unfolding handle_message chat_client player_list_manager
shows_message c id message p callback nz there = elim (Bool-cases (id == 0)) [
  | inl null ↦ absurd (nz (ground arith))
  | inr known ↦ ground arith
]

-- What a client with a callback and a player whose id it does not know come to: the arrival is shown
-- with the name, and a chat message with that id is shown with that name.
pub newcomer_is_heard :
    (c : Client) (id : ℕ) (name message : Text)
    → c.chat_callback ≡ true
    → id ≢ 0
    → find id c.remote_players ≡ none
    → (handle_message
        (handle_message c (s_client_connected id name))
        (s_chat_message id message)).effects
      ≡ c.effects ++ (chat_called [] (name ++ joined) ∷ chat_called name message ∷ [])
newcomer_is_heard c id name message callback nz new =
    let x : RemotePlayer = record { id = id; name = name } in
    let there : find id (insert id x c.remote_players) ≡ some x =
      ground (arith, find-insert id id x c.remote_players) in
    rw
      (
        shows_arrival c id name callback,
        shows_message
            (record c {
              remote_players = insert id x c.remote_players;
              effects = c.effects ++ (chat_called [] (name ++ joined) ∷ []);
            })
            id message x callback nz there,
      )
      (append_assoc c.effects (_ ∷ []) (_ ∷ []))

-- When a known player leaves, its name is shown, which is looked up before the player is forgotten;
-- no other player is.
pub leaver_is_named :
    (c : Client) (id code : ℕ) (p : RemotePlayer)
    → c.chat_callback ≡ true
    → find id c.remote_players ≡ some p
    → ((handle_message c (s_client_disconnected id code)).effects
        ≡ c.effects ++ (chat_called [] (p.name ++ left) ∷ []))
      × ((j : ℕ)
          → find j (handle_message c (s_client_disconnected id code)).remote_players
            ≡ (if id == j then none else find j c.remote_players))
unfolding handle_message chat_client player_list_manager
leaver_is_named c id code p callback there =
    (rw (callback, there) refl, λ j. rw (callback, there) (find-erase id j c.remote_players))

pub takes_id :
    (c : Client) (id : ℕ)
    → handle_message c (s_handshake id) ≡ record c { player = record c.player { id = id } }
unfolding handle_message chat_client player_list_manager local_player_manager
takes_id c id = refl

pub takes_list :
    (c : Client) (players : List ListedPlayer)
    → handle_message c (s_player_list players)
      ≡ record c { remote_players = insert_listed players c.remote_players }
unfolding handle_message chat_client player_list_manager local_player_manager
takes_list c players = refl

-- The three messages with which the server answers a handshake: the client gets its id, shows one
-- arrival, and knows, besides whom it knew, who is listed, the first entry of each id, and itself.
pub joins :
    (c : Client) (id : ℕ) (name : Text) (players : List ListedPlayer)
    → c.chat_callback ≡ true
    → let c' =
        handle_message
          (handle_message (handle_message c (s_handshake id)) (s_player_list players))
          (s_client_connected id name) in
      (c'.player.id ≡ id)
      × (c'.effects ≡ c.effects ++ (chat_called [] (name ++ joined) ∷ []))
      × ((j : ℕ)
          → find j c'.remote_players
            ≡ or_else (find j c.remote_players) (
                or_else
                  (listed j players)
                  (if id == j then some (record { id = id; name = name }) else none)))
joins c id name players callback =
    let c2 : Client = record c {
      player = record c.player { id = id };
      remote_players = insert_listed players c.remote_players;
    } in
    rw
      (
        takes_id c id,
        takes_list (record c { player = record c.player { id = id } }) players,
        shows_arrival c2 id name callback,
      )
      (
        refl,
        refl,
        λ j. ground (
          arith,
          find-insert id j (record { id = id; name = name })
              (insert_listed players c.remote_players),
          find-insert_listed j players c.remote_players,
        ),
      )

players-on_lost : (c : Client) → (on_lost c).remote_players ≡ c.remote_players
unfolding on_lost on_disconnect
players-on_lost c = ground arith

players-connect :
    (c c' : Client) (answers : Answers) (username : Text) (timeout now : ℕ)
    → connect c answers username timeout now ≡ some c'
    → c'.remote_players ≡ c.remote_players
unfolding connect
players-connect c c' answers username timeout now e = ground arith

pub players-arrival :
    (c : Client) (id : ℕ) (name : Text)
    → (handle_message c (s_client_connected id name)).remote_players
      ≡ insert id (record { id = id; name = name }) c.remote_players
unfolding handle_message chat_client player_list_manager
players-arrival c id name = ground arith

-- A player that is known when the connection is lost is still known, under its old name, after a new
-- connection, whatever name the server then announces for that id.
pub name_is_stale :
    (c c' : Client) (answers : Answers) (username name : Text) (timeout now id : ℕ)
    (p : RemotePlayer)
    → find id c.remote_players ≡ some p
    → connect (on_lost c) answers username timeout now ≡ some c'
    → find id (handle_message c' (s_client_connected id name)).remote_players ≡ some p
name_is_stale c c' answers username name timeout now id p there e =
    let known = players-connect (on_lost c) c' answers username timeout now e in
    ground (
      arith,
      players-arrival c' id name,
      find-insert id id (record { id = id; name = name }) c'.remote_players,
      players-on_lost c,
    )
