-- ===== src/Session/Handling.antt =====
-- What a client keeps of the messages that an event of the server sends to its peer.
use net64_coop.Prelude.{
  ℕ, ◌<◌, ◌≡◌, refl, sym, ap, ◌∙◌, true, false, Option, none, some, List, [], ◌∷◌, ◌++◌, arith,
  ◌==◌, if◌then◌else◌, find, find-erase, erase, append-nil, length, drop,
}
use net64_coop.Net.{
  Text, s_chat_message, s_handshake, s_player_list, s_client_connected, s_client_disconnected,
}
use net64_coop.Server.{Server, Effect, sends, broadcasts, disconnects}
use net64_coop.Server.Replies.{listing}
use net64_coop.Client.{Client, RemotePlayer}
use net64_coop.Client.Handlers.{
  insert, insert_listed, chat_client, player_list_manager, local_player_manager, handle_message,
}
use net64_coop.Client.RemotePlayers.{
  find-insert, find-insert_listed, takes_id, takes_list, players-arrival, or_else,
}
use net64_coop.Session.{named, addressed, handle_all, news, HaveNull}
use net64_coop.Session.Roster.{listed-listing}
use net64_coop.Session.Changes.{IsQuiet}

drop-length {ℓ} : {A : Type ℓ} (xs ys : List A) → drop (length xs) (xs ++ ys) ≡ ys
drop-length [] ys = refl
drop-length (x ∷ xs) ys = drop-length xs ys

players-chat :
    (c : Client) (sender : ℕ) (message : Text)
    → (handle_message c (s_chat_message sender message)).remote_players ≡ c.remote_players
unfolding handle_message chat_client local_player_manager player_list_manager
players-chat c sender message = ground arith

players-departure :
    (c : Client) (id code : ℕ)
    → (handle_message c (s_client_disconnected id code)).remote_players ≡ erase id c.remote_players
unfolding handle_message chat_client local_player_manager player_list_manager
players-departure c id code = ground arith

players-quiet :
    (peer : ℕ) (c : Client) (e : Effect)
    → IsQuiet e
    → (handle_all c (addressed peer true (e ∷ []))).remote_players ≡ c.remote_players
unfolding addressed handle_all
players-quiet peer c (broadcasts (s_chat_message sender message)) q = players-chat c sender message
players-quiet peer c (disconnects p code) q = refl
players-quiet peer c _ q = absurd q

abbrev pub welcome : ℕ → ℕ → Text → Server → List Effect
welcome at id name s' =
    sends at (s_handshake id)
    ∷ sends at (s_player_list (listing s'.players))
    ∷ broadcasts (s_client_connected id name)
    ∷ []

players-welcome_self :
    (peer id : ℕ) (name : Text) (s' : Server) (c : Client)
    → (handle_all c (addressed peer true (welcome peer id name s'))).remote_players
      ≡ insert id
          (record { id = id; name = name })
          (insert_listed (listing s'.players) c.remote_players)
unfolding addressed handle_all
players-welcome_self peer id name s' c =
    let self : (peer == peer) ≡ true = ground arith in
    let c1 : Client = record c { player = record c.player { id = id } } in
    rw self (
      rw (takes_id c id, takes_list c1 (listing s'.players))
        (players-arrival
          (record c1 { remote_players = insert_listed (listing s'.players) c.remote_players }) id
          name))

players-welcome_other :
    (peer at id : ℕ) (name : Text) (s' : Server) (c : Client)
    → (at == peer) ≡ false
    → (handle_all c (addressed peer true (welcome at id name s'))).remote_players
      ≡ insert id (record { id = id; name = name }) c.remote_players
unfolding addressed handle_all
players-welcome_other peer at id name s' c other = rw other (players-arrival c id name)

module _ (s s' : Server) (peer : ℕ) (c : Client) where
  news-append : (es : List Effect) → s'.effects ≡ s.effects ++ es → news s s' ≡ es
  news-append es e = ap (drop (length s.effects)) e ∙ drop-length s.effects es

  -- The find in the client's map behind each change.
  abbrev pub found : ℕ → Option RemotePlayer
  found j = find j (handle_all c (addressed peer true (news s s'))).remote_players

  pub found-same : (j : ℕ) → s'.effects ≡ s.effects → found j ≡ find j c.remote_players
  unfolding addressed handle_all
  found-same j e = rw (news-append [] (e ∙ sym (append-nil s.effects))) refl

  pub found-quiet :
      (j : ℕ) (e : Effect)
      → IsQuiet e
      → s'.effects ≡ s.effects ++ (e ∷ [])
      → found j ≡ find j c.remote_players
  found-quiet j e q m = rw (news-append (e ∷ []) m) (ap (find j) (players-quiet peer c e q))

  pub found-leaves :
      (j id code : ℕ)
      → s'.effects ≡ s.effects ++ (broadcasts (s_client_disconnected id code) ∷ [])
      → found j ≡ (if id == j then none else find j c.remote_players)
  unfolding addressed handle_all
  found-leaves j id code m =
      rw (news-append (broadcasts (s_client_disconnected id code) ∷ []) m)
        (ap (find j) (players-departure c id code) ∙ find-erase id j c.remote_players)

  pub found-joins_other :
      (j at id : ℕ) (name : Text)
      → s'.effects ≡ s.effects ++ welcome at id name s'
      → (at == peer) ≡ false
      → found j ≡ elim (find j c.remote_players) [
        | none ↦ (if id == j then some (record { id = id; name = name }) else none)
        | some p ↦ some p
      ]
  found-joins_other j at id name m other = rw (news-append (welcome at id name s') m) (
      ap (find j) (players-welcome_other peer at id name s' c other)
      ∙ find-insert id j (record { id = id; name = name }) c.remote_players)

  pub found-joins_self :
      (j id : ℕ) (name : Text)
      → s'.effects ≡ s.effects ++ welcome peer id name s'
      → 0 < j
      → HaveNull s'.players
      → found j ≡ elim (or_else (find j c.remote_players) (named j s'.players)) [
        | none ↦ (if id == j then some (record { id = id; name = name }) else none)
        | some p ↦ some p
      ]
  found-joins_self j id name m pos all =
      let known = find-insert_listed j (listing s'.players) c.remote_players in
      let list = listed-listing j s'.players pos all in
      rw (news-append (welcome peer id name s') m) (
        ap (find j) (players-welcome_self peer id name s' c)
        ∙ find-insert id j (record { id = id; name = name })
            (insert_listed (listing s'.players) c.remote_players)
        ∙ rw (known, list) refl)
