-- ===== src/Session/Messages.antt =====
-- What a message that the server receives changes for the peers, and so every event.
use net64_coop.Prelude.{
  ℕ, ◌≡◌, refl, false, ◌||◌, Option, none, some, List, arith, find, erase, count, count-append,
  Bool-cases, Option-cases, inl, inr,
}
use net64_coop.IdManager.{IdManager, IdHandle, has_id, assign_new}
use net64_coop.IdManager.Handle.{ids_of, assign_new-IsPartition}
use net64_coop.Net.{
  NetMessage, Text, is_empty, s_chat_message, c_handshake, c_chat_message, protocol_violation,
}
use net64_coop.Server.{
  Player, Server, Event, connected, disconnected, received, broadcasts, max_player_id, replace,
  on_handshake, give_id, announce, broadcast, handle_message, on_chat_message, on_net_message,
  on_event,
}
use net64_coop.Server.Players.{ids, count-ids-erase}
use net64_coop.Server.Invariant.{IsSound, key_once, split_ids}
use net64_coop.Server.Replies.{on_handshake_new, effects-announce}
use net64_coop.Session.{HaveNull}
use net64_coop.Session.Changes.{
  Changes, same, quiet, Joins, joins, disconnect-Changes, on_connect-Changes, on_disconnect-Changes,
}
use net64_coop.Session.Roster.{
  named_unheld, named-replace, named-rename, find-HaveNull, replace-HaveNull,
}

module _ {s : Server} (v : IsSound s) (all : HaveNull s.players) where
  -- What a first handshake with an id that is free changes.
  pub on_handshake_new-Joins :
      (k : ℕ) (x : Player) (name version : Text) (h : IdHandle) (m : IdManager)
      → find k s.players ≡ some x
      → has_id x.id ≡ false
      → is_empty version ≡ false
      → is_empty name ≡ false
      → assign_new max_player_id s.player_ids x.id ≡ some (h, m)
      → Joins s (on_handshake s k x name version).0 x.peer h.id name
        × HaveNull (on_handshake s k x name version).0.players
  unfolding announce replace
  on_handshake_new-Joins k x name version h m there new good given got =
      let e = on_handshake_new s k x name version h m new good given got in
      let y : Player = record x { name = name; id = h } in
      let s1 : Server = record s { players = replace k y s.players; player_ids = m } in
      let (has, unheld, _) =
        assign_new-IsPartition max_player_id (ids (erase k s.players)) x.id (split_ids v k x there)
          got in
      let free : count h.id (ids s.players) ≡ 0 = ground (
        arith,
        count-ids-erase k h.id x s.players there (key_once v k x there).0,
        count-append h.id (ids_of x.id) (ids (erase k s.players)),
      ) in
      rw e (
        record {
          messages = effects-announce s1 y;
          new = named_unheld h.id s.players free;
          lists = λ j. named-replace k j x name h s.players there new has free;
        },
        replace-HaveNull k y s.players (λ n. ground arith) all,
      )

  give_id-Changes :
      (k : ℕ) (x : Player) (name : Text)
      → find k s.players ≡ some x
      → has_id x.id ≡ false
      → Changes s (give_id s k x name none).0
  unfolding give_id
  give_id-Changes k x name there new = (
    same refl (λ j. named-rename k j x name s.players there new),
    replace-HaveNull k (record x { name = name }) s.players (find-HaveNull k x s.players there all)
        all,
  )

  on_handshake-Changes :
      (k : ℕ) (x : Player) (name version : Text)
      → find k s.players ≡ some x
      → Changes s (on_handshake s k x name version).0
  unfolding on_handshake
  on_handshake-Changes k x name version there = elim (Bool-cases (has_id x.id)) [
    | inl again ↦ rw again (disconnect-Changes s x.peer protocol_violation all)
    | inr new ↦ elim (Bool-cases (is_empty version || is_empty name)) [
      | inl bad ↦ rw (new, bad) (disconnect-Changes s x.peer protocol_violation all)
      | inr good ↦ elim (Option-cases (assign_new max_player_id s.player_ids x.id)) [
        | inl full ↦ rw (new, good, full) (give_id-Changes k x name there new)
        | inr ((h, m), got) ↦
            let (came, all') =
              on_handshake_new-Joins k x name version h m there new (ground arith) (ground arith)
                got in
            (joins x.peer h.id name came, all')
      ]
    ]
  ]

  on_chat_message-Changes : (x : Player) (message : Text) → Changes s (on_chat_message s x message)
  unfolding on_chat_message broadcast
  on_chat_message-Changes x message = elim (Bool-cases (has_id x.id)) [
    | inl known ↦
        rw known (quiet (broadcasts (s_chat_message x.id.id message)) tt refl (λ j. refl), all)
    | inr unknown ↦ rw unknown (same refl (λ j. refl), all)
  ]

  handle_message-Changes :
      (k : ℕ) (msg : NetMessage) (o : Option Player)
      → find k s.players ≡ o
      → Changes s (handle_message s k msg o).0
  unfolding handle_message
  handle_message-Changes k msg none e = (same refl (λ j. refl), all)
  handle_message-Changes k (c_handshake name version) (some x) e =
      on_handshake-Changes k x name version e
  handle_message-Changes k (c_chat_message message) (some x) e = on_chat_message-Changes x message
  handle_message-Changes k msg (some x) e = (same refl (λ j. refl), all)

  on_net_message-Changes :
      (parse : List ℕ → Option NetMessage) (peer : ℕ) (packet : List ℕ)
      → Changes s (on_net_message parse s peer packet)
  unfolding on_net_message
  on_net_message-Changes parse peer packet = elim (Option-cases (parse packet)) [
    | inl bad ↦ rw (bad, on_net_message) (same refl (λ j. refl), all)
    | inr (msg, good) ↦
        rw (good, on_net_message) (handle_message-Changes (s.peer_data peer) msg _ refl)
  ]

  pub on_event-Changes :
      (parse : List ℕ → Option NetMessage) (event : Event) → Changes s (on_event parse s event).0
  unfolding on_event
  on_event-Changes parse (connected peer version connected_peers now) =
      on_connect-Changes v all peer version connected_peers now
  on_event-Changes parse (disconnected peer code) = on_disconnect-Changes v all peer code
  on_event-Changes parse (received peer packet) = on_net_message-Changes parse peer packet
