-- ===== src/Server/Replies.antt =====
-- What the other peers see: the ids of the players, and the messages that a handshake, a chat message
-- and the end of a connection cause.
use net64_coop.Prelude.{
  append_assoc, ◌∙◌, count-append, find, erase, find-erase, ℕ, ◌≤◌, ◌<◌, ◌≡◌, refl, inl, inr, ◌⊎◌,
  none, some, Option, List, [], ◌∷◌, ◌++◌, arith, ◌==◌, count, Option-cases, Bool-cases, true,
  false, Bool, map,
}
use net64_coop.IdManager.{IdManager, IdHandle, has_id, assign_new, acquire_id, make_handle}
use net64_coop.IdManager.Handle.{ids_of, assign_new-IsPartition}
use net64_coop.IdManager.Partition.{issued, acquire_id-eq-none}
use net64_coop.Net.{
  NetMessage, ServerDisconnectCode, ListedPlayer, Text, is_empty, s_handshake, s_player_list,
  s_client_connected,
}
use net64_coop.Server.{
  Player, Players, Server, Event, max_player_id, sends, broadcasts, replace, on_handshake, give_id,
  announce, tick, send, broadcast, make_server, set_max_peers, set_accept_new, disconnect_all,
}
use net64_coop.Server.Players.{ids, find-replace, count-ids-erase}
use net64_coop.Server.Invariant.{IsSound, effects-IsSound, key_once, split_ids, make_server-IsSound}
use net64_coop.Server.Steps.{tick-IsSound, AllFit}

pub count_found :
    (k : ℕ) (y : Player) (ps : Players)
    → find k ps ≡ some y
    → has_id y.id ≡ true
    → 0 < count y.id.id (ids ps)
unfolding find
count_found k y [] h t = cc
count_found k y ((j, z) ∷ ps) h t =
    ground (arith, count_found k y ps, count-append y.id.id (ids_of z.id) (ids ps))

count_own : (h : IdHandle) → has_id h ≡ true → count h.id (ids_of h) ≡ 1
count_own h t = ground arith

pub issued_once : (n i : ℕ) → issued n i ≤ 1
issued_once n i = ground arith

ids_unique :
    {s : Server} (v : IsSound s) (j k : ℕ) (x y : Player)
    → find j s.players ≡ some x
    → find k s.players ≡ some y
    → has_id x.id ≡ true
    → has_id y.id ≡ true
    → x.id.id ≡ y.id.id
    → j ≡ k
ids_unique {s} v j k x y hx hy tx ty same = elim (Bool-cases (j == k)) [
  | inl eq ↦ ground arith
  | inr ne ↦
      let other : find k (erase j s.players) ≡ some y = ground (arith, find-erase j k s.players) in
      absurd (
        ground (
          arith,
          (split_ids v j x hx).parts x.id.id,
          count-append x.id.id (ids_of x.id) (ids (erase j s.players)),
          count_own x.id tx,
          count_found k y (erase j s.players) other ty,
          issued_once s.player_ids.new_id x.id.id,
        ))
]

-- What the users of a server do with it: ticks and changes of its settings.
pub data Reaches (parse : List ℕ → Option NetMessage) : Server → Type 0 where
  start : (n : ℕ) → Reaches parse (make_server n)
  ticked :
      (s : Server) (events : List Event)
      → Reaches parse s
      → AllFit parse s events
      → Reaches parse (tick parse s events).0
  sized : (s : Server) (n : ℕ) → Reaches parse s → Reaches parse (set_max_peers s n)
  opened : (s : Server) (b : Bool) → Reaches parse s → Reaches parse (set_accept_new s b)
  dismissed :
      (s : Server) (code : ServerDisconnectCode)
      → Reaches parse s
      → Reaches parse (disconnect_all s code)

reached-IsSound : {parse : List ℕ → Option NetMessage} {s : Server} → Reaches parse s → IsSound s
unfolding set_max_peers set_accept_new disconnect_all
reached-IsSound (start n) = make_server-IsSound n
reached-IsSound (ticked s events r fits) = (tick-IsSound _ events s (reached-IsSound r) fits).0
reached-IsSound (sized s n r) =
    let v = reached-IsSound r in
    record {
      peer_part = v.peer_part;
      player_part = v.player_part;
      linked = v.linked;
      owned = v.owned;
    }
reached-IsSound (opened s b r) =
    let v = reached-IsSound r in
    record {
      peer_part = v.peer_part;
      player_part = v.player_part;
      linked = v.linked;
      owned = v.owned;
    }
reached-IsSound (dismissed s code r) = effects-IsSound _ (reached-IsSound r)

-- In every server that ticks, changes of its settings and `disconnect_all` lead to, two players that
-- have an id have different ids.
pub Reaches-ids_unique :
    (parse : List ℕ → Option NetMessage) (s : Server) (r : Reaches parse s) (j k : ℕ) (x y : Player)
    → find j s.players ≡ some x
    → find k s.players ≡ some y
    → has_id x.id ≡ true
    → has_id y.id ≡ true
    → x.id.id ≡ y.id.id
    → j ≡ k
Reaches-ids_unique parse s r = ids_unique (reached-IsSound r)

abbrev pub listing : Players → List ListedPlayer
listing ps = map (λ (kp : ℕ × Player). record { id = kp.1.id.id; name = kp.1.name }) ps

find-announce : (s : Server) (x : Player) (k : ℕ) → find k (announce s x).players ≡ find k s.players
unfolding announce send broadcast
find-announce s x k = refl

pub effects-announce :
    (s : Server) (x : Player)
    → (announce s x).effects
      ≡ s.effects
        ++ (sends x.peer (s_handshake x.id.id)
            ∷ sends x.peer (s_player_list (listing (announce s x).players))
            ∷ broadcasts (s_client_connected x.id.id x.name)
            ∷ [])
unfolding announce send broadcast
effects-announce s x =
    append_assoc (s.effects ++ (_ ∷ [])) (_ ∷ []) (_ ∷ [])
    ∙ append_assoc s.effects (_ ∷ []) (_ ∷ _ ∷ [])

pub assign_new_full :
    (max : ℕ) (m : IdManager) (h : IdHandle) → assign_new max m h ≡ none → acquire_id max m ≡ none
unfolding assign_new make_handle
assign_new_full max m h e = elim (Option-cases (acquire_id max m)) [
  | inl full ↦ full
  | inr ((i, n), got) ↦ ground arith
]

pub on_handshake_new :
    (s : Server) (k : ℕ) (x : Player) (name version : Text) (h : IdHandle) (m : IdManager)
    → has_id x.id ≡ false
    → is_empty version ≡ false
    → is_empty name ≡ false
    → assign_new max_player_id s.player_ids x.id ≡ some (h, m)
    → on_handshake s k x name version ≡ (
      announce
          (record s {
            players = replace k (record x { name = name; id = h }) s.players;
            player_ids = m;
          })
          (record x { name = name; id = h }),
      none,
    )
unfolding on_handshake give_id
on_handshake_new s k x name version h m new good named got = rw (new, good, named, got) refl

-- A valid first handshake in a sound server stores the name with an id that no player has, and sends
-- the id and the list of all players to the peer and the newcomer to everyone, in that order; or
-- all ids are held.
pub handshake_answered :
    {s : Server} (v : IsSound s) (k : ℕ) (x : Player) (name version : Text)
    → find k s.players ≡ some x
    → has_id x.id ≡ false
    → is_empty version ≡ false
    → is_empty name ≡ false
    → ((h : IdHandle) × (find k (on_handshake s k x name version).0.players
          ≡ some (record x { name = name; id = h }))
        × (has_id h ≡ true)
        × (count h.id (ids s.players) ≡ 0)
        × ((on_handshake s k x name version).1 ≡ none)
        × ((on_handshake s k x name version).0.effects
            ≡ s.effects
              ++ (sends x.peer (s_handshake h.id)
                  ∷ sends x.peer
                      (s_player_list (listing (on_handshake s k x name version).0.players))
                  ∷ broadcasts (s_client_connected h.id name)
                  ∷ [])))
      ⊎ ((i : ℕ) → 0 < i → i ≤ max_player_id → count i (ids s.players) ≡ 1)
handshake_answered {s} v k x name version there new good named =
    elim (Option-cases (assign_new max_player_id s.player_ids x.id)) [
      | inl full ↦ inr (λ i lo hi. ground (
        arith,
        (acquire_id-eq-none max_player_id _ v.player_part).0 (assign_new_full _ _ _ full) i,
      ))
      | inr ((h, m), got) ↦
          let e = on_handshake_new s k x name version h m new good named got in
          let y : Player = record x { name = name; id = h } in
          let (has, unheld, _) =
            assign_new-IsPartition max_player_id (ids (erase k s.players)) x.id
              (split_ids v k x there) got in
          inl (
            h,
            rw (e, find-announce _ y k) (ground (arith, find-replace k k y x s.players)),
            has,
            ground (
              arith,
              count-ids-erase k h.id x s.players there (key_once v k x there).0,
              count-append h.id (ids_of x.id) (ids (erase k s.players)),
            ),
            rw e refl,
            rw e
                (effects-announce (record s { players = replace k y s.players; player_ids = m }) y),
          )
    ]
