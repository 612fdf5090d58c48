-- ===== src/Server/Invariant.antt =====
-- What holds of a server between two events, and that every event keeps it.
use net64_coop.Prelude.{
  count-append, find, erase, ℕ, ◌≡◌, ◌≢◌, refl, inl, inr, some, List, ◌++◌, arith, ◌==◌, count,
  Bool-cases,
}
use net64_coop.IdManager.{IdManager}
use net64_coop.IdManager.Handle.{ids_of}
use net64_coop.IdManager.Partition.{IsPartition, fresh-IsPartition}
use net64_coop.Server.{Player, Server, Effect, max_peer_id, max_player_id, make_server, replace}
use net64_coop.Server.Players.{
  keys, ids, find-replace, keys-replace, find_absent, count-ids-replace, count-ids-erase,
  IsPartition-same,
}

-- The keys of the players are the peer ids that are held, and their handles hold the player ids that
-- are held; a peer whose data is not null has the player under that key, and each player's peer has
-- its key as data.
pub record IsSound (s : Server) : Type 0 where
  pub peer_part : IsPartition max_peer_id (keys s.players) s.peer_ids
  pub player_part : IsPartition max_player_id (ids s.players) s.player_ids
  pub linked :
      (peer : ℕ)
      → s.peer_data peer ≢ 0
      → (x : Player) × (find (s.peer_data peer) s.players ≡ some x) × (x.peer ≡ peer)
  pub owned : (k : ℕ) (x : Player) → find k s.players ≡ some x → s.peer_data x.peer ≡ k

pub make_server-IsSound : (n : ℕ) → IsSound (make_server n)
unfolding find
make_server-IsSound n = record {
  peer_part = fresh-IsPartition max_peer_id;
  player_part = fresh-IsPartition max_player_id;
  linked = λ peer h. absurd (h refl);
  owned = λ k x h. cc;
}

pub effects-IsSound :
    {s : Server} (es : List Effect) → IsSound s → IsSound (record s { effects = es })
effects-IsSound es v = record {
  peer_part = v.peer_part;
  player_part = v.player_part;
  linked = v.linked;
  owned = v.owned;
}

module _ {s : Server} (v : IsSound s) where
  -- A key that is found stands there once, and is not 0.
  pub key_once :
      (k : ℕ) (x : Player) → find k s.players ≡ some x → (count k (keys s.players) ≡ 1) × (k ≢ 0)
  key_once k x h = ground (arith, v.peer_part.parts k, find_absent k s.players)

  pub replace-IsSound :
      (k : ℕ) (x y : Player) (m : IdManager)
      → find k s.players ≡ some x
      → y.peer ≡ x.peer
      → IsPartition max_player_id (ids (replace k y s.players)) m
      → IsSound (record s { players = replace k y s.players; player_ids = m })
  replace-IsSound k x y m h e part = record {
    peer_part = rw (keys-replace k y s.players) v.peer_part;
    player_part = part;
    linked = λ peer d.
        let (z, there, same) = v.linked peer d in
        elim (Bool-cases (k == s.peer_data peer)) [
          | inl hit ↦
              (y, ground (arith, find-replace k (s.peer_data peer) y x s.players), ground arith)
          | inr miss ↦ (z, ground (arith, find-replace k (s.peer_data peer) y x s.players), same)
        ];
    owned = λ j z there. ground (arith, find-replace k j y x s.players, v.owned j z, v.owned k x);
  }

  -- The player ids that the other players hold.
  pub split_ids :
      (k : ℕ) (x : Player)
      → find k s.players ≡ some x
      → IsPartition max_player_id (ids_of x.id ++ ids (erase k s.players)) s.player_ids
  split_ids k x h =
      IsPartition-same (ids s.players) _
        (λ i. omega (
          arith,
          count-ids-erase k i x s.players h (key_once k x h).0,
          count-append i (ids_of x.id) (ids (erase k s.players)),
        ))
        v.player_part

  pub join_ids :
      (k : ℕ) (x y : Player) (m : IdManager)
      → find k s.players ≡ some x
      → IsPartition max_player_id (ids_of y.id ++ ids (erase k s.players)) m
      → IsPartition max_player_id (ids (replace k y s.players)) m
  join_ids k x y m h = IsPartition-same _ _ (λ i. omega (
    arith,
    count-ids-erase k i x s.players h (key_once k x h).0,
    count-ids-replace k i y x s.players h,
    count-append i (ids_of y.id) (ids (erase k s.players)),
  ))
