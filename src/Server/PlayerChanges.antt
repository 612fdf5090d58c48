-- ===== src/Server/PlayerChanges.antt =====
-- A player that gets its id, or that goes, leaves a sound server sound.
use net64_coop.Prelude.{
  find, erase, find-erase, ℕ, ◌≡◌, refl, inl, inr, none, some, Option, arith, ◌==◌, Bool-cases,
  ◌||◌,
}
use net64_coop.IdManager.{IdManager, IdHandle, has_id, assign_new}
use net64_coop.IdManager.Handle.{assign_new-IsPartition, destroy_handle-IsPartition}
use net64_coop.IdManager.Partition.{return_id-IsPartition}
use net64_coop.Net.{Text, is_empty}
use net64_coop.Server.{
  Player, Server, max_peer_id, max_player_id, destroy_player, on_handshake, give_id,
}
use net64_coop.Server.Players.{keys, ids, count-keys-erase}
use net64_coop.Server.Invariant.{
  IsSound, effects-IsSound, key_once, replace-IsSound, split_ids, join_ids,
}

module _ {s : Server} (v : IsSound s) where
  module _ (k : ℕ) (x : Player) (h : find k s.players ≡ some x) where
    give_id-IsSound :
        (name : Text) (o : Option (IdHandle × IdManager))
        → assign_new max_player_id s.player_ids x.id ≡ o
        → IsSound (give_id s k x name o).0
    unfolding give_id
    give_id-IsSound name none e =
        replace-IsSound v k x (record x { name = name }) s.player_ids h refl
          (join_ids v k x (record x { name = name }) s.player_ids h (split_ids v k x h))
    give_id-IsSound name (some (i, m)) e =
        let y : Player = record x { name = name; id = i } in
        let (_, _, part) =
          assign_new-IsPartition max_player_id (ids (erase k s.players)) x.id (split_ids v k x h)
            e in
        effects-IsSound _ (replace-IsSound v k x y m h refl (join_ids v k x y m h part))

    pub on_handshake-IsSound : (name version : Text) → IsSound (on_handshake s k x name version).0
    unfolding on_handshake
    on_handshake-IsSound name version = elim (Bool-cases (has_id x.id)) [
      | inl again ↦ rw again (effects-IsSound _ v)
      | inr new ↦ elim (Bool-cases (is_empty version || is_empty name)) [
        | inl bad ↦ rw (new, bad) (effects-IsSound _ v)
        | inr good ↦
            rw (new, good) (give_id-IsSound name (assign_new max_player_id s.player_ids x.id) refl)
      ]
    ]

    pub destroy_player-IsSound :
        (peer : ℕ) → s.peer_data peer ≡ k → x.peer ≡ peer → IsSound (destroy_player s peer x)
    unfolding destroy_player
    destroy_player-IsSound peer d p =
        let (once, _) = key_once v k x h in
        record {
          peer_part = rw d (
              return_id-IsPartition max_peer_id (keys s.players) k (keys (erase k s.players))
                (λ i. ground (arith, count-keys-erase k i s.players)) v.peer_part);
          player_part = rw d (
              destroy_handle-IsPartition max_player_id (ids (erase k s.players)) x.id
                (split_ids v k x h));
          linked = λ q e. elim (Bool-cases (q == peer)) [
            | inl hit ↦ absurd (e (rw hit))
            | inr miss ↦
                let (y, there, same) = v.linked q (rw miss at e) in
                (
                  y,
                  rw miss (ground (arith, find-erase (s.peer_data peer) (s.peer_data q) s.players)),
                  same,
                )
          ];
          owned = λ j z there. ground (arith, find-erase k j s.players, v.owned j z);
        }
