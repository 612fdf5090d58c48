-- ===== src/Server/Players.antt =====
-- Laws of the map of players: its keys, and the player ids that its handles own.
use net64_coop.Prelude.{
  count-append, find, erase, ℕ, ◌+◌, ◌≡◌, refl, none, some, List, [], ◌∷◌, ◌++◌, arith, ◌==◌,
  if◌then◌else◌, count,
}
use net64_coop.IdManager.{IdManager}
use net64_coop.IdManager.Handle.{ids_of}
use net64_coop.IdManager.Partition.{IsPartition}
use net64_coop.Server.{Player, Players, replace}

abbrev pub keys : Players → List ℕ
keys [] = []
keys ((k, x) ∷ ps) = k ∷ keys ps

abbrev pub ids : Players → List ℕ
ids [] = []
ids ((k, x) ∷ ps) = ids_of x.id ++ ids ps

pub find-cons :
    (k j : ℕ) (x : Player) (ps : Players)
    → find j ((k, x) ∷ ps) ≡ (if k == j then some x else find j ps)
unfolding find
find-cons k j x ps = refl

pub find-replace :
    (k j : ℕ) (x y : Player) (ps : Players)
    → find k ps ≡ some y
    → find j (replace k x ps) ≡ (if k == j then some x else find j ps)
unfolding find replace
find-replace k j x y [] h = cc
find-replace k j x y ((i, z) ∷ ps) h = ground (arith, find-replace k j x y ps)

pub keys-replace : (k : ℕ) (x : Player) (ps : Players) → keys (replace k x ps) ≡ keys ps
unfolding replace
keys-replace k x [] = refl
keys-replace k x ((i, z) ∷ ps) = ground (arith, keys-replace k x ps)

pub count-keys-erase :
    (k i : ℕ) (ps : Players)
    → count i (keys (erase k ps)) ≡ (if k == i then 0 else count i (keys ps))
unfolding erase
count-keys-erase k i [] = ground arith
count-keys-erase k i ((j, x) ∷ ps) = ground (arith, count-keys-erase k i ps)

pub find_absent : (k : ℕ) (ps : Players) → count k (keys ps) ≡ 0 → find k ps ≡ none
unfolding find
find_absent k [] h = refl
find_absent k ((j, x) ∷ ps) h = ground (arith, find_absent k ps)

pub erase_absent : (k : ℕ) (ps : Players) → count k (keys ps) ≡ 0 → erase k ps ≡ ps
unfolding erase
erase_absent k [] h = refl
erase_absent k ((j, x) ∷ ps) h = ground (arith, erase_absent k ps)

pub count-ids-replace :
    (k i : ℕ) (x y : Player) (ps : Players)
    → find k ps ≡ some y
    → count i (ids (replace k x ps)) + count i (ids_of y.id)
      ≡ count i (ids ps) + count i (ids_of x.id)
unfolding find replace
count-ids-replace k i x y [] h = cc
count-ids-replace k i x y ((j, z) ∷ ps) h = ground (
  arith,
  count-ids-replace k i x y ps,
  count-append i (ids_of z.id) (ids ps),
  count-append i (ids_of x.id) (ids ps),
  count-append i (ids_of z.id) (ids (replace k x ps)),
)

pub count-ids-erase :
    (k i : ℕ) (y : Player) (ps : Players)
    → find k ps ≡ some y
    → count k (keys ps) ≡ 1
    → count i (ids (erase k ps)) + count i (ids_of y.id) ≡ count i (ids ps)
unfolding find erase
count-ids-erase k i y [] h one = cc
count-ids-erase k i y ((j, z) ∷ ps) h one = ground (
  arith,
  count-ids-erase k i y ps,
  erase_absent k ps,
  count-append i (ids_of z.id) (ids ps),
  count-append i (ids_of z.id) (ids (erase k ps)),
)

-- Two lists with the same elements, as often, are held alike.
pub IsPartition-same :
    {max : ℕ} {m : IdManager} (xs ys : List ℕ)
    → ((i : ℕ) → count i xs ≡ count i ys)
    → IsPartition max xs m
    → IsPartition max ys m
IsPartition-same xs ys same v = record {
  in_range = v.in_range;
  parts = λ i. omega (arith, v.parts i, same i);
}
