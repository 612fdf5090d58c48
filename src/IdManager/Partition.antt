-- ===== src/IdManager/Partition.antt =====
-- Who has which id: each number from 1 to `new_id` is either free or held, once.
use net64_coop.Prelude.{
  ℕ, suc, ◌+◌, ◌≤◌, ◌<◌, ◌≡◌, refl, ◌≢◌, ◌↔◌, ◌&&◌, none, some, List, [], ◌∷◌, arith, ltb, leb,
  ◌==◌, if◌then◌else◌, count,
}
use net64_coop.IdManager.{IdManager, fresh, acquire_id, acquire_from, return_id}

-- 1 for the ids that have been handed out so far, 0 for all others
abbrev pub issued : ℕ → ℕ → ℕ
issued n i = if ltb 0 i && leb i n then 1 else 0

pub record IsPartition (max : ℕ) (held : List ℕ) (m : IdManager) : Type 0 where
  pub in_range : m.new_id ≤ max
  pub parts : (i : ℕ) → count i m.free_ids + count i held ≡ issued m.new_id i

pub fresh-IsPartition : (max : ℕ) → IsPartition max [] fresh
fresh-IsPartition max = record { in_range = omega arith; parts = λ i. ground arith }

module _ (max : ℕ) (held : List ℕ) where
  acquire_from-IsPartition :
      (m m' : IdManager) (id : ℕ) (free : List ℕ)
      → m.new_id ≤ max
      → ((i : ℕ) → count i free + count i held ≡ issued m.new_id i)
      → m.free_ids ≡ free
      → acquire_from max m free ≡ some (id, m')
      → (0 < id) × (id ≤ max) × (count id held ≡ 0) × IsPartition max (id ∷ held) m'
  unfolding acquire_from
  acquire_from-IsPartition m m' id [] h p e q = (
    ground arith,
    ground arith,
    ground (arith, p id),
    record { in_range = ground arith; parts = λ i. ground (arith, p i) },
  )
  acquire_from-IsPartition m m' id (x ∷ xs) h p e q = (
    ground (arith, p id),
    ground (arith, p id),
    ground (arith, p id),
    record { in_range = ground arith; parts = λ i. ground (arith, p i) },
  )

  -- If each issued id is free or held, once, then the id that `acquire_id` returns is in 1..max and
  -- nobody holds it, and with it among the held ids each issued id is again free or held, once.
  pub acquire_id-IsPartition :
      {m m' : IdManager} {id : ℕ}
      → IsPartition max held m
      → acquire_id max m ≡ some (id, m')
      → (0 < id) × (id ≤ max) × (count id held ≡ 0) × IsPartition max (id ∷ held) m'
  unfolding acquire_id
  acquire_id-IsPartition {m} {m'} {id} v e =
      acquire_from-IsPartition m m' id m.free_ids v.in_range v.parts refl e

  acquire_from-eq-none :
      (m : IdManager) (free : List ℕ)
      → m.new_id ≤ max
      → ((i : ℕ) → count i free + count i held ≡ issued m.new_id i)
      → (acquire_from max m free ≡ none) ↔ ((i : ℕ) → 0 < i → i ≤ max → count i held ≡ 1)
  unfolding acquire_from
  acquire_from-eq-none m [] h p = (
    λ e i lo hi. ground (arith, p i),
    λ all. ground (arith, p (suc m.new_id), all (suc m.new_id)),
  )
  acquire_from-eq-none m (x ∷ xs) h p = (λ e. cc, λ all. ground (arith, p x, all x))

  -- `acquire_id` throws exactly when every id from 1 to max is held.
  pub acquire_id-eq-none :
      {m : IdManager}
      → IsPartition max held m
      → (acquire_id max m ≡ none) ↔ ((i : ℕ) → 0 < i → i ≤ max → count i held ≡ 1)
  unfolding acquire_id
  acquire_id-eq-none {m} v = acquire_from-eq-none m m.free_ids v.in_range v.parts

  -- Returning a held id keeps the partition: the id is no longer held.
  pub return_id-IsPartition :
      {m : IdManager} (id : ℕ) (rest : List ℕ)
      → ((i : ℕ) → count i held ≡ count i (id ∷ rest))
      → IsPartition max held m
      → IsPartition max rest (return_id max m id)
  unfolding return_id
  return_id-IsPartition {m} id rest e v = record {
    in_range = ground (arith, v.in_range, v.parts id, e id);
    parts = λ i. ground (arith, v.parts i, v.parts id, e i, e id);
  }

-- Takes one occurrence away.
unfoldable pub remove : ℕ → List ℕ → List ℕ
remove a [] = []
remove a (x ∷ xs) = if x == a then xs else x ∷ remove a xs

count-remove : (a i : ℕ) (xs : List ℕ) → count a xs ≢ 0 → count i xs ≡ count i (a ∷ remove a xs)
unfolding remove
count-remove a i [] h = absurd (h refl)
count-remove a i (x ∷ xs) h = ground (arith, count-remove a i xs)

-- What can happen to a manager whose users return only ids that they hold, each once.
pub data Reaches (max : ℕ) : List ℕ → IdManager → Type 0 where
  start : Reaches max [] fresh
  acquired :
      {held : List ℕ} {m m' : IdManager} {id : ℕ}
      → Reaches max held m
      → acquire_id max m ≡ some (id, m')
      → Reaches max (id ∷ held) m'
  returned :
      {held : List ℕ} {m : IdManager} (id : ℕ)
      → Reaches max held m
      → count id held ≢ 0
      → Reaches max (remove id held) (return_id max m id)

-- In every history in which only held ids are returned, each id from 1 to `new_id` is either free or
-- held, once, and no other number is; so no two holders ever have the same id.
pub Reaches-IsPartition :
    {max : ℕ} {held : List ℕ} {m : IdManager} → Reaches max held m → IsPartition max held m
Reaches-IsPartition {max} start = fresh-IsPartition max
Reaches-IsPartition (acquired r e) = (acquire_id-IsPartition _ _ (Reaches-IsPartition r) e).3
Reaches-IsPartition (returned {held = held} id r h) =
    return_id-IsPartition _ held id (remove id held) (λ i. count-remove id i held h)
      (Reaches-IsPartition r)
