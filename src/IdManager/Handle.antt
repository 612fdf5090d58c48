-- ===== src/IdManager/Handle.antt =====
-- `IdHandle` in src/common/id_manager.hpp: a handle owns its id.
use net64_coop.Prelude.{
  count-append, ℕ, ◌≡◌, refl, inl, inr, Bool, false, true, some, List, [], ◌∷◌, ◌++◌, arith, count,
  Option-cases,
}
use net64_coop.IdManager.{
  IdManager, IdHandle, has_id, acquire_id, make_handle, destroy_handle, assign_new,
}
use net64_coop.IdManager.Partition.{IsPartition, acquire_id-IsPartition, return_id-IsPartition}

-- The ids that a handle accounts for.
abbrev pub ids_of : IdHandle → List ℕ
ids_of h = elim h.attached [ true ↦ h.id ∷ [] | false ↦ [] ]

module _ (max : ℕ) (held : List ℕ) where
  made :
      (m m' : IdManager) (h : IdHandle)
      → make_handle max m ≡ some (h, m')
      → (h.attached ≡ true) × (acquire_id max m ≡ some (h.id, m'))
  unfolding make_handle
  made m m' h e = ground arith

  -- A handle made from a manager has an id, in 1..max, that nobody held.
  pub make_handle-IsPartition :
      {m m' : IdManager} {h : IdHandle}
      → IsPartition max held m
      → make_handle max m ≡ some (h, m')
      → (has_id h ≡ true) × (count h.id held ≡ 0) × IsPartition max (ids_of h ++ held) m'
  make_handle-IsPartition {m} {m'} {h} v e =
      let (attached, got) = made m m' h e in
      let (pos, below, new, part) = acquire_id-IsPartition max held v got in
      (ground arith, new, rw attached part)

  destroy_attached :
      {m : IdManager} (h : IdHandle) (b : Bool)
      → h.attached ≡ b
      → IsPartition max (elim b [ true ↦ h.id ∷ [] | false ↦ [] ] ++ held) m
      → IsPartition max held (destroy_handle max m h)
  unfolding destroy_handle
  destroy_attached {m} h true e v =
      rw e (return_id-IsPartition max (h.id ∷ held) h.id held (λ i. refl) v)
  destroy_attached h false e v = rw e v

  -- Destroying a handle gives its id back, and nothing else changes.
  pub destroy_handle-IsPartition :
      {m : IdManager} (h : IdHandle)
      → IsPartition max (ids_of h ++ held) m
      → IsPartition max held (destroy_handle max m h)
  destroy_handle-IsPartition h v = destroy_attached h h.attached refl v

IsPartition-swap :
    {max : ℕ} (xs ys held : List ℕ) {m : IdManager}
    → IsPartition max (xs ++ (ys ++ held)) m
    → IsPartition max (ys ++ (xs ++ held)) m
IsPartition-swap xs ys held v = record {
  in_range = v.in_range;
  parts = λ i. omega (
    arith,
    v.parts i,
    count-append i xs (ys ++ held),
    count-append i ys held,
    count-append i ys (xs ++ held),
    count-append i xs held,
  );
}

module _ (max : ℕ) (held : List ℕ) where
  assigned :
      (m m' : IdManager) (h h' : IdHandle)
      → assign_new max m h ≡ some (h', m')
      → (m'' : IdManager) × (make_handle max m ≡ some (h', m'')) × (m' ≡ destroy_handle max m'' h)
  unfolding assign_new
  assigned m m' h h' e = elim (Option-cases (make_handle max m)) [
    | inl none_left ↦ ground arith
    | inr ((i, n), made_it) ↦ (n, ground arith, ground arith)
  ]

  -- `h = IdHandle(manager)` leaves `h` with an id that neither `h` nor anybody else held, and what `h`
  -- held before has gone back to the manager.
  pub assign_new-IsPartition :
      {m m' : IdManager} (h : IdHandle) {h' : IdHandle}
      → IsPartition max (ids_of h ++ held) m
      → assign_new max m h ≡ some (h', m')
      → (has_id h' ≡ true)
        × (count h'.id (ids_of h ++ held) ≡ 0)
        × IsPartition max (ids_of h' ++ held) m'
  assign_new-IsPartition {m} {m'} h {h'} v e =
      let (n, made_it, gone) = assigned m m' h h' e in
      let (has, new, part) = make_handle-IsPartition max (ids_of h ++ held) v made_it in
      (
        has,
        new,
        rw gone (
            destroy_handle-IsPartition max (ids_of h' ++ held) h
              (IsPartition-swap (ids_of h') (ids_of h) held part)),
      )
