-- ===== src/IdManager.antt =====
-- src/common/id_manager.hpp: `IdManager<Id>` and the RAII `IdHandle<Id>`. `max` is
-- `std::numeric_limits<Id>::max()`, and `none` stands for the `std::runtime_error` "No ids left".
-- The head of `free_ids` is the back of the vector.
pub mod Partition
pub mod Handle
mod Tests
use net64_coop.Prelude.{
  ℕ, ◌+◌, ◌-◌, Bool, false, true, Option, none, some, List, [], ◌∷◌, ◌==◌, if◌then◌else◌,
}

pub record IdManager : Type 0 where
  pub new_id : ℕ
  pub free_ids : List ℕ

abbrev pub fresh : IdManager
fresh = record { new_id = 0; free_ids = [] }

module _ (max : ℕ) where
  -- `++` and `--` on `Id`, which is unsigned and wraps
  abbrev pub inc : ℕ → ℕ
  inc id = if id == max then 0 else id + 1

  abbrev pub dec : ℕ → ℕ
  dec id = if id == 0 then max else id - 1

  pub acquire_new : IdManager → Option (ℕ × IdManager)
  acquire_new m =
      if m.new_id == max then none else some (inc m.new_id, record m { new_id = inc m.new_id })

  acquire_from : IdManager → List ℕ → Option (ℕ × IdManager)
  unfolding acquire_new
  acquire_from m [] = acquire_new m
  acquire_from m (id ∷ rest) = some (id, record m { free_ids = rest })

  unfoldable pub acquire_id : IdManager → Option (ℕ × IdManager)
  unfolding acquire_from
  acquire_id m = acquire_from m m.free_ids

  unfoldable pub return_id : IdManager → ℕ → IdManager
  return_id m id =
      if id == m.new_id
      then record m { new_id = dec m.new_id }
      else record m { free_ids = id ∷ m.free_ids }

-- A handle that holds an id of one manager: `attached` is `manager_ != nullptr`.
pub record IdHandle : Type 0 where
  pub attached : Bool
  pub id : ℕ

abbrev pub detached : IdHandle
detached = record { attached = false; id = 0 }

abbrev pub has_id : IdHandle → Bool
has_id h = if h.attached then (if h.id == 0 then false else true) else false

-- What two handles are after `swap`; the first is `*this` in the move constructor and the assignment.
abbrev pub swap : IdHandle → IdHandle → IdHandle × IdHandle
swap first second = (second, first)

abbrev pub move_construct : IdHandle → IdHandle × IdHandle
move_construct other = swap detached other

abbrev pub move_assign : IdHandle → IdHandle → IdHandle × IdHandle
move_assign this other = swap this other

module _ (max : ℕ) where
  unfoldable pub make_handle : IdManager → Option (IdHandle × IdManager)
  make_handle m = elim (acquire_id max m) [
    | none ↦ none
    | some (i, m') ↦ some (record { attached = true; id = i }, m')
  ]

  -- the destructor
  unfoldable pub destroy_handle : IdManager → IdHandle → IdManager
  destroy_handle m h = if h.attached then return_id max m h.id else m

  -- `h = IdHandle(manager)`: a new handle is made, the two are swapped by the assignment, and the old
  -- value is destroyed with the temporary
  unfoldable pub assign_new : IdManager → IdHandle → Option (IdHandle × IdManager)
  assign_new m h = elim (make_handle m) [
    | none ↦ none
    | some (h', m') ↦
        let (this, temporary) = move_assign h h' in some (this, destroy_handle m' temporary)
  ]
