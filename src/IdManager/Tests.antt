-- ===== src/IdManager/Tests.antt =====
-- Runs of the id manager, and the theorems at concrete inputs.
use net64_coop.Prelude.{◌≡◌, refl, [], ◌∷◌, arith}
use net64_coop.IdManager.{IdManager, acquire_id, return_id}
use net64_coop.IdManager.Partition.{
  IsPartition, start, acquired, returned, remove, Reaches-IsPartition,
}

-- Ids 1, 2 and 3 handed out, 2 given back.
abbrev one_back : IdManager
one_back = record { new_id = 3; free_ids = 2 ∷ [] }

history-IsPartition_example : IsPartition 65535 (3 ∷ 1 ∷ []) one_back
unfolding acquire_id return_id remove
history-IsPartition_example =
    Reaches-IsPartition
      (returned 2 (acquired (acquired (acquired start refl) refl) refl) (omega arith))

top_is_given_back : return_id 65535 one_back 3 ≡ record { new_id = 2; free_ids = 2 ∷ [] }
unfolding return_id
top_is_given_back = refl
