-- ===== src/Prelude/Maps.antt =====
-- Maps from numbers as lists of pairs, with an order that nothing depends on.
use Prim.Native.Nat.{ℕ}
use mathlib.Core.Path.{◌≡◌}
use mathlib.Core.List.{List, [], ◌∷◌}
use mathlib.Core.Option.{Option, none, some}
use native.Mathlib.Omega.{arith}
use net64_coop.Prelude.Tests.{◌==◌, if◌then◌else◌}

module _ {ℓ} {A : Type ℓ} where
  -- `at` of an `unordered_map`, with `none` for its exception, and `erase`
  unfoldable pub find : ℕ → List (ℕ × A) → Option A
  find k [] = none
  find k ((j, p) ∷ ps) = if j == k then some p else find k ps

  unfoldable pub erase : ℕ → List (ℕ × A) → List (ℕ × A)
  erase k [] = []
  erase k ((j, p) ∷ ps) = let rest = erase k ps in if j == k then rest else (j, p) ∷ rest

  pub find-erase :
      (k j : ℕ) (ps : List (ℕ × A)) → find j (erase k ps) ≡ (if k == j then none else find j ps)
  unfolding find erase
  find-erase k j [] = ground arith
  find-erase k j ((i, x) ∷ ps) = ground (arith, find-erase k j ps)
