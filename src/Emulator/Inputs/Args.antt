-- ===== src/Emulator/Inputs/Args.antt =====
-- What `get_args` finds in a text that is spelled field by field, and that its loop ends.
use net64_coop.Prelude.{
  ℕ, zero, suc, ◌+◌, ◌≤◌, ◌<◌, ◌≡◌, refl, ap, ◌⊎◌, inl, inr, false, some, List, [], ◌∷◌, ◌++◌,
  arith, length, length-append, Option-cases,
}
use net64_coop.Net.{Text}
use net64_coop.Text.{has}
use net64_coop.Emulator.Inputs.{skip_separators, split_arg, split_args, args_behind}

-- A text with no separator and no closing parenthesis; it may be empty.
abbrev pub IsField : Text → Type 0
IsField t = (has 44 t ≡ false) × (has 32 t ≡ false) × (has 41 t ≡ false)

-- Each field behind its separator, a comma or a space.
abbrev pub AreFields : List (ℕ × Text) → Type 0
AreFields [] = Unit
AreFields ((d, t) ∷ fields) = ((d ≡ 44) ⊎ (d ≡ 32)) × IsField t × AreFields fields

abbrev pub spell : List (ℕ × Text) → Text
spell [] = 41 ∷ []
spell ((d, t) ∷ fields) = d ∷ (t ++ spell fields)

-- The fields that are not empty.
abbrev pub words : List (ℕ × Text) → List Text
words [] = []
words ((d, []) ∷ fields) = words fields
words ((d, c ∷ t) ∷ fields) = (c ∷ t) ∷ words fields

split_arg-spell :
    (t : Text) (fields : List (ℕ × Text))
    → IsField t
    → AreFields fields
    → split_arg (t ++ spell fields) ≡ some (t, spell fields)
unfolding split_arg has
split_arg-spell [] [] h hs = refl
split_arg-spell [] ((d, u) ∷ fields) h (inl e, k, hs) = ground arith
split_arg-spell [] ((d, u) ∷ fields) h (inr e, k, hs) = ground arith
split_arg-spell (c ∷ t) fields h hs = ground (arith, split_arg-spell t fields)

skip-separator :
    (f d : ℕ) (s : Text) → (d ≡ 44) ⊎ (d ≡ 32) → split_args (suc f) (d ∷ s) ≡ split_args (suc f) s
unfolding split_args skip_separators
skip-separator f d s (inl e) = rw (e, split_args) refl
skip-separator f d s (inr e) = rw (e, split_args) refl

split_args-word :
    (f c : ℕ) (t : Text) (fields : List (ℕ × Text))
    → IsField (c ∷ t)
    → AreFields fields
    → split_args (suc f) ((c ∷ t) ++ spell fields) ≡ (c ∷ t) ∷ split_args f (spell fields)
unfolding split_args skip_separators has
split_args-word f c t fields h hs = ground (arith, split_arg-spell (c ∷ t) fields h hs)

pub split_args-spell :
    (fields : List (ℕ × Text)) (f : ℕ)
    → AreFields fields
    → length fields < f
    → split_args f (spell fields) ≡ words fields
split_args-spell fields zero hs lt = absurd (omega arith)
split_args-spell [] (suc f) hs lt = unfold split_args skip_separators split_arg in refl
split_args-spell ((d, []) ∷ fields) (suc f) (sep, h, hs) lt =
    rw (skip-separator f d (spell fields) sep) (split_args-spell fields (suc f) hs (omega arith))
split_args-spell ((d, c ∷ t) ∷ fields) (suc f) (sep, h, hs) lt =
    rw (skip-separator f d ((c ∷ t) ++ spell fields) sep) (
      rw (split_args-word f c t fields h hs) (rw (split_args-spell fields f hs (omega arith)) refl))

length-spell : (fields : List (ℕ × Text)) → length fields + 1 ≤ length (spell fields)
length-spell [] = omega arith
length-spell ((d, t) ∷ fields) = omega (arith, length-append t (spell fields), length-spell fields)

args_behind-long : (s : Text) → 1 < length s → args_behind s ≡ split_args (length s) s
unfolding args_behind
args_behind-long s h = ground arith

-- The arguments of a text are its fields that are not empty.
pub args_behind-spell :
    (t : Text) (fields : List (ℕ × Text))
    → IsField t
    → AreFields fields
    → args_behind (t ++ spell fields) ≡ words ((44, t) ∷ fields)
args_behind-spell [] [] h hs = unfold args_behind in refl
args_behind-spell [] ((d, u) ∷ fields) h hs =
    let long = length-spell ((d, u) ∷ fields) in
    rw (args_behind-long (spell ((d, u) ∷ fields)) (omega arith))
      (split_args-spell ((d, u) ∷ fields) (length (spell ((d, u) ∷ fields))) hs (omega arith))
args_behind-spell (c ∷ t) fields h hs =
    let long = length-spell fields in
    let n = length-append t (spell fields) in
    rw (args_behind-long ((c ∷ t) ++ spell fields) (omega arith)) (
      rw (split_args-word (length (t ++ spell fields)) c t fields h hs)
        (rw (split_args-spell fields (length (t ++ spell fields)) hs (omega arith)) refl))

length-skip : (s : Text) → length (skip_separators s) ≤ length s
unfolding skip_separators
length-skip [] = omega arith
length-skip (c ∷ s) = ground (arith, length-skip s)

length-split_arg :
    (s arg rest : Text) → split_arg s ≡ some (arg, rest) → length arg + length rest ≡ length s
unfolding split_arg
length-split_arg [] arg rest h = cc
length-split_arg (c ∷ s) arg rest h = elim (Option-cases (split_arg s)) [
  | inl e ↦ ground arith
  | inr ((a, r), e) ↦ ground (arith, length-split_arg s a r e)
]

-- Rounds beyond the length of the text find no further argument: the loop has ended.
pub split_args_ended :
    (f g : ℕ) (s : Text) → length s ≤ f → length s ≤ g → split_args f s ≡ split_args g s
unfolding split_args
split_args_ended zero zero s hf hg = refl
split_args_ended zero (suc g) [] hf hg = unfold skip_separators split_arg in refl
split_args_ended zero (suc g) (c ∷ s) hf hg = absurd (omega arith)
split_args_ended (suc f) zero [] hf hg = unfold skip_separators split_arg in refl
split_args_ended (suc f) zero (c ∷ s) hf hg = absurd (omega arith)
split_args_ended (suc f) (suc g) s hf hg = elim (Option-cases (split_arg (skip_separators s))) [
  | inl e ↦ rw (e, split_args) refl
  | inr (([], rest), e) ↦ rw (e, split_args) refl
  | inr ((c ∷ arg, rest), e) ↦
      let short = length-split_arg (skip_separators s) (c ∷ arg) rest e in
      let le = length-skip s in
      rw (e, split_args)
        (ap (λ more. (c ∷ arg) ∷ more) (split_args_ended f g rest (omega arith) (omega arith)))
]
