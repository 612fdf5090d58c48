-- ===== src/Emulator/Inputs/Padding.antt =====
-- NUL characters behind a text, as `ConfigSection::get_string` returns it, do not change how it is read.
use net64_coop.Prelude.{
  ◌-◌, ℕ, zero, suc, ◌≡◌, refl, sym, ap, ◌∙◌, false, ◌||◌, Option, none, some, List, [], ◌∷◌, ◌++◌,
  arith, ◌==◌, length, length-append, Option-cases, Bool-cases, inl, inr,
}
use net64_coop.Net.{Text}
use net64_coop.Text.{codes, nuls, padded, has, starts_with, contains}
use net64_coop.Emulator.Inputs.{
  Input, no_input, Outcome, ok, past_paren, skip_separators, split_arg, split_args, args_behind,
  get_args, parse_kind, parse_sdl_input,
}
use net64_coop.Emulator.Inputs.Args.{split_args_ended}

starts_with-nuls :
    (p s : Text) (z : ℕ) → has 0 p ≡ false → starts_with p (s ++ nuls z) ≡ starts_with p s
unfolding starts_with has
starts_with-nuls [] s z h = refl
starts_with-nuls (a ∷ p) [] zero h = refl
starts_with-nuls (a ∷ p) [] (suc z) h = ground arith
starts_with-nuls (a ∷ p) (b ∷ s) z h = ground (arith, starts_with-nuls p s z)

contains-nuls :
    (a : ℕ) (p s : Text) (z : ℕ)
    → has 0 (a ∷ p) ≡ false
    → contains (a ∷ p) (s ++ nuls z) ≡ contains (a ∷ p) s
unfolding contains
contains-nuls a p [] zero h = refl
contains-nuls a p [] (suc z) h =
    let rest = contains-nuls a p [] z h in
    let none_here = starts_with-nuls (a ∷ p) [] (suc z) h in
    rw none_here (rw rest (unfold starts_with in refl))
contains-nuls a p (b ∷ s) z h =
    rw (starts_with-nuls (a ∷ p) (b ∷ s) z h)
      (ap (λ c. starts_with (a ∷ p) (b ∷ s) || c) (contains-nuls a p s z h))

skip-nuls : (s : Text) (z : ℕ) → skip_separators (s ++ nuls z) ≡ skip_separators s ++ nuls z
unfolding skip_separators
skip-nuls [] zero = refl
skip-nuls [] (suc z) = refl
skip-nuls (c ∷ s) z = ground (arith, skip-nuls s z)

abbrev padded_arg : ℕ → Option (Text × Text) → Option (Text × Text)
padded_arg z none = none
padded_arg z (some (arg, rest)) = some (arg, rest ++ nuls z)

split_arg-nuls : (s : Text) (z : ℕ) → split_arg (s ++ nuls z) ≡ padded_arg z (split_arg s)
unfolding split_arg
split_arg-nuls [] zero = refl
split_arg-nuls [] (suc z) = let rest = split_arg-nuls [] z in rw (rest, split_arg) refl
split_arg-nuls (c ∷ s) z = elim (Option-cases (split_arg s)) [
  | inl e ↦ ground (arith, split_arg-nuls s z)
  | inr ((a, r), e) ↦ ground (arith, split_arg-nuls s z)
]

split_args-nuls : (f : ℕ) (s : Text) (z : ℕ) → split_args f (s ++ nuls z) ≡ split_args f s
unfolding split_args
split_args-nuls zero s z = refl
split_args-nuls (suc f) s z =
    let split = ap split_arg (skip-nuls s z) ∙ split_arg-nuls (skip_separators s) z in
    elim (Option-cases (split_arg (skip_separators s))) [
      | inl e ↦ rw (split ∙ ap (padded_arg z) e, split_args) (rw (e, split_args) refl)
      | inr (([], rest), e) ↦ rw (split ∙ ap (padded_arg z) e, split_args) (rw (e, split_args) refl)
      | inr ((c ∷ arg, rest), e) ↦
          rw (split ∙ ap (padded_arg z) e, split_args)
            (rw (e, split_args) (ap (λ more. (c ∷ arg) ∷ more) (split_args-nuls f rest z)))
    ]

-- A remainder of one character has no argument in the loop either.
args_behind-eq-split_args : (s : Text) → args_behind s ≡ split_args (length s) s
unfolding args_behind split_args skip_separators split_arg
args_behind-eq-split_args [] = refl
args_behind-eq-split_args (c ∷ []) = ground arith
args_behind-eq-split_args (c ∷ d ∷ s) = ground arith

args_behind-nuls : (s : Text) (z : ℕ) → args_behind (s ++ nuls z) ≡ args_behind s
args_behind-nuls s z =
    let n = length-append s (nuls z) in
    args_behind-eq-split_args (s ++ nuls z)
    ∙ split_args-nuls (length (s ++ nuls z)) s z
    ∙ split_args_ended (length (s ++ nuls z)) (length s) s (omega arith) (omega arith)
    ∙ sym (args_behind-eq-split_args s)

abbrev padded_rest : ℕ → Option Text → Option Text
padded_rest z none = none
padded_rest z (some t) = some (t ++ nuls z)

past_paren-nuls : (s : Text) (z : ℕ) → past_paren (s ++ nuls z) ≡ padded_rest z (past_paren s)
unfolding past_paren
past_paren-nuls [] zero = refl
past_paren-nuls [] (suc z) = let rest = past_paren-nuls [] z in rw (rest, past_paren) refl
past_paren-nuls (c ∷ s) z = elim (Bool-cases (c == 40)) [
  | inl e ↦ rw e refl
  | inr e ↦ rw e (past_paren-nuls s z)
]

get_args-nuls : (s : Text) (z : ℕ) → get_args (s ++ nuls z) ≡ get_args s
unfolding get_args
get_args-nuls s z = elim (Option-cases (past_paren s)) [
  | inl e ↦
      rw (past_paren-nuls s z ∙ ap (padded_rest z) e, get_args)
        (rw (e, get_args) (args_behind-nuls s z))
  | inr (t, e) ↦
      rw (past_paren-nuls s z ∙ ap (padded_rest z) e, get_args)
        (rw (e, get_args) (args_behind-nuls t z))
]

parse_kind-nuls :
    (s : Text) (z : ℕ) (args : List Text) → parse_kind (s ++ nuls z) args ≡ parse_kind s args
unfolding parse_kind has
parse_kind-nuls s z args = rw (contains-nuls 107 (codes "ey(") s z refl) (
    rw (contains-nuls 98 (codes "utton(") s z refl) (
      rw (contains-nuls 97 (codes "xis(") s z refl) (
        rw (contains-nuls 104 (codes "at(") s z refl)
          (rw (contains-nuls 109 (codes "ouse(") s z refl) refl))))

-- NUL characters behind any text change nothing in how it is read, errors included.
pub parse_sdl_input-nuls : (s : Text) (z : ℕ) → parse_sdl_input (s ++ nuls z) ≡ parse_sdl_input s
unfolding parse_sdl_input
parse_sdl_input-nuls s z = rw (get_args-nuls s z, parse_sdl_input) (by_args (get_args s))
  where
    by_args :
        (args : List Text)
        → ◌≡◌ {A = Outcome (Input × Input)}
            (elim args as (λ _. Outcome (Input × Input)) [
              | [] ↦ ok (no_input, no_input)
              | a ∷ more ↦ parse_kind (s ++ nuls z) (a ∷ more)
            ])
            (elim args as (λ _. Outcome (Input × Input)) [
              | [] ↦ ok (no_input, no_input)
              | a ∷ more ↦ parse_kind s (a ∷ more)
            ])
    by_args [] = refl
    by_args (a ∷ more) = parse_kind-nuls s z (a ∷ more)

pub parse_sdl_input-padded : (s : Text) → parse_sdl_input (padded s) ≡ parse_sdl_input s
unfolding padded
parse_sdl_input-padded s = parse_sdl_input-nuls s (128 - length s)
