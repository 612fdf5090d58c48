-- ===== src/Text/Find.antt =====
-- When a text does not contain another.
use net64_coop.Prelude.{ℕ, ◌≡◌, refl, true, false, ◌||◌, [], ◌∷◌, ◌++◌, arith}
use net64_coop.Net.{Text}
use net64_coop.Text.{starts_with, contains, has}

starts_with-has : (c : ℕ) (p s : Text) → has c p ≡ true → starts_with p s ≡ true → has c s ≡ true
unfolding starts_with has
starts_with-has c [] s h e = cc
starts_with-has c (a ∷ p) [] h e = cc
starts_with-has c (a ∷ p) (b ∷ s) h e = ground (arith, starts_with-has c p s)

-- What lacks a character of a text does not contain the text.
pub contains-has : (c : ℕ) (p s : Text) → has c p ≡ true → has c s ≡ false → contains p s ≡ false
unfolding contains has
contains-has c p [] h e = ground (arith, starts_with-has c p [] h)
contains-has c p (b ∷ s) h e = ground (arith, starts_with-has c p (b ∷ s) h, contains-has c p s h)

pub has-append : (c : ℕ) (s t : Text) → has c (s ++ t) ≡ (has c s || has c t)
unfolding has
has-append c [] t = refl
has-append c (b ∷ s) t = ground (arith, has-append c s t)
