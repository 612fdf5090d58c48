-- ===== src/Text/Decimal.antt =====
-- A number that is printed is read back.
use net64_coop.Prelude.{
  ◌*◌, lt→ltb, ℕ, zero, suc, ◌+◌, ◌/◌, ◌%◌, ◌^◌, ◌<◌, ◌≤◌, ◌≡◌, refl, sym, ap, ◌∙◌, ◌≢◌, Bool, true,
  false, some, [], ◌∷◌, ◌++◌, arith, ltb, ltb→lt, Bool-cases, inl, inr, if◌then◌else◌, ℤ, pos,
  negsuc, length,
}
use net64_coop.Net.{Text}
use net64_coop.Text.{
  has, digits, decimal, to_string, is_digit, value, number, trim, signed_number, int_of, stoi,
  stoul,
}

-- What follows a number does not go on with a digit.
abbrev pub stops : Text → Bool
stops [] = true
stops (c ∷ s) = if is_digit c then false else true

digits-append : (f n : ℕ) (out rest : Text) → digits f n (out ++ rest) ≡ digits f n out ++ rest
unfolding digits
digits-append zero n out rest = refl
digits-append (suc f) n out rest = elim (Bool-cases (ltb n 10)) [
  | inl small ↦ rw small refl
  | inr large ↦ rw large (digits-append f (n / 10) ((48 + n % 10) ∷ out) rest)
]

head_digit :
    (f n : ℕ) (out : Text)
    → n < f
    → (c : ℕ) × (t : Text) × (digits f n out ≡ c ∷ t) × (48 ≤ c) × (c ≤ 57)
unfolding digits
head_digit zero n out h = absurd (omega arith)
head_digit (suc f) n out h = elim (Bool-cases (ltb n 10)) [
  | inl small ↦ (48 + n, out, rw small refl, omega arith, omega (arith, ltb→lt n 10 small))
  | inr large ↦
      let (c, t, e, low, high) = head_digit f (n / 10) ((48 + n % 10) ∷ out) (ground arith) in
      (c, t, rw large e, low, high)
]

value-digits : (f n : ℕ) (out : Text) → n < f → value 0 (digits f n out) ≡ value n out
unfolding digits value
value-digits zero n out h = absurd (omega arith)
value-digits (suc f) n out h = ground (arith, value-digits f (n / 10) ((48 + n % 10) ∷ out))

value-stops : (n : ℕ) (rest : Text) → stops rest ≡ true → value n rest ≡ n
unfolding value
value-stops n [] h = refl
value-stops n (c ∷ s) h = ground arith

-- The digits of a number lack every other character.
has-digits : (c f n : ℕ) (out : Text) → is_digit c ≡ false → has c (digits f n out) ≡ has c out
unfolding digits has
has-digits c zero n out h = refl
has-digits c (suc f) n out h = ground (arith, has-digits c f (n / 10) ((48 + n % 10) ∷ out) h)

-- The value of a 32-bit `int`.
abbrev pub IsInt : ℤ → Type 0
IsInt (pos n) = n < 2 ^ 31
IsInt (negsuc n) = n < 2 ^ 31

decimal-append : (n : ℕ) (rest : Text) → decimal n ++ rest ≡ digits (suc n) n rest
unfolding decimal
decimal-append n rest = sym (digits-append (suc n) n [] rest)

number-decimal : (n : ℕ) (rest : Text) → stops rest ≡ true → number (decimal n ++ rest) ≡ some n
unfolding number
number-decimal n rest h =
    let (c, t, e, low, high) = head_digit (suc n) n rest (omega arith) in
    let read : value 0 (c ∷ t) ≡ n =
      ap (value 0) (sym e) ∙ value-digits (suc n) n rest (omega arith) ∙ value-stops n rest h in
    rw (decimal-append n rest) (rw e (ground (arith, read)))

signed-decimal :
    (n : ℕ) (rest : Text)
    → stops rest ≡ true
    → signed_number (trim (decimal n ++ rest)) ≡ some (false, n)
unfolding signed_number trim
signed-decimal n rest h =
    let (c, t, e, low, high) = head_digit (suc n) n rest (omega arith) in
    let all = number-decimal n rest h in
    let e' = decimal-append n rest ∙ e in ground (arith, all, e')

-- A number that is printed and followed by no digit is read back.
pub stoi-to_string :
    (i : ℤ) (rest : Text) → IsInt i → stops rest ≡ true → stoi (to_string i ++ rest) ≡ some i
unfolding stoi to_string int_of signed_number trim
stoi-to_string (pos n) rest fits h = rw (signed-decimal n rest h, stoi) (ground arith)
stoi-to_string (negsuc n) rest fits h =
    let read = number-decimal (suc n) rest h in ground (arith, read)

pub stoul-decimal :
    (n : ℕ) (rest : Text) → n < 2 ^ 64 → stops rest ≡ true → stoul (decimal n ++ rest) ≡ some n
unfolding stoul
stoul-decimal n rest fits h = rw (signed-decimal n rest h, stoul) (ground arith)

pub has-decimal : (c n : ℕ) → is_digit c ≡ false → has c (decimal n) ≡ false
unfolding decimal has
has-decimal c n h = has-digits c (suc n) n [] h

pub has-to_string : (c : ℕ) (i : ℤ) → is_digit c ≡ false → c ≢ 45 → has c (to_string i) ≡ false
unfolding to_string has
has-to_string c (pos n) h ne = has-decimal c n h
has-to_string c (negsuc n) h ne = ground (arith, has-decimal c (suc n) h)

pub decimal-pos : (n : ℕ) → 0 < length (decimal n)
unfolding decimal
decimal-pos n =
    let (c, t, e, low, high) = head_digit (suc n) n [] (omega arith) in rw e (omega arith)

abbrev pow10 : ℕ → ℕ
pow10 zero = 1
pow10 (suc k) = 10 * pow10 k

length-digits :
    (k f n : ℕ) (out : Text) → n < pow10 (suc k) → length (digits f n out) ≤ suc k + length out
unfolding digits
length-digits k zero n out h = omega arith
length-digits zero (suc f) n out h = rw (lt→ltb n 10 (omega arith)) (omega arith)
length-digits (suc k) (suc f) n out h = elim (Bool-cases (ltb n 10)) [
  | inl small ↦ rw small (omega arith)
  | inr large ↦
      rw large (omega (arith, length-digits k f (n / 10) ((48 + n % 10) ∷ out) (omega arith)))
]

-- A 32-bit number has at most ten digits.
pub length-decimal : (n : ℕ) → n < 2 ^ 32 → length (decimal n) ≤ 10
unfolding decimal
length-decimal n h = length-digits 9 (suc n) n [] (omega arith)

pub length-to_string : (i : ℤ) → IsInt i → length (to_string i) ≤ 11
unfolding to_string
length-to_string (pos n) h = omega (arith, length-decimal n (omega arith))
length-to_string (negsuc n) h = omega (arith, length-decimal (suc n) (omega arith))
