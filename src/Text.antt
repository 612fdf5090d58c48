-- ===== src/Text.antt =====
-- Texts as lists of character codes, with what the code uses of `std::string`: `find`, `to_string`,
-- `stoi` and `stoul`.
pub mod Find
pub mod Decimal
use Prim.Native.Char.{code}
use Prim.Native.String.{String}
use net64_coop.Prelude.{
  length, replicate, ◌++◌, ℕ, zero, suc, ◌+◌, ◌-◌, ◌*◌, ◌/◌, ◌%◌, ◌^◌, Bool, true, false, ◌&&◌,
  ◌||◌, Option, none, some, List, [], ◌∷◌, ◌==◌, ltb, leb, if◌then◌else◌, ℤ, pos, negsuc,
}
use net64_coop.Net.{Text}

-- A literal in the source.
abbrev pub codes : String → Text
codes String.[] = []
codes (String.◌∷◌ c s) = code c ∷ codes s

unfoldable pub same_text : Text → Text → Bool
same_text [] [] = true
same_text [] (b ∷ bs) = false
same_text (a ∷ cs) [] = false
same_text (a ∷ cs) (b ∷ bs) = (a == b) && same_text cs bs

unfoldable pub starts_with : Text → Text → Bool
starts_with [] s = true
starts_with (a ∷ p) [] = false
starts_with (a ∷ p) (b ∷ s) = (a == b) && starts_with p s

-- `s.find(p) != npos`
unfoldable pub contains : Text → Text → Bool
contains p [] = starts_with p []
contains p (b ∷ s) = starts_with p (b ∷ s) || contains p s

unfoldable pub has : ℕ → Text → Bool
has c [] = false
has c (b ∷ s) = (b == c) || has c s

-- The text up to its first NUL, as `c_str` gives it to a C function.
unfoldable pub c_str : Text → Text
c_str [] = []
c_str (c ∷ s) = if c == 0 then [] else c ∷ c_str s

abbrev pub nuls : ℕ → Text
nuls z = replicate z 0

-- What a text of fewer than 128 characters is in the buffer of `ConfigSection::get_string`.
unfoldable pub padded : Text → Text
padded t = t ++ nuls (128 - length t)

-- The decimal digits of `n` in front of `out`, with fuel for the rounds.
unfoldable pub digits : ℕ → ℕ → Text → Text
digits zero n out = out
digits (suc f) n out =
    let rest = digits f (n / 10) ((48 + n % 10) ∷ out) in if ltb n 10 then (48 + n) ∷ out else rest

unfoldable pub decimal : ℕ → Text
decimal n = digits (suc n) n []

-- `std::to_string` of a signed number
unfoldable pub to_string : ℤ → Text
to_string (pos n) = decimal n
to_string (negsuc n) = 45 ∷ decimal (suc n)

abbrev pub is_digit : ℕ → Bool
is_digit c = leb 48 c && leb c 57

-- The value of the digits in front, behind those that make `n`.
unfoldable pub value : ℕ → Text → ℕ
value n [] = n
value n (c ∷ s) = if is_digit c then value (n * 10 + (c - 48)) s else n

unfoldable pub number : Text → Option ℕ
number [] = none
number (c ∷ s) = if is_digit c then some (value 0 (c ∷ s)) else none

abbrev pub is_space : ℕ → Bool
is_space c = (c == 32) || (leb 9 c && leb c 13)

unfoldable pub trim : Text → Text
trim [] = []
trim (c ∷ s) = if is_space c then trim s else c ∷ s

-- A sign and a number: what `strtol` and `strtoul` read.
unfoldable pub signed_number : Text → Option (Bool × ℕ)
signed_number [] = none
signed_number (c ∷ s) =
    if c == 45
    then elim (number s) [ none ↦ none | some n ↦ some (true, n) ]
    else if c == 43
    then elim (number s) [ none ↦ none | some n ↦ some (false, n) ]
    else elim (number (c ∷ s)) [ none ↦ none | some n ↦ some (false, n) ]

unfoldable pub int_of : Bool → ℕ → Option ℤ
int_of true zero = some (pos 0)
int_of true (suc n) = if ltb n (2 ^ 31) then some (negsuc n) else none
int_of false n = if ltb n (2 ^ 31) then some (pos n) else none

-- `std::stoi`; `none` is its exception, `invalid_argument` or `out_of_range`.
unfoldable pub stoi : Text → Option ℤ
stoi s = elim (signed_number (trim s)) [ none ↦ none | some (minus, n) ↦ int_of minus n ]

-- `std::stoul`, over 64 bits; a minus sign negates the result and is no error.
unfoldable pub stoul : Text → Option ℕ
stoul s = elim (signed_number (trim s)) [
  | none ↦ none
  | some (minus, n) ↦
      if ltb n (2 ^ 64) then some (if minus then (2 ^ 64 - n) % 2 ^ 64 else n) else none
]
