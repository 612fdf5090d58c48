-- ===== src/Emulator/Inputs.antt =====
-- `sdl_input_t` of src/net64/emulator/emulator.hpp and `parse_sdl_input` of
-- src/net64/emulator/m64plus.cpp: the text of a binding. `Outcome` has a constructor for each way in which
-- the code can end: `std::system_error`, another exception, or an index out of range.
pub mod Args
pub mod Padding
use net64_coop.Prelude.{
  ℕ, zero, suc, ◌+◌, ◌%◌, ◌^◌, Bool, true, false, ◌&&◌, ◌||◌, Option, none, some, List, [], ◌∷◌,
  ◌==◌, if◌then◌else◌, ℤ, pos, negsuc, length,
}
use net64_coop.Net.{Text}
use net64_coop.Text.{codes, same_text, contains, has, stoi, stoul}

pub data Outcome {ℓ} (A : Type ℓ) : Type ℓ where
  ok : A → Outcome A
  system_error other_error undefined : Outcome A

infixl 5 ◌>>=◌
abbrev pub ◌>>=◌ {ℓ κ} : {A : Type ℓ} {B : Type κ} → Outcome A → (A → Outcome B) → Outcome B
ok a >>= f = f a
system_error >>= f = system_error
other_error >>= f = other_error
undefined >>= f = undefined

-- The exceptions of `std::stoi` and `std::stoul` are not system errors.
abbrev pub converted {ℓ} : {A : Type ℓ} → Option A → Outcome A
converted none = other_error
converted (some a) = ok a

-- The type with the member of the union that it selects.
pub data Input : Type 0 where
  no_input : Input
  key : ℤ → Input
  mouse_button : ℕ → Input
  joy_button : ℤ → Input
  joy_axis joy_hat joy_ball : ℤ → ℤ → Input

-- the drop of a text up to the first '(' and past it; the whole text if there is none
unfoldable pub past_paren : Text → Option Text
past_paren [] = none
past_paren (c ∷ s) = if c == 40 then some s else past_paren s

-- `find_first_not_of(", ")` and the removal of the prefix
unfoldable pub skip_separators : Text → Text
skip_separators [] = []
skip_separators (c ∷ s) = if (c == 44) || (c == 32) then skip_separators s else c ∷ s

-- `find_first_of(", )")`: what stands before it and from it on
unfoldable pub split_arg : Text → Option (Text × Text)
split_arg [] = none
split_arg (c ∷ s) =
    if ((c == 44) || (c == 32)) || (c == 41)
    then some ([], c ∷ s)
    else elim (split_arg s) [ none ↦ none | some (arg, rest) ↦ some (c ∷ arg, rest) ]

-- The `while` loop, with fuel for its rounds.
unfoldable pub split_args : ℕ → Text → List Text
split_args zero s = []
split_args (suc f) s = elim (split_arg (skip_separators s)) [
  | none ↦ []
  | some (arg, rest) ↦ elim arg [ [] ↦ [] | c ∷ cs ↦ (c ∷ cs) ∷ split_args f rest ]
]

-- A remainder of one character is refused before the loop.
unfoldable pub args_behind : Text → List Text
args_behind s = if length s == 1 then [] else split_args (length s) s

unfoldable pub get_args : Text → List Text
get_args s = elim (past_paren s) [ none ↦ args_behind s | some t ↦ args_behind t ]

-- SDL_HAT_UP, SDL_HAT_RIGHT, SDL_HAT_DOWN and SDL_HAT_LEFT
abbrev pub hat_up : ℤ
hat_up = pos 1

abbrev pub hat_right : ℤ
hat_right = pos 2

abbrev pub hat_down : ℤ
hat_down = pos 4

abbrev pub hat_left : ℤ
hat_left = pos 8

unfoldable pub parse_dir : Text → Outcome ℤ
parse_dir s =
    if same_text s (codes "Up")
    then ok hat_up
    else if same_text s (codes "Down")
    then ok hat_down
    else if same_text s (codes "Left")
    then ok hat_left
    else if same_text s (codes "Right")
    then ok hat_right
    else other_error

-- `back() == '+' ? 1 : -1` of an argument, which is never empty
unfoldable pub sign_of : Text → ℤ
sign_of [] = negsuc 0
sign_of (c ∷ []) = if c == 43 then pos 1 else negsuc 0
sign_of (c ∷ d ∷ s) = sign_of (d ∷ s)

-- The second argument, if there is one, is read like the first.
unfoldable pub parse_both : (Text → Outcome Input) → List Text → Outcome (Input × Input)
parse_both parse [] = undefined
parse_both parse (a ∷ []) = do first ← parse a; ok (first, no_input)
parse_both parse (a ∷ b ∷ more) = do first ← parse a; second ← parse b; ok (first, second)

unfoldable pub parse_hats : List Text → Outcome (Input × Input)
parse_hats [] = undefined
parse_hats (a ∷ []) = do index ← converted (stoi a); undefined
parse_hats (a ∷ d ∷ []) = do
  index ← converted (stoi a)
  dir ← parse_dir d
  ok (joy_hat index dir, no_input)
parse_hats (a ∷ d ∷ e ∷ more) = do
  index ← converted (stoi a)
  dir ← parse_dir d
  dir' ← parse_dir e
  ok (joy_hat index dir, joy_hat index dir')

unfoldable pub parse_key : Text → Outcome Input
parse_key a = do k ← converted (stoi a); ok (key k)

unfoldable pub parse_button : Text → Outcome Input
parse_button a = do i ← converted (stoi a); ok (joy_button i)

unfoldable pub parse_axis : Text → Outcome Input
parse_axis a = do i ← converted (stoi a); ok (joy_axis i (sign_of a))

-- The `unsigned` of a 64-bit number. Only the first argument is read.
unfoldable pub parse_mouse : List Text → Outcome (Input × Input)
parse_mouse [] = undefined
parse_mouse (a ∷ more) = do n ← converted (stoul a); ok (mouse_button (n % 2 ^ 32), no_input)

-- The chain of `find` tests on the text, with its arguments.
unfoldable pub parse_kind : Text → List Text → Outcome (Input × Input)
parse_kind s args =
    if contains (codes "key(") s
    then parse_both parse_key args
    else if contains (codes "button(") s
    then parse_both parse_button args
    else if contains (codes "axis(") s
    then parse_both parse_axis args
    else if contains (codes "hat(") s
    then parse_hats args
    else if contains (codes "mouse(") s
    then parse_mouse args
    else ok (no_input, no_input)

-- An empty text has no arguments either.
unfoldable pub parse_sdl_input : Text → Outcome (Input × Input)
parse_sdl_input s = elim (get_args s) [
  | [] ↦ ok (no_input, no_input)
  | a ∷ more ↦ parse_kind s (a ∷ more)
]
