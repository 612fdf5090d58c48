-- ===== src/Emulator/Bindings/Texts.antt =====
-- What `parse_sdl_input` makes of the texts that `set_button` writes, part by part.
use net64_coop.Prelude.{
  ℕ, ◌≡◌, ◌≢◌, refl, ◌∙◌, false, List, [], ◌∷◌, ◌++◌, arith, if◌then◌else◌, ℤ, pos, negsuc,
  is_negative,
}
use net64_coop.Net.{Text}
use net64_coop.Text.{codes, contains, has, to_string, is_digit, starts_with}
use net64_coop.Text.Find.{contains-has, has-append}
use net64_coop.Text.Decimal.{has-to_string, has-decimal}
use net64_coop.Emulator.Inputs.{
  Input, no_input, key, mouse_button, joy_button, joy_axis, joy_hat, joy_ball, Outcome, ok,
  past_paren, get_args, parse_both, parse_key, parse_button, parse_axis, parse_mouse, parse_hats,
  parse_kind, parse_sdl_input, args_behind,
}
use net64_coop.Emulator.Inputs.Args.{IsField, AreFields, spell, words, args_behind-spell}
use net64_coop.Emulator.Bindings.{input_text, sign_text}

abbrev pub unit_of : ℤ → ℤ
unit_of v = if is_negative v then negsuc 0 else pos 1

-- Only the sign of an axis is kept.
abbrev pub as_read : Input → Input
as_read (joy_axis i v) = joy_axis i (unit_of v)
as_read input = input

has-sign_text : (c : ℕ) (v : ℤ) → c ≢ 45 → c ≢ 43 → has c (sign_text v) ≡ false
unfolding has sign_text
has-sign_text c (pos n) h k = ground arith
has-sign_text c (negsuc n) h k = ground arith

pub has-input_text :
    (c : ℕ) (input : Input)
    → is_digit c ≡ false
    → c ≢ 45
    → c ≢ 43
    → has c (input_text input) ≡ false
unfolding input_text
has-input_text c no_input d m p = unfold has in refl
has-input_text c (key k) d m p = has-to_string c k d m
has-input_text c (mouse_button n) d m p = has-decimal c n d
has-input_text c (joy_button i) d m p = has-to_string c i d m
has-input_text c (joy_axis i v) d m p =
    rw (has-append c (to_string i) (sign_text v))
      (rw (has-to_string c i d m) (has-sign_text c v m p))
has-input_text c (joy_hat i v) d m p = unfold has in refl
has-input_text c (joy_ball i v) d m p = unfold has in refl

pub input_text-IsField : (input : Input) → IsField (input_text input)
input_text-IsField input = (
  has-input_text 44 input refl (omega arith) (omega arith),
  has-input_text 32 input refl (omega arith) (omega arith),
  has-input_text 41 input refl (omega arith) (omega arith),
)

-- A text behind a name that `parse_kind` tests later lacks a letter of each earlier name.
abbrev pub IsBody : Text → Type 0
IsBody s = (has 107 s ≡ false) × (has 98 s ≡ false) × (has 120 s ≡ false)

parse_kind-button :
    (s : Text) (args : List Text)
    → IsBody s
    → parse_kind (codes "button(" ++ s) args ≡ parse_both parse_button args
unfolding parse_kind has contains starts_with
parse_kind-button s args (k, b, x) =
    rw (contains-has 107 (codes "key(") (codes "button(" ++ s) refl k) refl

parse_kind-axis :
    (s : Text) (args : List Text)
    → IsBody s
    → parse_kind (codes "axis(" ++ s) args ≡ parse_both parse_axis args
unfolding parse_kind has contains starts_with
parse_kind-axis s args (k, b, x) =
    rw (contains-has 107 (codes "key(") (codes "axis(" ++ s) refl k)
      (rw (contains-has 98 (codes "button(") (codes "axis(" ++ s) refl b) refl)

parse_kind-hat :
    (s : Text) (args : List Text) → IsBody s → parse_kind (codes "hat(" ++ s) args ≡ parse_hats args
unfolding parse_kind has contains starts_with
parse_kind-hat s args (k, b, x) = rw (contains-has 107 (codes "key(") (codes "hat(" ++ s) refl k) (
    rw (contains-has 98 (codes "button(") (codes "hat(" ++ s) refl b)
      (rw (contains-has 120 (codes "axis(") (codes "hat(" ++ s) refl x) refl))

parse_kind-mouse :
    (s : Text) (args : List Text)
    → IsBody s
    → has 104 s ≡ false
    → parse_kind (codes "mouse(" ++ s) args ≡ parse_mouse args
unfolding parse_kind has contains starts_with
parse_kind-mouse s args (k, b, x) h =
    rw (contains-has 107 (codes "key(") (codes "mouse(" ++ s) refl k) (
      rw (contains-has 98 (codes "button(") (codes "mouse(" ++ s) refl b) (
        rw (contains-has 120 (codes "axis(") (codes "mouse(" ++ s) refl x)
          (rw (contains-has 104 (codes "hat(") (codes "mouse(" ++ s) refl h) refl)))

-- A text with no argument has no input.
abbrev pub unless_empty :
    (List Text → Outcome (Input × Input)) → List Text → Outcome (Input × Input)
unless_empty parse [] = ok (no_input, no_input)
unless_empty parse (t ∷ more) = parse (t ∷ more)

parse_named :
    (whole t : Text) (fields : List (ℕ × Text)) (parse : List Text → Outcome (Input × Input))
    → IsField t
    → AreFields fields
    → get_args whole ≡ args_behind (t ++ spell fields)
    → ((args : List Text) → parse_kind whole args ≡ parse args)
    → parse_sdl_input whole ≡ unless_empty parse (words ((44, t) ∷ fields))
unfolding parse_sdl_input
parse_named whole t fields parse h hs behind kind =
    rw (behind ∙ args_behind-spell t fields h hs, parse_sdl_input)
      (by_args (words ((44, t) ∷ fields)))
  where
    by_args :
        (args : List Text)
        → elim args [ [] ↦ ok (no_input, no_input) | a ∷ more ↦ parse_kind whole (a ∷ more) ]
          ≡ unless_empty parse args
    by_args [] = refl
    by_args (a ∷ more) = kind (a ∷ more)

module _ (t : Text) (fields : List (ℕ × Text)) (h : IsField t) (hs : AreFields fields) where
  pub parse-key :
      parse_sdl_input (codes "key(" ++ (t ++ spell fields))
      ≡ unless_empty (parse_both parse_key) (words ((44, t) ∷ fields))
  unfolding get_args past_paren parse_kind contains starts_with
  parse-key =
      parse_named (codes "key(" ++ (t ++ spell fields)) t fields (parse_both parse_key) h hs refl
        (λ args. refl)

  module _ (body : IsBody (t ++ spell fields)) where
    pub parse-button :
        parse_sdl_input (codes "button(" ++ (t ++ spell fields))
        ≡ unless_empty (parse_both parse_button) (words ((44, t) ∷ fields))
    unfolding get_args past_paren
    parse-button =
        parse_named (codes "button(" ++ (t ++ spell fields)) t fields (parse_both parse_button) h hs
          refl (λ args. parse_kind-button (t ++ spell fields) args body)

    pub parse-axis :
        parse_sdl_input (codes "axis(" ++ (t ++ spell fields))
        ≡ unless_empty (parse_both parse_axis) (words ((44, t) ∷ fields))
    unfolding get_args past_paren
    parse-axis =
        parse_named (codes "axis(" ++ (t ++ spell fields)) t fields (parse_both parse_axis) h hs
          refl (λ args. parse_kind-axis (t ++ spell fields) args body)

    pub parse-hat :
        parse_sdl_input (codes "hat(" ++ (t ++ spell fields))
        ≡ unless_empty parse_hats (words ((44, t) ∷ fields))
    unfolding get_args past_paren
    parse-hat =
        parse_named (codes "hat(" ++ (t ++ spell fields)) t fields parse_hats h hs refl
          (λ args. parse_kind-hat (t ++ spell fields) args body)

    pub parse-mouse :
        has 104 (t ++ spell fields) ≡ false
        → parse_sdl_input (codes "mouse(" ++ (t ++ spell fields))
          ≡ unless_empty parse_mouse (words ((44, t) ∷ fields))
    unfolding get_args past_paren
    parse-mouse no_h =
        parse_named (codes "mouse(" ++ (t ++ spell fields)) t fields parse_mouse h hs refl
          (λ args. parse_kind-mouse (t ++ spell fields) args body no_h)
