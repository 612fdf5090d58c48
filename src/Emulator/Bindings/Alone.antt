-- ===== src/Emulator/Bindings/Alone.antt =====
-- The text that two directions of the analog stick share, where one of them is bound.
use net64_coop.Prelude.{
  ℕ, ◌<◌, ◌^◌, ◌≡◌, refl, ap, ◌∙◌, List, [], ◌∷◌, ◌++◌, arith, append_assoc, length, ℤ, pos,
}
use net64_coop.Net.{Text}
use net64_coop.Text.{codes, has, to_string, decimal}
use net64_coop.Text.Decimal.{IsInt}
use net64_coop.Emulator.Inputs.{
  Input, no_input, key, mouse_button, joy_button, joy_axis, joy_hat, Outcome, ok, parse_both,
  parse_key, parse_button, parse_axis, parse_sdl_input,
}
use net64_coop.Emulator.Inputs.Args.{words}
use net64_coop.Emulator.Bindings.{
  input_text, sign_text, pair_text, stick_text, first_hat_text, second_hat_text, hat_text,
}
use net64_coop.Emulator.Bindings.Texts.{
  as_read, input_text-IsField, parse-key, parse-button, parse-axis, parse-mouse, unless_empty,
}
use net64_coop.Emulator.Bindings.Values.{
  IsDirection, words-cons, parse_key-text, parse_button-text, parse_axis-text, parse_mouse-text,
  direction_lem, length-pair_text, length-hat_text, input_text-pos, pair-IsBody, has-number,
}
use net64_coop.Emulator.Bindings.Single.{read_hat}
use net64_coop.Emulator.Bindings.Pairs.{Reads, behind, behind-AreFields, read_hats}

-- An input that can be bound to a direction of the stick.
pub data IsBindable : Input → Type 0 where
  a_key : {k : ℤ} → IsInt k → IsBindable (key k)
  a_button : {i : ℤ} → IsInt i → IsBindable (joy_button i)
  an_axis : {i : ℤ} (v : ℤ) → IsInt i → IsBindable (joy_axis i v)
  a_mouse_button : {n : ℕ} → n < 2 ^ 32 → IsBindable (mouse_button n)
  a_hat : {i v : ℤ} {d : Text} → IsInt i → IsDirection v d → IsBindable (joy_hat i v)

-- What the second is read as where it alone is bound: a hat is printed for both, any other input for
-- the first.
abbrev pub echo : Input → Input
echo (joy_hat i v) = joy_hat i v
echo input = no_input

module _ (x : Input) (parse : Text → Outcome Input) (t : Text) where
  one_arg :
      (fields : List (ℕ × Text))
      → words fields ≡ []
      → 0 < length t
      → parse t ≡ ok x
      → unless_empty (parse_both parse) (words ((44, t) ∷ fields)) ≡ ok (x, no_input)
  unfolding parse_both
  one_arg fields none_left ht e =
      rw (words-cons 44 t fields ht) (rw none_left (rw (e, parse_both) refl))

-- The first alone.
pub read_first : {x : Input} → IsBindable x → Reads (stick_text x x no_input) (as_read x, no_input)
unfolding stick_text input_text pair_text first_hat_text second_hat_text hat_text has
read_first (a_key {k} h) = (
  pair_text (codes "key(") (key k) no_input,
  refl,
  parse-key (to_string k) (behind no_input) (input_text-IsField (key k)) (behind-AreFields no_input)
      ∙ one_arg (key k) parse_key (to_string k) (behind no_input) refl (input_text-pos k k 0).0
          (parse_key-text k h),
  length-pair_text (codes "key(") (key k) no_input (omega arith) h tt,
)
read_first (a_button {i} h) = (
  pair_text (codes "button(") (joy_button i) no_input,
  refl,
  parse-button (to_string i) (behind no_input) (input_text-IsField (joy_button i))
        (behind-AreFields no_input) (pair-IsBody (joy_button i) no_input)
      ∙ one_arg (joy_button i) parse_button (to_string i) (behind no_input) refl
          (input_text-pos i i 0).0 (parse_button-text i h),
  length-pair_text (codes "button(") (joy_button i) no_input (omega arith) h tt,
)
read_first (an_axis {i} v h) = (
  pair_text (codes "axis(") (joy_axis i v) no_input,
  refl,
  parse-axis (to_string i ++ sign_text v) (behind no_input) (input_text-IsField (joy_axis i v))
        (behind-AreFields no_input) (pair-IsBody (joy_axis i v) no_input)
      ∙ one_arg (as_read (joy_axis i v)) parse_axis (to_string i ++ sign_text v) (behind no_input)
          refl (input_text-pos i v 0).1 (parse_axis-text i v h),
  length-pair_text (codes "axis(") (joy_axis i v) no_input (omega arith) h tt,
)
read_first (a_mouse_button {n} h) = (
  pair_text (codes "mouse(") (mouse_button n) no_input,
  refl,
  parse-mouse (decimal n) (behind no_input) (input_text-IsField (mouse_button n))
        (behind-AreFields no_input) (pair-IsBody (mouse_button n) no_input)
        (has-number 104 (mouse_button n) (codes ",)") (omega arith) refl)
      ∙ rw (words-cons 44 (decimal n) (behind no_input) (input_text-pos (pos 0) (pos 0) n).2)
          (parse_mouse-text n [] h),
  length-pair_text (codes "mouse(") (mouse_button n) no_input (omega arith) h tt,
)
read_first (a_hat {i} {v} {d} h dir) = (
  codes "hat(" ++ ((to_string i ++ (32 ∷ d)) ++ codes ")"),
  simp (stick_text, first_hat_text, second_hat_text, hat_text, (direction_lem v d dir).0) refl,
  ap (λ s. parse_sdl_input (codes "hat(" ++ s)) (append_assoc (to_string i) (32 ∷ d) (codes ")"))
      ∙ read_hat i v d (h, (d, dir)) dir,
  (length-hat_text i v v d d h dir dir).1,
)

-- The second alone.
pub read_second : {x : Input} → IsBindable x → Reads (stick_text x no_input x) (as_read x, echo x)
unfolding stick_text input_text pair_text first_hat_text second_hat_text hat_text has
read_second (a_key {k} h) = (
  pair_text (codes "key(") no_input (key k),
  refl,
  parse-key [] (behind (key k)) (input_text-IsField no_input) (behind-AreFields (key k))
      ∙ one_arg (key k) parse_key (to_string k) [] refl (input_text-pos k k 0).0
          (parse_key-text k h),
  length-pair_text (codes "key(") no_input (key k) (omega arith) tt h,
)
read_second (a_button {i} h) = (
  pair_text (codes "button(") no_input (joy_button i),
  refl,
  parse-button [] (behind (joy_button i)) (input_text-IsField no_input)
        (behind-AreFields (joy_button i)) (pair-IsBody no_input (joy_button i))
      ∙ one_arg (joy_button i) parse_button (to_string i) [] refl (input_text-pos i i 0).0
          (parse_button-text i h),
  length-pair_text (codes "button(") no_input (joy_button i) (omega arith) tt h,
)
read_second (an_axis {i} v h) = (
  pair_text (codes "axis(") no_input (joy_axis i v),
  refl,
  parse-axis [] (behind (joy_axis i v)) (input_text-IsField no_input)
        (behind-AreFields (joy_axis i v)) (pair-IsBody no_input (joy_axis i v))
      ∙ one_arg (as_read (joy_axis i v)) parse_axis (to_string i ++ sign_text v) [] refl
          (input_text-pos i v 0).1 (parse_axis-text i v h),
  length-pair_text (codes "axis(") no_input (joy_axis i v) (omega arith) tt h,
)
read_second (a_mouse_button {n} h) = (
  pair_text (codes "mouse(") no_input (mouse_button n),
  refl,
  parse-mouse [] (behind (mouse_button n)) (input_text-IsField no_input)
        (behind-AreFields (mouse_button n)) (pair-IsBody no_input (mouse_button n))
        (has-number 104 (mouse_button n) (codes ")") (omega arith) refl)
      ∙ rw (words-cons 44 (decimal n) [] (input_text-pos (pos 0) (pos 0) n).2)
          (parse_mouse-text n [] h),
  length-pair_text (codes "mouse(") no_input (mouse_button n) (omega arith) tt h,
)
read_second (a_hat {i} {v} {d} h dir) = (
  codes "hat(" ++ ((to_string i ++ (32 ∷ d)) ++ ((32 ∷ d) ++ codes ")")),
  simp (stick_text, first_hat_text, second_hat_text, hat_text, (direction_lem v d dir).0) refl,
  read_hats i v v d d h dir dir,
  (length-hat_text i v v d d h dir dir).2,
)
