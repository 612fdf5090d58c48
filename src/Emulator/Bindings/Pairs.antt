-- ===== src/Emulator/Bindings/Pairs.antt =====
-- The text that two directions of the analog stick share, where both are bound.
use net64_coop.Prelude.{
  arith, Option, length, ◌<◌, ℕ, ◌<◌, ◌≡◌, refl, ap, ◌∙◌, inl, inr, some, List, [], ◌∷◌, ◌++◌,
  append_assoc, length, ℤ,
}
use net64_coop.Net.{Text}
use net64_coop.Text.{codes, has, to_string}
use net64_coop.Text.Decimal.{IsInt}
use net64_coop.Emulator.Inputs.{
  Input, key, joy_button, joy_axis, joy_hat, Outcome, ok, parse_both, parse_key, parse_button,
  parse_axis, parse_hats, parse_sdl_input,
}
use net64_coop.Emulator.Inputs.Args.{AreFields, spell, words}
use net64_coop.Emulator.Bindings.{
  input_text, sign_text, pair_text, stick_text, first_hat_text, second_hat_text, hat_text,
}
use net64_coop.Emulator.Bindings.Texts.{
  as_read, input_text-IsField, parse-key, parse-button, parse-axis, parse-hat, unless_empty,
}
use net64_coop.Emulator.Bindings.Values.{
  IsDirection, words-cons, parse_key-text, parse_button-text, parse_axis-text, direction_lem,
  length-pair_text, length-hat_text, input_text-pos, number-IsBody, append-IsBody, pair-IsBody,
  stoi-whole,
}

-- Two inputs that one text can hold: numbers of one kind, or two directions of one hat.
pub data ArePair : Input → Input → Type 0 where
  keys : {j k : ℤ} → IsInt j → IsInt k → ArePair (key j) (key k)
  buttons : {i j : ℤ} → IsInt i → IsInt j → ArePair (joy_button i) (joy_button j)
  axes : {i j : ℤ} (v w : ℤ) → IsInt i → IsInt j → ArePair (joy_axis i v) (joy_axis j w)
  hats :
      {i v w : ℤ} {d e : Text}
      → IsInt i
      → IsDirection v d
      → IsDirection w e
      → ArePair (joy_hat i v) (joy_hat i w)

-- the second of a pair
abbrev pub behind : Input → List (ℕ × Text)
behind y = (44, input_text y) ∷ []

pub behind-AreFields : (y : Input) → AreFields (behind y)
behind-AreFields y = (inl refl, input_text-IsField y, tt)

module _ (x y : Input) (parse : Text → Outcome Input) (t u : Text) where
  pair_args :
      0 < length t
      → 0 < length u
      → parse t ≡ ok x
      → parse u ≡ ok y
      → unless_empty (parse_both parse) (words ((44, t) ∷ (44, u) ∷ [])) ≡ ok (x, y)
  unfolding parse_both
  pair_args ht hu e f =
      rw (words-cons 44 t ((44, u) ∷ []) ht)
        (rw (words-cons 44 u [] hu) (rw (e, parse_both) (rw f refl)))

-- Two directions of one hat.
pub read_hats :
    (i v w : ℤ) (d e : Text)
    → IsInt i
    → IsDirection v d
    → IsDirection w e
    → parse_sdl_input (codes "hat(" ++ ((to_string i ++ (32 ∷ d)) ++ ((32 ∷ e) ++ codes ")")))
      ≡ ok (joy_hat i v, joy_hat i w)
unfolding parse_hats input_text has
read_hats i v w d e h dir dir' =
    let (_, read, field, body, long) = direction_lem v d dir in
    let (_, read', field', body', long') = direction_lem w e dir' in
    let fields : List (ℕ × Text) = (32, d) ∷ (32, e) ∷ [] in
    let rest =
      append-IsBody (32 ∷ d) ((32 ∷ e) ++ codes ")") body
        (append-IsBody (32 ∷ e) (codes ")") body' (refl, refl, refl)) in
    ap (λ s. parse_sdl_input (codes "hat(" ++ s))
      (append_assoc (to_string i) (32 ∷ d) ((32 ∷ e) ++ codes ")"))
    ∙ parse-hat (to_string i) fields (input_text-IsField (joy_button i))
        (inr refl, field, (inr refl, field', tt)) (number-IsBody (joy_button i) (spell fields) rest)
    ∙ rw (words-cons 44 (to_string i) fields (input_text-pos i i 0).0) (
        rw (words-cons 32 d ((32, e) ∷ []) long) (
          rw (words-cons 32 e [] long')
            (rw (stoi-whole i h, parse_hats) (rw read (rw read' refl)))))

-- What a text is read as, given how it is printed, and that it fits into the buffer of a text.
abbrev pub Reads : Outcome (Option Text) → Input × Input → Type 0
Reads printed inputs =
    (t : Text) × (printed ≡ ok (some t)) × (parse_sdl_input t ≡ ok inputs) × (length t < 128)

pub read_pair : {x y : Input} → ArePair x y → Reads (stick_text x x y) (as_read x, as_read y)
unfolding stick_text input_text pair_text first_hat_text second_hat_text hat_text
read_pair (keys {j} {k} h g) = (
  pair_text (codes "key(") (key j) (key k),
  refl,
  parse-key (to_string j) (behind (key k)) (input_text-IsField (key j)) (behind-AreFields (key k))
      ∙ pair_args (key j) (key k) parse_key (to_string j) (to_string k) (input_text-pos j j 0).0
          (input_text-pos k k 0).0 (parse_key-text j h) (parse_key-text k g),
  length-pair_text (codes "key(") (key j) (key k) (omega arith) h g,
)
read_pair (buttons {i} {j} h g) = (
  pair_text (codes "button(") (joy_button i) (joy_button j),
  refl,
  parse-button (to_string i) (behind (joy_button j)) (input_text-IsField (joy_button i))
        (behind-AreFields (joy_button j)) (pair-IsBody (joy_button i) (joy_button j))
      ∙ pair_args (joy_button i) (joy_button j) parse_button (to_string i) (to_string j)
          (input_text-pos i i 0).0 (input_text-pos j j 0).0 (parse_button-text i h)
          (parse_button-text j g),
  length-pair_text (codes "button(") (joy_button i) (joy_button j) (omega arith) h g,
)
read_pair (axes {i} {j} v w h g) =
    let t = to_string i ++ sign_text v in
    let u = to_string j ++ sign_text w in
    (
      pair_text (codes "axis(") (joy_axis i v) (joy_axis j w),
      refl,
      parse-axis t (behind (joy_axis j w)) (input_text-IsField (joy_axis i v))
            (behind-AreFields (joy_axis j w)) (pair-IsBody (joy_axis i v) (joy_axis j w))
          ∙ pair_args (as_read (joy_axis i v)) (as_read (joy_axis j w)) parse_axis t u
              (input_text-pos i v 0).1 (input_text-pos j w 0).1 (parse_axis-text i v h)
              (parse_axis-text j w g),
      length-pair_text (codes "axis(") (joy_axis i v) (joy_axis j w) (omega arith) h g,
    )
read_pair (hats {i} {v} {w} {d} {e} h dir dir') = (
  codes "hat(" ++ ((to_string i ++ (32 ∷ d)) ++ ((32 ∷ e) ++ codes ")")),
  simp
      (
        stick_text,
        first_hat_text,
        second_hat_text,
        hat_text,
        (direction_lem v d dir).0,
        (direction_lem w e dir').0,
      )
      refl,
  read_hats i v w d e h dir dir',
  (length-hat_text i v w d e h dir dir').2,
)
