-- ===== src/Emulator/Bindings/Values.antt =====
-- A number, a direction or a sign that a binding's text holds is read back.
use net64_coop.Prelude.{
  ◌≤◌, ◌+◌, ℕ, ◌^◌, ◌<◌, ◌≡◌, refl, sym, ap, ◌∙◌, false, some, List, [], ◌∷◌, ◌++◌, arith,
  append-nil, ◌==◌, if◌then◌else◌, length, length-append, ℤ, pos, negsuc,
}
use net64_coop.Net.{Text}
use net64_coop.Text.{codes, has, same_text, to_string, decimal, stoi, stoul}
use net64_coop.Text.Find.{has-append}
use net64_coop.Text.Decimal.{
  IsInt, stoi-to_string, stoul-decimal, decimal-pos, length-to_string, length-decimal,
}
use net64_coop.Emulator.Inputs.{
  Input, no_input, key, mouse_button, joy_button, joy_axis, joy_hat, joy_ball, ok, parse_key,
  parse_button, parse_axis, parse_mouse, parse_dir, sign_of,
}
use net64_coop.Emulator.Inputs.Args.{IsField, words}
use net64_coop.Emulator.Bindings.{input_text, sign_text, pair_text, sdl_hat_direction}
use net64_coop.Emulator.Bindings.Texts.{unit_of, IsBody, has-input_text}

to_string-pos : (i : ℤ) → 0 < length (to_string i)
unfolding to_string
to_string-pos (pos n) = decimal-pos n
to_string-pos (negsuc n) = omega arith

-- A field that is not empty is an argument.
pub words-cons :
    (d : ℕ) (t : Text) (fields : List (ℕ × Text))
    → 0 < length t
    → words ((d, t) ∷ fields) ≡ t ∷ words fields
words-cons d [] fields h = elim h [ ]
words-cons d (c ∷ t) fields h = refl

pub stoi-whole : (i : ℤ) → IsInt i → stoi (to_string i) ≡ some i
stoi-whole i h = ap stoi (sym (append-nil (to_string i))) ∙ stoi-to_string i [] h refl

pub parse_key-text : (k : ℤ) → IsInt k → parse_key (to_string k) ≡ ok (key k)
unfolding parse_key
parse_key-text k h = rw (stoi-whole k h, parse_key) refl

pub parse_button-text : (i : ℤ) → IsInt i → parse_button (to_string i) ≡ ok (joy_button i)
unfolding parse_button
parse_button-text i h = rw (stoi-whole i h, parse_button) refl

sign_of-last : (t : Text) (c : ℕ) → sign_of (t ++ (c ∷ [])) ≡ (if c == 43 then pos 1 else negsuc 0)
unfolding sign_of
sign_of-last [] c = refl
sign_of-last (d ∷ []) c = refl
sign_of-last (d ∷ e ∷ t) c = sign_of-last (e ∷ t) c

sign_of-sign_text : (t : Text) (v : ℤ) → sign_of (t ++ sign_text v) ≡ unit_of v
unfolding sign_text
sign_of-sign_text t (pos n) = sign_of-last t 43
sign_of-sign_text t (negsuc n) = sign_of-last t 45

stoi-signed : (i v : ℤ) → IsInt i → stoi (to_string i ++ sign_text v) ≡ some i
unfolding sign_text
stoi-signed i (pos n) h = stoi-to_string i (43 ∷ []) h refl
stoi-signed i (negsuc n) h = stoi-to_string i (45 ∷ []) h refl

pub parse_axis-text :
    (i v : ℤ) → IsInt i → parse_axis (to_string i ++ sign_text v) ≡ ok (joy_axis i (unit_of v))
unfolding parse_axis
parse_axis-text i v h =
    rw (stoi-signed i v h, parse_axis)
      (ap (λ s. ok (joy_axis i s)) (sign_of-sign_text (to_string i) v))

pub parse_mouse-text :
    (n : ℕ) (more : List Text)
    → n < 2 ^ 32
    → parse_mouse (decimal n ∷ more) ≡ ok (mouse_button n, no_input)
unfolding parse_mouse
parse_mouse-text n more h =
    let read = ap stoul (sym (append-nil (decimal n))) ∙ stoul-decimal n [] (omega arith) refl in
    rw (read, parse_mouse) (ap (λ m. ok (mouse_button m, no_input)) (omega arith))

-- The four directions that have a text.
pub data IsDirection : ℤ → Text → Type 0 where
  up : {v : ℤ} → v ≡ pos 1 → IsDirection v (codes "Up")
  down : {v : ℤ} → v ≡ pos 4 → IsDirection v (codes "Down")
  left : {v : ℤ} → v ≡ pos 8 → IsDirection v (codes "Left")
  right : {v : ℤ} → v ≡ pos 2 → IsDirection v (codes "Right")

pub direction_lem :
    (v : ℤ) (d : Text)
    → IsDirection v d
    → (sdl_hat_direction v ≡ ok d) × (parse_dir d ≡ ok v) × IsField d × IsBody d × (0 < length d)
unfolding sdl_hat_direction parse_dir same_text has
direction_lem v _ (up e) =
    (rw e refl, rw e refl, (refl, refl, refl), (refl, refl, refl), omega arith)
direction_lem v _ (down e) =
    (rw e refl, rw e refl, (refl, refl, refl), (refl, refl, refl), omega arith)
direction_lem v _ (left e) =
    (rw e refl, rw e refl, (refl, refl, refl), (refl, refl, refl), omega arith)
direction_lem v _ (right e) =
    (rw e refl, rw e refl, (refl, refl, refl), (refl, refl, refl), omega arith)

-- The number of an input that is bound is an argument.
pub input_text-pos :
    (i v : ℤ) (n : ℕ)
    → (0 < length (to_string i))
      × (0 < length (to_string i ++ sign_text v))
      × (0 < length (decimal n))
input_text-pos i v n = (
  to_string-pos i,
  omega (arith, to_string-pos i, length-append (to_string i) (sign_text v)),
  decimal-pos n,
)

-- The numbers of an input fit their types, and a hat has one of the four directions. Nothing is
-- written for a ball.
abbrev pub IsWritable : Input → Type 0
IsWritable no_input = Unit
IsWritable (key k) = IsInt k
IsWritable (mouse_button n) = n < 2 ^ 32
IsWritable (joy_button i) = IsInt i
IsWritable (joy_axis i v) = IsInt i
IsWritable (joy_hat i v) = IsInt i × ((d : Text) × IsDirection v d)
IsWritable (joy_ball i v) = ⊥

-- A letter that does not stand behind the number of an input does not stand in the whole.
pub has-number :
    (c : ℕ) (x : Input) (rest : Text)
    → 57 < c
    → has c rest ≡ false
    → has c (input_text x ++ rest) ≡ false
has-number c x rest h e =
    rw (has-append c (input_text x) rest)
      (rw (has-input_text c x (ground arith) (omega arith) (omega arith)) e)

pub number-IsBody : (x : Input) (rest : Text) → IsBody rest → IsBody (input_text x ++ rest)
number-IsBody x rest (k, b, h) = (
  has-number 107 x rest (omega arith) k,
  has-number 98 x rest (omega arith) b,
  has-number 120 x rest (omega arith) h,
)

pub single-IsBody : (x : Input) → IsBody (input_text x ++ codes ")")
unfolding has
single-IsBody x = number-IsBody x (codes ")") (refl, refl, refl)

pub pair-IsBody : (x y : Input) → IsBody (input_text x ++ (44 ∷ (input_text y ++ codes ")")))
unfolding has
pair-IsBody x y = number-IsBody x (44 ∷ (input_text y ++ codes ")")) (single-IsBody y)

pub append-IsBody : (s t : Text) → IsBody s → IsBody t → IsBody (s ++ t)
append-IsBody s t (k, b, x) (k', b', x') = (
  rw (has-append 107 s t) (rw k k'),
  rw (has-append 98 s t) (rw b b'),
  rw (has-append 120 s t) (rw x x'),
)

pub length-input_text : (x : Input) → IsWritable x → length (input_text x) ≤ 12
unfolding input_text sign_text
length-input_text no_input h = omega arith
length-input_text (key k) h = omega (arith, length-to_string k h)
length-input_text (mouse_button n) h = omega (arith, length-decimal n h)
length-input_text (joy_button i) h = omega (arith, length-to_string i h)
length-input_text (joy_axis i (pos n)) h =
    omega (arith, length-append (to_string i) (codes "+"), length-to_string i h)
length-input_text (joy_axis i (negsuc n)) h =
    omega (arith, length-append (to_string i) (codes "-"), length-to_string i h)
length-input_text (joy_hat i v) h = omega arith
length-input_text (joy_ball i v) h = absurd h

pub length-direction : (v : ℤ) (d : Text) → IsDirection v d → length d ≤ 5
length-direction v _ (up e) = omega arith
length-direction v _ (down e) = omega arith
length-direction v _ (left e) = omega arith
length-direction v _ (right e) = omega arith

pub length-single :
    (x : Input) (rest : Text) → IsWritable x → length (input_text x ++ rest) ≤ 12 + length rest
length-single x rest h = omega (arith, length-append (input_text x) rest, length-input_text x h)

pub length-pair_text :
    (name : Text) (x y : Input)
    → length name ≤ 7
    → IsWritable x
    → IsWritable y
    → length (pair_text name x y) < 128
unfolding pair_text
length-pair_text name x y short hx hy =
    let rest = 44 ∷ (input_text y ++ codes ")") in
    omega (
      arith,
      length-append name (input_text x ++ rest),
      length-single x rest hx,
      length-single y (codes ")") hy,
    )

-- The text of a hat in one direction, or in two.
pub length-hat_text :
    (i v w : ℤ) (d e : Text)
    → IsInt i
    → IsDirection v d
    → IsDirection w e
    → (length (codes "hat(" ++ (to_string i ++ (32 ∷ (d ++ codes ")")))) < 128)
      × (length (codes "hat(" ++ ((to_string i ++ (32 ∷ d)) ++ codes ")")) < 128)
      × (length (codes "hat(" ++ ((to_string i ++ (32 ∷ d)) ++ ((32 ∷ e) ++ codes ")"))) < 128)
length-hat_text i v w d e h dir dir' =
    let n = length-to_string i h in
    let one = length-direction v d dir in
    let two = length-direction w e dir' in
    (
      omega
          (arith, length-append (to_string i) (32 ∷ (d ++ codes ")")), length-append d (codes ")")),
      omega (
        arith,
        length-append (to_string i ++ (32 ∷ d)) (codes ")"),
        length-append (to_string i) (32 ∷ d),
      ),
      omega (
        arith,
        length-append (to_string i ++ (32 ∷ d)) ((32 ∷ e) ++ codes ")"),
        length-append (to_string i) (32 ∷ d),
        length-append e (codes ")"),
      ),
    )
