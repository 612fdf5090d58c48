-- ===== src/Emulator/Bindings/Single.antt =====
-- The buttons that have a parameter of their own.
use net64_coop.Prelude.{
  length, ◌<◌, ℕ, ◌≡◌, refl, sym, ap, ◌∙◌, inl, inr, true, false, some, List, [], ◌∷◌, ◌++◌, arith,
  append_assoc, if◌then◌else◌, ℤ, pos, negsuc,
}
use net64_coop.Net.{Text}
use net64_coop.Text.{
  codes, has, to_string, decimal, stoi, signed_number, trim, number, int_of, value,
}
use net64_coop.Emulator.Inputs.{
  Input, no_input, key, mouse_button, joy_button, joy_axis, joy_hat, joy_ball, ok, parse_both,
  parse_axis, parse_hats, parse_sdl_input, sign_of, get_args, past_paren, args_behind, split_args,
  skip_separators, split_arg,
}
use net64_coop.Emulator.Inputs.Args.{spell}
use net64_coop.Text.{padded}
use net64_coop.Emulator.Inputs.Padding.{parse_sdl_input-padded}
use net64_coop.Emulator.Controllers.{Config}
use net64_coop.Emulator.Controllers.RoundTrip.{Works}
use net64_coop.Emulator.Bindings.{
  N64Button, a, analog_up, analog_down, analog_left, analog_right, is_analog, is_second,
  n64_button_str, get_button, set_button, get_bind, caught, set_bind, save_button, put_text,
  input_text, sign_text, single_text,
}
use net64_coop.Emulator.Bindings.Texts.{
  as_read, unit_of, input_text-IsField, parse-key, parse-button, parse-axis, parse-hat, parse-mouse,
}
use net64_coop.Emulator.Bindings.Values.{
  IsWritable, IsDirection, words-cons, parse_key-text, parse_button-text, parse_axis-text,
  parse_mouse-text, direction_lem, length-single, length-hat_text, input_text-pos, single-IsBody,
  has-number, number-IsBody, append-IsBody, stoi-whole,
}

read_key :
    (k : ℤ)
    → IsWritable (key k)
    → parse_sdl_input (codes "key(" ++ (to_string k ++ codes ")")) ≡ ok (key k, no_input)
unfolding parse_both input_text
read_key k h =
    parse-key (to_string k) [] (input_text-IsField (key k)) tt
    ∙ rw (words-cons 44 (to_string k) [] (input_text-pos k k 0).0)
        (rw (parse_key-text k h, parse_both) refl)

read_button :
    (i : ℤ)
    → IsWritable (joy_button i)
    → parse_sdl_input (codes "button(" ++ (to_string i ++ codes ")")) ≡ ok (joy_button i, no_input)
unfolding parse_both input_text
read_button i h =
    parse-button (to_string i) [] (input_text-IsField (joy_button i)) tt
      (single-IsBody (joy_button i))
    ∙ rw (words-cons 44 (to_string i) [] (input_text-pos i i 0).0)
        (rw (parse_button-text i h, parse_both) refl)

read_mouse :
    (n : ℕ)
    → IsWritable (mouse_button n)
    → parse_sdl_input (codes "mouse(" ++ (decimal n ++ codes ")")) ≡ ok (mouse_button n, no_input)
unfolding input_text has
read_mouse n h =
    parse-mouse (decimal n) [] (input_text-IsField (mouse_button n)) tt
      (single-IsBody (mouse_button n))
      (has-number 104 (mouse_button n) (codes ")") (omega arith) refl)
    ∙ rw (words-cons 44 (decimal n) [] (input_text-pos (pos 0) (pos 0) n).2)
        (parse_mouse-text n [] h)

-- the trigger of 30% that is written behind the axis
abbrev trigger : List (ℕ × Text)
trigger = (44, codes "9830") ∷ []

parse_trigger : parse_axis (codes "9830") ≡ ok (joy_axis (pos 9830) (negsuc 0))
unfolding parse_axis stoi sign_of signed_number trim number int_of value
parse_trigger = refl

read_axis :
    (i v : ℤ)
    → IsWritable (joy_axis i v)
    → parse_sdl_input (codes "axis(" ++ (to_string i ++ (sign_text v ++ codes ",9830)")))
      ≡ ok (joy_axis i (unit_of v), joy_axis (pos 9830) (negsuc 0))
unfolding parse_both input_text has
read_axis i v h =
    let t = to_string i ++ sign_text v in
    ap (λ s. parse_sdl_input (codes "axis(" ++ s))
      (sym (append_assoc (to_string i) (sign_text v) (spell trigger)))
    ∙ parse-axis t trigger (input_text-IsField (joy_axis i v)) (inl refl, (refl, refl, refl), tt)
        (number-IsBody (joy_axis i v) (spell trigger) (refl, refl, refl))
    ∙ rw (words-cons 44 t trigger (input_text-pos i v 0).1)
        (rw (parse_axis-text i v h, parse_both) (rw parse_trigger refl))

pub read_hat :
    (i v : ℤ) (d : Text)
    → IsWritable (joy_hat i v)
    → IsDirection v d
    → parse_sdl_input (codes "hat(" ++ (to_string i ++ (32 ∷ (d ++ codes ")"))))
      ≡ ok (joy_hat i v, no_input)
unfolding parse_hats input_text has
read_hat i v d h dir =
    let (written, read, field, (k, b, x), long) = direction_lem v d dir in
    let behind = (32, d) ∷ [] in
    parse-hat (to_string i) behind (input_text-IsField (joy_button i)) (inr refl, field, tt)
      (number-IsBody (joy_button i) (spell behind)
        (append-IsBody (32 ∷ d) (codes ")") (k, b, x) (refl, refl, refl)))
    ∙ rw (words-cons 44 (to_string i) behind (input_text-pos i i 0).0)
        (rw (words-cons 32 d [] long) (rw (stoi-whole i h.0, parse_hats) (rw read refl)))

pub read_nothing : parse_sdl_input [] ≡ ok (no_input, no_input)
unfolding parse_sdl_input get_args past_paren args_behind split_args skip_separators split_arg
read_nothing = refl

-- What is printed for one input is read as that input.
pub single_text-IsRead :
    (input : Input)
    → IsWritable input
    → (t : Text) × (single_text input ≡ ok (some t))
      × ((second : Input) × (parse_sdl_input t ≡ ok (as_read input, second)))
      × (length t < 128)
unfolding single_text input_text
single_text-IsRead no_input h = ([], refl, (no_input, read_nothing), omega arith)
single_text-IsRead (key k) h =
    (_, refl, (no_input, read_key k h), omega (arith, length-single (key k) (codes ")") h))
single_text-IsRead (joy_button i) h = (
  _,
  refl,
  (no_input, read_button i h),
  omega (arith, length-single (joy_button i) (codes ")") h),
)
single_text-IsRead (mouse_button n) h = (
  _,
  refl,
  (no_input, read_mouse n h),
  omega (arith, length-single (mouse_button n) (codes ")") h),
)
single_text-IsRead (joy_axis i v) h = (
  _,
  refl,
  (joy_axis (pos 9830) (negsuc 0), read_axis i v h),
  omega (
    arith,
    ap length (append_assoc (to_string i) (sign_text v) (codes ",9830)")),
    length-single (joy_axis i v) (codes ",9830)") h,
  ),
)
single_text-IsRead (joy_hat i v) (h, dirs) =
    let (d, dir) = dirs in
    (
      codes "hat(" ++ (to_string i ++ (32 ∷ (d ++ codes ")"))),
      rw ((direction_lem v d dir).0, single_text) refl,
      (no_input, read_hat i v d (h, dirs) dir),
      (length-hat_text i v v d d h dir dir).0,
    )
single_text-IsRead (joy_ball i v) h = absurd h

is_second-eq-false : (button : N64Button) → is_analog button ≡ false → is_second button ≡ false
unfolding is_analog is_second
is_second-eq-false analog_up h = cc
is_second-eq-false analog_down h = cc
is_second-eq-false analog_left h = cc
is_second-eq-false analog_right h = cc
is_second-eq-false _ h = refl

module _ {S : Type 0} (config : Config S) (works : Works config) where
  pub get_bind-text :
      (s : S) (button : N64Button) (t : Text) (inputs : Input × Input)
      → config.get_string s (n64_button_str button) ≡ some (padded t)
      → parse_sdl_input t ≡ ok inputs
      → get_bind config s button ≡ ok (some (if is_second button then inputs.1 else inputs.0))
  unfolding get_bind get_button caught
  get_bind-text s button t inputs there read =
      simp (get_bind, works.opens s, get_button, there, parse_sdl_input-padded t ∙ read, caught)
        refl

  pub set_bind-saved :
      (s s' : S) (button : N64Button) (input old : Input)
      → get_bind config s a ≡ ok (some old)
      → set_button config s button input ≡ ok s'
      → set_bind config s button input ≡ ok (true, s')
  unfolding set_bind save_button
  set_bind-saved s s' button input old there put =
      simp (set_bind, there, works.opens s, put, save_button, works.saves s') refl

  -- Over a core that works, an input that is bound to a button other than a direction of the stick,
  -- while the binding of A can be read, is read back, an axis with the sign of its value; setting it
  -- returns true. Every number that fits its type is covered, and the four directions of a hat.
  pub bind_is_read :
      (s : S) (button : N64Button) (input old : Input)
      → is_analog button ≡ false
      → IsWritable input
      → get_bind config s a ≡ ok (some old)
      → (s' : S) × (set_bind config s button input ≡ ok (true, s'))
        × (get_bind config s' button ≡ ok (some (as_read input)))
  unfolding set_button put_text
  bind_is_read s button input old single h there =
      let (t, print, (second, read), short) = single_text-IsRead input h in
      let (s', put, got) = works.sets_string s (n64_button_str button) t short in
      (
        s',
        set_bind-saved s s' button input old there
            (simp (set_button, single, print, put_text, put) refl),
        get_bind-text s' button t (as_read input, second) got read
            ∙ rw (is_second-eq-false button single) refl,
      )
