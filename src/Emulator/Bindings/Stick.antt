-- ===== src/Emulator/Bindings/Stick.antt =====
-- The directions of the analog stick, two of which share a parameter.
use net64_coop.Prelude.{
  ◌≡◌, refl, ap, ◌∙◌, Bool, true, false, not, some, [], arith, if◌then◌else◌, Bool-cases, inl, inr,
  ℤ, pos, negsuc,
}
use net64_coop.Emulator.Inputs.{Input, no_input, Outcome, ok, system_error, other_error, undefined}
use net64_coop.Emulator.Controllers.{Config}
use net64_coop.Emulator.Controllers.RoundTrip.{Works}
use net64_coop.Emulator.Bindings.{
  N64Button, a, analog_up, analog_down, analog_left, analog_right, n64_button_str, is_analog,
  is_second, opposite, fits, same_int, get_pair, stick_text, kind_of, get_button, put_text,
  set_stick, set_button, get_bind, caught, set_bind,
}
use net64_coop.Emulator.Bindings.Texts.{as_read}
use net64_coop.Emulator.Bindings.Single.{read_nothing, get_bind-text, set_bind-saved}
use net64_coop.Emulator.Bindings.Pairs.{Reads, ArePair, keys, buttons, axes, hats, read_pair}
use net64_coop.Emulator.Bindings.Alone.{
  IsBindable, a_key, a_button, an_axis, a_mouse_button, a_hat, echo, read_first, read_second,
}

analog_lem :
    (button : N64Button)
    → is_analog button ≡ true
    → (n64_button_str (opposite button) ≡ n64_button_str button)
      × (is_second (opposite button) ≡ not (is_second button))
unfolding is_analog n64_button_str opposite is_second
analog_lem analog_up h = (refl, refl)
analog_lem analog_down h = (refl, refl)
analog_lem analog_left h = (refl, refl)
analog_lem analog_right h = (refl, refl)
analog_lem _ h = cc

ArePair-sym : {x y : Input} → ArePair x y → ArePair y x
ArePair-sym (keys h g) = keys g h
ArePair-sym (buttons h g) = buttons g h
ArePair-sym (axes v w h g) = axes w v g h
ArePair-sym (hats h dir dir') = hats h dir' dir

same_int_self : (i : ℤ) → same_int i i ≡ true
same_int_self (pos n) = ground arith
same_int_self (negsuc n) = ground arith

caught_inv : (o : Outcome Input) (y : Input) → caught o ≡ ok (some y) → o ≡ ok y
unfolding caught
caught_inv (ok x) y h = cc
caught_inv system_error y h = cc
caught_inv other_error y h = cc
caught_inv undefined y h = cc

-- The inputs of a pair fit, and their text depends on the kind alone.
ArePair-fits :
    {x y : Input}
    → ArePair x y
    → (fits x y ≡ true)
      × ((p q : Input) → stick_text (kind_of x q) p q ≡ stick_text x p q)
      × ((p q : Input) → stick_text (kind_of x q) p q ≡ stick_text y p q)
unfolding fits stick_text
ArePair-fits (keys h g) = (refl, λ p q. refl, λ p q. refl)
ArePair-fits (buttons h g) = (refl, λ p q. refl, λ p q. refl)
ArePair-fits (axes v w h g) = (refl, λ p q. refl, λ p q. refl)
ArePair-fits (hats {i} h dir dir') = (same_int_self i, λ p q. refl, λ p q. refl)

IsBindable-kind : {x : Input} → IsBindable x → (y : Input) → kind_of x y ≡ x
IsBindable-kind (a_key h) y = refl
IsBindable-kind (a_button h) y = refl
IsBindable-kind (an_axis v h) y = refl
IsBindable-kind (a_mouse_button h) y = refl
IsBindable-kind (a_hat h dir) y = refl

module _ {S : Type 0} (config : Config S) (works : Works config) where
  get_button-of_bind :
      (s : S) (button : N64Button) (y : Input)
      → get_bind config s button ≡ ok (some y)
      → get_button config s button ≡ ok y
  unfolding get_bind
  get_button-of_bind s button y h =
      caught_inv (get_button config s button) y (rw (works.opens s, get_bind) at h)

  -- What is written is read back from both directions.
  module _ (s : S) (button : N64Button) (x y old : Input) (analog : is_analog button ≡ true)
      (old_a : get_bind config s a ≡ ok (some old))
      (there : get_bind config s (opposite button) ≡ ok (some y)) where
    stick_written :
        (second : Bool) (u v p q : Input)
        → is_second button ≡ second
        → get_pair button x y ≡ (u, v)
        → Reads (stick_text (kind_of x v) u v) (p, q)
        → (s' : S) × (set_bind config s button x ≡ ok (true, s'))
          × (get_bind config s' button ≡ ok (some (if second then q else p)))
          × (get_bind config s' (opposite button) ≡ ok (some (if not second then q else p)))
    unfolding set_button set_stick put_text
    stick_written second u v p q is pair (t, print, read, short) =
        let (name, other) = analog_lem button analog in
        let (s', put, got) = works.sets_string s (n64_button_str button) t short in
        let opp = get_button-of_bind s (opposite button) y there in
        (
          s',
          set_bind-saved config works s s' button x old old_a
              (simp (set_button, analog, set_stick, opp, pair, print, put_text, put) refl),
          get_bind-text config works s' button t (p, q) got read ∙ rw is refl,
          get_bind-text config works s' (opposite button) t (p, q)
                (ap (config.get_string s') name ∙ got) read
              ∙ rw other (rw is refl),
        )

    pair_is :
        (second : Bool) (kept : Input)
        → is_second button ≡ second
        → (if fits x y then y else no_input) ≡ kept
        → get_pair button x y ≡ (if second then (kept, x) else (x, kept))
    unfolding get_pair
    pair_is second kept is keeps = simp (get_pair, is, keeps) refl

    -- Over a core that works, an input that is bound to a direction of the stick is read back, and the
    -- opposite direction keeps its own, if both are keys, both are buttons, both are axes or both are
    -- directions of one hat, and if the bindings of A and of the opposite direction can be read; an axis
    -- keeps its sign. Buttons of the mouse are excluded.
    pub stick_pair_is_read :
        ArePair x y
        → (s' : S) × (set_bind config s button x ≡ ok (true, s'))
          × (get_bind config s' button ≡ ok (some (as_read x)))
          × (get_bind config s' (opposite button) ≡ ok (some (as_read y)))
    stick_pair_is_read pair =
        let (fit, same, other) = ArePair-fits pair in
        elim (Bool-cases (is_second button)) [
          | inl second ↦
              let (t, print, read, short) = read_pair (ArePair-sym pair) in
              stick_written true y x (as_read y) (as_read x) second
                (pair_is true y second (rw fit refl)) (t, other y x ∙ print, read, short)
          | inr first ↦
              let (t, print, read, short) = read_pair pair in
              stick_written false x y (as_read x) (as_read y) first
                (pair_is false y first (rw fit refl)) (t, same x y ∙ print, read, short)
        ]

    -- Over a core that works, an input that is bound to the first direction of an axis of the stick, to up
    -- or to left, where the opposite one has none or one that does not go with it, is read back, and the
    -- opposite direction loses its own. Bound to the second, down or right, a hat is read back from both
    -- directions, and any other input is read back from the opposite direction only.
    pub stick_alone_is_read :
        IsBindable x
        → fits x y ≡ false
        → (s' : S) × (set_bind config s button x ≡ ok (true, s'))
          × (get_bind config s' button ≡ ok (some (if is_second button then echo x else as_read x)))
          × (get_bind config s' (opposite button)
              ≡ ok (some (if is_second button then as_read x else no_input)))
    stick_alone_is_read can misfit = elim (Bool-cases (is_second button)) [
      | inl second ↦
          let (t, print, read, short) = read_second can in
          rw second (
            stick_written true no_input x (as_read x) (echo x) second
              (pair_is true no_input second (rw misfit refl))
              (t, rw (IsBindable-kind can x) print, read, short))
      | inr first ↦
          let (t, print, read, short) = read_first can in
          rw first (
            stick_written false x no_input (as_read x) no_input first
              (pair_is false no_input first (rw misfit refl))
              (t, rw (IsBindable-kind can no_input) print, read, short))
    ]

nothing_kept : (y : Input) → (if fits no_input y then y else no_input) ≡ no_input
unfolding fits
nothing_kept no_input = refl
nothing_kept _ = refl

-- Over a core that works, taking away the input of a direction of the stick takes away the input of
-- the opposite direction as well, whatever that is.
pub unbinding_clears_both :
    {S : Type 0} (config : Config S) (works : Works config) (s : S) (button : N64Button)
    (y old : Input)
    → is_analog button ≡ true
    → get_bind config s a ≡ ok (some old)
    → get_bind config s (opposite button) ≡ ok (some y)
    → (s' : S) × (set_bind config s button no_input ≡ ok (true, s'))
      × (get_bind config s' button ≡ ok (some no_input))
      × (get_bind config s' (opposite button) ≡ ok (some no_input))
unfolding stick_text
unbinding_clears_both config works s button y old analog old_a there =
    let written = stick_written config works s button no_input y old analog old_a there in
    elim (Bool-cases (is_second button)) [
      | inl second ↦
          written true no_input no_input no_input no_input second
            (pair_is config works s button no_input y old analog old_a there true no_input second
              (nothing_kept y))
            ([], refl, read_nothing, omega arith)
      | inr first ↦
          written false no_input no_input no_input no_input first
            (pair_is config works s button no_input y old analog old_a there false no_input first
              (nothing_kept y))
            ([], refl, read_nothing, omega arith)
    ]
