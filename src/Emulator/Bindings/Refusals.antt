-- ===== src/Emulator/Bindings/Refusals.antt =====
-- What `set_bind` and `get_bind` do where a binding cannot be read or written.
use net64_coop.Prelude.{◌≡◌, refl, ◌∙◌, true, false, none, some, [], ◌++◌, ℤ, ◌<◌, length}
use net64_coop.Net.{Text}
use net64_coop.Text.{codes, to_string, stoi}
use net64_coop.Emulator.Inputs.Args.{IsField}
use net64_coop.Text.Decimal.{IsInt}
use net64_coop.Emulator.Inputs.{
  Input, joy_button, ok, parse_both, parse_key, other_error, undefined, parse_hats, parse_sdl_input,
}
use net64_coop.Text.{padded}
use net64_coop.Emulator.Inputs.Padding.{parse_sdl_input-padded}
use net64_coop.Emulator.Controllers.{Config}
use net64_coop.Emulator.Controllers.RoundTrip.{Works}
use net64_coop.Emulator.Bindings.{
  N64Button, a, n64_button_str, is_analog, opposite, input_text, get_button, set_stick, set_button,
  get_bind, caught, save_button, set_bind,
}
use net64_coop.Emulator.Bindings.Texts.{input_text-IsField, parse-key, parse-hat}
use net64_coop.Emulator.Bindings.Values.{words-cons, input_text-pos, single-IsBody, stoi-whole}

-- A key whose number is none.
read_malformed :
    (t : Text)
    → IsField t
    → 0 < length t
    → stoi t ≡ none
    → parse_sdl_input (codes "key(" ++ (t ++ codes ")")) ≡ other_error
unfolding parse_both parse_key
read_malformed t field long bad =
    parse-key t [] field tt ∙ rw (words-cons 44 t [] long) (rw (bad, parse_both, parse_key) refl)

read_padded :
    (t : Text)
    → IsField t
    → 0 < length t
    → stoi t ≡ none
    → parse_sdl_input (padded (codes "key(" ++ (t ++ codes ")"))) ≡ other_error
read_padded t field long bad =
    parse_sdl_input-padded (codes "key(" ++ (t ++ codes ")")) ∙ read_malformed t field long bad

module _ {S : Type 0} (config : Config S) (works : Works config) (s : S) (t : Text)
    (field : IsField t) (long : 0 < length t) (bad : stoi t ≡ none) (button : N64Button)
    (input : Input) where
  -- Over a core that works, a text of A that is a key with no number keeps every button from being
  -- bound: the result is false and nothing is changed.
  pub malformed_a_blocks :
      config.get_string s (n64_button_str a) ≡ some (padded (codes "key(" ++ (t ++ codes ")")))
      → set_bind config s button input ≡ ok (false, s)
  unfolding set_bind get_bind get_button caught
  malformed_a_blocks there =
      simp
        (set_bind, get_bind, works.opens s, get_button, there, read_padded t field long bad, caught)
        refl

  -- Over a core that works, a text of the opposite direction of the stick that is a key with no number
  -- makes `set_bind` throw what is no system error, if the binding of A can be read.
  pub malformed_stick_throws :
      (old : Input)
      → get_bind config s a ≡ ok (some old)
      → is_analog button ≡ true
      → config.get_string s (n64_button_str (opposite button))
        ≡ some (padded (codes "key(" ++ (t ++ codes ")")))
      → set_bind config s button input ≡ other_error
  unfolding set_bind set_button set_stick save_button get_button
  malformed_stick_throws old old_a analog there =
      simp
        (
          set_bind,
          old_a,
          works.opens s,
          set_button,
          analog,
          set_stick,
          get_button,
          there,
          read_padded t field long bad,
          save_button,
        )
        refl

lone_hat :
    (i : ℤ) → IsInt i → parse_sdl_input (codes "hat(" ++ (to_string i ++ codes ")")) ≡ undefined
unfolding parse_hats input_text
lone_hat i h =
    parse-hat (to_string i) [] (input_text-IsField (joy_button i)) tt (single-IsBody (joy_button i))
    ∙ rw (words-cons 44 (to_string i) [] (input_text-pos i i 0).0)
        (rw (stoi-whole i h, parse_hats) refl)

-- Reading a binding whose text is a hat with a number but without a direction takes an argument that
-- is not there.
pub hat_without_direction :
    {S : Type 0} (config : Config S) (works : Works config) (s : S) (button : N64Button) (i : ℤ)
    → IsInt i
    → config.get_string s (n64_button_str button)
      ≡ some (padded (codes "hat(" ++ (to_string i ++ codes ")")))
    → get_bind config s button ≡ undefined
unfolding get_bind get_button caught
hat_without_direction config works s button i h there =
    simp
      (
        get_bind,
        works.opens s,
        get_button,
        there,
        parse_sdl_input-padded (codes "hat(" ++ (to_string i ++ codes ")")) ∙ lone_hat i h,
        caught,
      )
      refl
