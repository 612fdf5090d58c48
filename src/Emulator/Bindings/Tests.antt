-- ===== src/Emulator/Bindings/Tests.antt =====
-- Texts of bindings as the source reads and writes them, and the theorems at a configuration.
use net64_coop.Prelude.{arith, ◌≡◌, refl, true, some, if◌then◌else◌, pos, negsuc}
use net64_coop.Net.{Text}
use net64_coop.Text.{
  codes, padded, same_text, starts_with, contains, stoi, signed_number, trim, number, int_of, value,
}
use net64_coop.Emulator.Inputs.{
  no_input, key, joy_axis, joy_hat, ok, other_error, get_args, past_paren, args_behind, split_args,
  split_arg, skip_separators, parse_sdl_input, parse_kind, parse_both, parse_key, parse_axis,
  sign_of,
}
use net64_coop.Emulator.Controllers.Sample.{Section, config, config-Works}
use net64_coop.Emulator.Bindings.{
  a, b, analog_left, analog_right, n64_button_str, is_second, is_analog, opposite, fits, get_button,
  get_bind, caught, set_bind,
}
use net64_coop.Emulator.Bindings.Values.{down}
use net64_coop.Emulator.Bindings.Single.{bind_is_read}
use net64_coop.Emulator.Bindings.Pairs.{axes}
use net64_coop.Emulator.Bindings.Alone.{a_key}
use net64_coop.Emulator.Bindings.Stick.{
  stick_pair_is_read, stick_alone_is_read, unbinding_clears_both,
}

two_keys : parse_sdl_input (codes "key(276, 275)") ≡ ok (key (pos 276), key (pos 275))
unfolding parse_sdl_input get_args past_paren args_behind split_args split_arg skip_separators
    parse_kind contains starts_with parse_both parse_key stoi signed_number trim number int_of value
two_keys = refl

bad_number : parse_sdl_input (codes "key(x)") ≡ other_error
unfolding parse_sdl_input get_args past_paren args_behind split_args split_arg skip_separators
    parse_kind contains starts_with parse_both parse_key stoi signed_number trim number int_of value
bad_number = refl

-- Every parameter has the same text.
abbrev filled : Text → Section
filled t = record { ints = λ k. pos 1; bools = λ k. true; strings = λ k. t }

abbrev axes_text : Text
axes_text = codes "axis(0-,1+)"

a_is_read : get_bind config (filled axes_text) a ≡ ok (some (joy_axis (pos 0) (negsuc 0)))
unfolding get_bind get_button caught is_second parse_sdl_input get_args past_paren args_behind
    split_args split_arg skip_separators parse_kind contains starts_with parse_both parse_axis
    sign_of stoi signed_number trim number int_of value padded
a_is_read = refl

left_is_read :
    get_bind config (filled axes_text) analog_left ≡ ok (some (joy_axis (pos 0) (negsuc 0)))
unfolding get_bind get_button caught is_second parse_sdl_input get_args past_paren args_behind
    split_args split_arg skip_separators parse_kind contains starts_with parse_both parse_axis
    sign_of stoi signed_number trim number int_of value padded
left_is_read = refl

bind_is_read_example :
    (s' : Section) × (set_bind config (filled axes_text) b (joy_hat (pos 1) (pos 4))
      ≡ ok (true, s'))
    × (get_bind config s' b ≡ ok (some (joy_hat (pos 1) (pos 4))))
unfolding is_analog
bind_is_read_example =
    bind_is_read config config-Works (filled axes_text) b (joy_hat (pos 1) (pos 4))
      (joy_axis (pos 0) (negsuc 0)) refl (omega arith, (codes "Down", down refl)) a_is_read

stick_pair_is_read_example :
    (s' : Section) × (set_bind config (filled axes_text) analog_right (joy_axis (pos 2) (pos 7))
      ≡ ok (true, s'))
    × (get_bind config s' analog_right ≡ ok (some (joy_axis (pos 2) (pos 1))))
    × (get_bind config s' (opposite analog_right) ≡ ok (some (joy_axis (pos 0) (negsuc 0))))
unfolding is_analog opposite
stick_pair_is_read_example =
    stick_pair_is_read config config-Works (filled axes_text) analog_right
      (joy_axis (pos 2) (pos 7)) (joy_axis (pos 0) (negsuc 0)) (joy_axis (pos 0) (negsuc 0)) refl
      a_is_read left_is_read (axes (pos 7) (negsuc 0) (omega arith) (omega arith))

-- Right is bound to a key, and the key is read from left.
stick_alone_is_read_example :
    (s' : Section) × (set_bind config (filled axes_text) analog_right (key (pos 100))
      ≡ ok (true, s'))
    × (get_bind config s' analog_right ≡ ok (some no_input))
    × (get_bind config s' (opposite analog_right) ≡ ok (some (key (pos 100))))
unfolding is_analog opposite is_second fits
stick_alone_is_read_example =
    stick_alone_is_read config config-Works (filled axes_text) analog_right (key (pos 100))
      (joy_axis (pos 0) (negsuc 0)) (joy_axis (pos 0) (negsuc 0)) refl a_is_read left_is_read
      (a_key (omega arith)) refl

unbinding_clears_both_example :
    (s' : Section) × (set_bind config (filled axes_text) analog_right no_input ≡ ok (true, s'))
    × (get_bind config s' analog_right ≡ ok (some no_input))
    × (get_bind config s' (opposite analog_right) ≡ ok (some no_input))
unfolding is_analog opposite
unbinding_clears_both_example =
    unbinding_clears_both config config-Works (filled axes_text) analog_right
      (joy_axis (pos 0) (negsuc 0)) (joy_axis (pos 0) (negsuc 0)) refl a_is_read left_is_read

-- The stick's parameters have a malformed text and the others a well-formed one.
abbrev half_filled : Section
half_filled = record (filled axes_text) {
  strings = λ k. if same_text k (codes "X Axis") then codes "key(x)" else axes_text;
}

half_filled-a : get_bind config half_filled a ≡ ok (some (joy_axis (pos 0) (negsuc 0)))
unfolding get_bind get_button caught is_second parse_sdl_input get_args past_paren args_behind
    split_args split_arg skip_separators parse_kind contains starts_with parse_both parse_axis
    sign_of stoi signed_number trim number int_of value n64_button_str same_text padded
half_filled-a = refl
