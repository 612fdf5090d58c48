-- ===== src/Emulator/Bindings.antt =====
-- The buttons of a controller in src/net64/emulator/m64plus.cpp: `set_button`, `get_button`, `set_bind` and
-- `get_bind` of `Mupen64PlusControllerSettings`. Two directions of the analog stick share a parameter.
pub mod Texts
pub mod Values
pub mod Single
pub mod Pairs
pub mod Alone
pub mod Stick
pub mod Refusals
mod Tests
use net64_coop.Prelude.{
  ℕ, Bool, true, false, Option, none, some, List, [], ◌∷◌, ◌++◌, ◌==◌, if◌then◌else◌, ℤ, pos,
  negsuc, is_negative,
}
use net64_coop.Net.{Text}
use net64_coop.Text.{codes, to_string, decimal}
use net64_coop.Emulator.Inputs.{
  Input, no_input, key, mouse_button, joy_button, joy_axis, joy_hat, joy_ball, Outcome, ok,
  system_error, other_error, undefined, ◌>>=◌, parse_sdl_input,
}
use net64_coop.Emulator.Controllers.{Config, Key, saved}

pub data N64Button : Type 0 where
  a b z l r start d_up d_down d_left d_right c_up c_down c_left c_right : N64Button
  analog_up analog_down analog_left analog_right : N64Button

unfoldable pub n64_button_str : N64Button → Key
n64_button_str a = codes "A Button"
n64_button_str b = codes "B Button"
n64_button_str z = codes "Z Trig"
n64_button_str l = codes "L Trig"
n64_button_str r = codes "R Trig"
n64_button_str start = codes "Start"
n64_button_str d_up = codes "DPad U"
n64_button_str d_down = codes "DPad D"
n64_button_str d_left = codes "DPad L"
n64_button_str d_right = codes "DPad R"
n64_button_str c_up = codes "C Button U"
n64_button_str c_down = codes "C Button D"
n64_button_str c_left = codes "C Button L"
n64_button_str c_right = codes "C Button R"
n64_button_str analog_up = codes "Y Axis"
n64_button_str analog_down = codes "Y Axis"
n64_button_str analog_left = codes "X Axis"
n64_button_str analog_right = codes "X Axis"

unfoldable pub is_analog : N64Button → Bool
is_analog analog_up = true
is_analog analog_down = true
is_analog analog_left = true
is_analog analog_right = true
is_analog other = false

-- the direction whose binding is the second of its text
unfoldable pub is_second : N64Button → Bool
is_second analog_right = true
is_second analog_down = true
is_second other = false

-- the `switch` of `get_pair`; `second{}` is A
unfoldable pub opposite : N64Button → N64Button
opposite analog_right = analog_left
opposite analog_left = analog_right
opposite analog_up = analog_down
opposite analog_down = analog_up
opposite other = a

abbrev pub same_int : ℤ → ℤ → Bool
same_int (pos m) (pos n) = m == n
same_int (negsuc m) (negsuc n) = m == n
same_int i j = false

-- the types are the same and two hats have one index
unfoldable pub fits : Input → Input → Bool
fits no_input no_input = true
fits (key j) (key k) = true
fits (mouse_button m) (mouse_button n) = true
fits (joy_button i) (joy_button j) = true
fits (joy_axis i v) (joy_axis j w) = true
fits (joy_hat i v) (joy_hat j w) = same_int i j
fits (joy_ball i v) (joy_ball j w) = true
fits input other = false

unfoldable pub get_pair : N64Button → Input → Input → Input × Input
get_pair button input opposite_bind =
    let kept = if fits input opposite_bind then opposite_bind else no_input in
    if is_second button then (kept, input) else (input, kept)

unfoldable pub sdl_hat_direction : ℤ → Outcome Text
sdl_hat_direction v =
    if same_int v (pos 1)
    then ok (codes "Up")
    else if same_int v (pos 4)
    then ok (codes "Down")
    else if same_int v (pos 8)
    then ok (codes "Left")
    else if same_int v (pos 2)
    then ok (codes "Right")
    else system_error

unfoldable pub sign_text : ℤ → Text
sign_text v = if is_negative v then codes "-" else codes "+"

-- The number that a case prints for one of its two inputs, or nothing. An input of another type does
-- not get there.
unfoldable pub input_text : Input → Text
input_text (key k) = to_string k
input_text (joy_axis i v) = to_string i ++ sign_text v
input_text (joy_button i) = to_string i
input_text (mouse_button n) = decimal n
input_text other = []

unfoldable pub hat_text : Input → Outcome Text
hat_text (joy_hat i v) = do dir ← sdl_hat_direction v; ok (to_string i ++ (32 ∷ dir))
hat_text other = undefined

-- " " and the direction of the second, unless it is not bound
unfoldable pub second_hat_text : Input → Outcome Text
second_hat_text no_input = ok []
second_hat_text (joy_hat i v) = do dir ← sdl_hat_direction v; ok (32 ∷ dir)
second_hat_text other = undefined

unfoldable pub first_hat_text : Input → Input → Outcome Text
first_hat_text no_input second = hat_text second
first_hat_text first second = hat_text first

-- "key(", the two numbers with a comma between them, and ")"
unfoldable pub pair_text : Text → Input → Input → Text
pair_text name first second = name ++ (input_text first ++ (44 ∷ (input_text second ++ codes ")")))

-- The `switch` on the type, where `none` is a type with no case, for which nothing is set.
unfoldable pub stick_text : Input → Input → Input → Outcome (Option Text)
stick_text no_input first second = ok (some [])
stick_text (key k) first second = ok (some (pair_text (codes "key(") first second))
stick_text (joy_axis i v) first second = ok (some (pair_text (codes "axis(") first second))
stick_text (joy_button i) first second = ok (some (pair_text (codes "button(") first second))
stick_text (joy_hat i v) first second = do
  one ← first_hat_text first second
  two ← second_hat_text second
  ok (some (codes "hat(" ++ (one ++ (two ++ codes ")"))))
stick_text (mouse_button n) first second = ok (some (pair_text (codes "mouse(") first second))
stick_text (joy_ball i v) first second = ok none

-- `input.type != NONE ? input.type : second.type`
abbrev pub kind_of : Input → Input → Input
kind_of no_input second = second
kind_of input second = input

unfoldable pub single_text : Input → Outcome (Option Text)
single_text no_input = ok (some [])
single_text (key k) = ok (some (codes "key(" ++ (to_string k ++ codes ")")))
single_text (joy_axis i v) =
    ok (some (codes "axis(" ++ (to_string i ++ (sign_text v ++ codes ",9830)"))))
single_text (joy_button i) = ok (some (codes "button(" ++ (to_string i ++ codes ")")))
single_text (joy_hat i v) = do
  dir ← sdl_hat_direction v
  ok (some (codes "hat(" ++ (to_string i ++ (32 ∷ (dir ++ codes ")")))))
single_text (mouse_button n) = ok (some (codes "mouse(" ++ (decimal n ++ codes ")")))
single_text (joy_ball i v) = ok none

-- Every exception is caught, by `catch(...)`; `ok none` is the result false.
unfoldable pub caught : Outcome Input → Outcome (Option Input)
caught (ok input) = ok (some input)
caught undefined = undefined
caught system_error = ok none
caught other_error = ok none

module _ {S : Type 0} (config : Config S) where
  unfoldable pub get_button : S → N64Button → Outcome Input
  get_button s button = elim (config.get_string s (n64_button_str button)) [
    | none ↦ system_error
    | some text ↦ do
      inputs ← parse_sdl_input text
      ok (if is_second button then inputs.1 else inputs.0)
  ]

  unfoldable pub put_text : S → N64Button → Option Text → Outcome S
  put_text s button none = ok s
  put_text s button (some text) = elim (config.set_string s (n64_button_str button) text) [
    | none ↦ system_error
    | some s' ↦ ok s'
  ]

  unfoldable pub set_stick : S → N64Button → Input → Outcome S
  set_stick s button input = do
    opposite_bind ← get_button s (opposite button)
    let pair = get_pair button input opposite_bind
    text ← stick_text (kind_of input pair.1) pair.0 pair.1
    put_text s button text

  unfoldable pub set_button : S → N64Button → Input → Outcome S
  set_button s button input =
      if is_analog button
      then set_stick s button input
      else do text ← single_text input; put_text s button text

  unfoldable pub get_bind : S → N64Button → Outcome (Option Input)
  get_bind s button = if config.open_section s then caught (get_button s button) else ok none

  -- Only system errors are caught; another exception leaves the function, with nothing changed.
  unfoldable pub save_button : S → Outcome S → Outcome (Bool × S)
  save_button s (ok s') = ok (config.save s', s')
  save_button s system_error = ok (false, s)
  save_button s other_error = other_error
  save_button s undefined = undefined

  -- The binding that is read first is that of `tmp1`, which is A.
  unfoldable pub set_bind : S → N64Button → Input → Outcome (Bool × S)
  set_bind s button input = do
    old ← get_bind s a
    elim old [
      | none ↦ ok (false, s)
      | some bind ↦
          if config.open_section s then save_button s (set_button s button input) else ok (false, s)
    ]
