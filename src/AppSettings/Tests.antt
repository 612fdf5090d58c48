-- ===== src/AppSettings/Tests.antt =====
-- A small JSON library, and the theorems at it.
use net64_coop.Prelude.{◌≡◌, refl, true, false, Option, none, some, [], ◌∷◌, ◌⊎◌, if◌then◌else◌}
use net64_coop.Net.{Text}
use net64_coop.Text.{codes, same_text}
use net64_coop.AppSettings.{Json, AppSettings, plugins_json, settings_json, string_at, save, load}
use net64_coop.AppSettings.RoundTrip.{Documents, saved_or_lost, half_loaded}
use net64_coop.Emulator.Controllers.Sample.{same_text_self}

data Value : Type 0 where
  null_value : Value
  string_value : Text → Value
  object_value : (Text → Value) → Value

abbrev at : Value → Text → Option Value
at null_value key = some null_value
at (string_value t) key = none
at (object_value f) key = some (f key)

abbrev put : Value → Text → Value → Option Value
put null_value key v = some (object_value (λ k. if same_text k key then v else null_value))
put (string_value t) key v = none
put (object_value f) key v = some (object_value (λ k. if same_text k key then v else f k))

abbrev get_string : Value → Option Text
get_string (string_value t) = some t
get_string v = none

abbrev settings : AppSettings
settings = record {
  rom_file_path = codes "sm64.z64";
  m64p_custom_pugin_dir = [];
  m64p_core_plugin = codes "core";
  m64p_video_plugin = codes "video";
  m64p_audio_plugin = codes "audio";
  m64p_input_plugin = codes "input";
  m64p_rsp_plugin = codes "rsp";
  username = codes "mario";
}

abbrev unset : AppSettings
unset = record {
  rom_file_path = [];
  m64p_custom_pugin_dir = [];
  m64p_core_plugin = [];
  m64p_video_plugin = [];
  m64p_audio_plugin = [];
  m64p_input_plugin = [];
  m64p_rsp_plugin = [];
  username = [];
}

-- The library without files, and two with one: the text "j" stands for a value.
abbrev library : Option Value → Json Value
library file = record {
  null = null_value;
  at = at;
  put = put;
  of_string = string_value;
  get_string = get_string;
  dump = λ v. some (codes "j");
  parse = λ t. elim t [ [] ↦ none | c ∷ cs ↦ file ];
}

abbrev IsObject : Value → Type 0
IsObject (string_value t) = ⊥
IsObject v = Unit {0}

put-IsObject :
    (file : Option Value) (j : Value) (key : Text) (v : Value)
    → IsObject j
    → (j' : Value) × (put j key v ≡ some j')
      × IsObject j'
      × (at j' key ≡ some v)
      × ((k : Text) → same_text k key ≡ false → at j' k ≡ at j k)
put-IsObject file null_value key v object =
    (_, refl, tt, rw (same_text_self key) refl, λ k other. rw other refl)
put-IsObject file (string_value t) key v object = absurd object
put-IsObject file (object_value f) key v object =
    (_, refl, tt, rw (same_text_self key) refl, λ k other. rw other refl)

library-Documents : (file : Option Value) → Documents (library file) IsObject
library-Documents file = record {
  null-IsObject = tt;
  puts = put-IsObject file;
  strings = λ t. refl;
  empty = refl;
}

abbrev written : Json Value
written = library (settings_json (library none) settings)

saved_or_lost_example :
    ((t : Text) × (save written settings true none ≡ (true, some t))
      × (load written unset (some t) ≡ (true, settings)))
    ⊎ ((save written settings true none ≡ (false, some []))
        × (load written unset (some []) ≡ (false, unset)))
unfolding settings_json plugins_json
saved_or_lost_example =
    saved_or_lost written (library-Documents (settings_json (library none) settings)) settings unset
      none (λ j t made dumped. cc)

-- Everything but the name of the user.
abbrev plugins : Option Value
plugins = plugins_json (library none) settings

abbrev no_plugins : Option Value → Value
no_plugins none = null_value
no_plugins (some p) = p

abbrev nameless : Value
nameless = object_value (λ k.
    if same_text k (codes "rom_file")
    then string_value (codes "sm64.z64")
    else if same_text k (codes "mupen64plus")
    then no_plugins plugins
    else null_value)

half_loaded_example :
    load (library (some nameless)) unset (some (codes "{}"))
    ≡ (false, record settings { username = [] })
unfolding same_text plugins_json string_at
half_loaded_example =
    half_loaded (library (some nameless)) (library-Documents (some nameless)) settings unset
      (codes "{}") nameless (no_plugins plugins) refl refl
      (record { dir = refl; core = refl; video = refl; audio = refl; input = refl; rsp = refl })
      refl refl
