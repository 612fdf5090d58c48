-- ===== src/AppSettings.antt =====
-- `AppSettings::load` and `save` of src/qt_gui/app_settings.cpp. The JSON library is outside the
-- repository's own code and is a parameter; files are their contents. A path is its text.
pub mod RoundTrip
mod Tests
use net64_coop.Prelude.{Bool, true, false, Option, none, some, []}
use net64_coop.Net.{Text}
use net64_coop.Text.{codes}

-- What the code uses of `nlohmann::json`, where `none` is an exception: `operator[]` for reading and for an
-- assignment, a string as JSON and back, `dump`, and `operator>>` of a file.
pub record Json (J : Type 0) : Type 0 where
  pub null : J
  pub at : J → Text → Option J
  pub put : J → Text → J → Option J
  pub of_string : Text → J
  pub get_string : J → Option Text
  pub dump : J → Option Text
  pub parse : Text → Option J

pub record AppSettings : Type 0 where
  pub rom_file_path : Text
  pub m64p_custom_pugin_dir : Text
  pub m64p_core_plugin : Text
  pub m64p_video_plugin : Text
  pub m64p_audio_plugin : Text
  pub m64p_input_plugin : Text
  pub m64p_rsp_plugin : Text
  pub username : Text

infixl 5 ◌>>=◌
abbrev pub ◌>>=◌ {ℓ κ} : {A : Type ℓ} {B : Type κ} → Option A → (A → Option B) → Option B
none >>= f = none
some a >>= f = f a

module _ {J : Type 0} (json : Json J) where
  abbrev pub put_string : J → Text → Text → Option J
  put_string j key t = json.put j key (json.of_string t)

  unfoldable pub plugins_json : AppSettings → Option J
  plugins_json s = put_string json.null (codes "plugin_dir") s.m64p_custom_pugin_dir >>= λ j.
      put_string j (codes "video_plugin") s.m64p_video_plugin >>= λ j.
      put_string j (codes "audio_plugin") s.m64p_audio_plugin >>= λ j.
      put_string j (codes "input_plugin") s.m64p_input_plugin >>= λ j.
      put_string j (codes "rsp_plugin") s.m64p_rsp_plugin >>= λ j.
      put_string j (codes "core_plugin") s.m64p_core_plugin

  unfoldable pub settings_json : AppSettings → Option J
  settings_json s = put_string json.null (codes "rom_file") s.rom_file_path >>= λ j.
      plugins_json s >>= λ p.
      json.put j (codes "mupen64plus") p >>= λ j. put_string j (codes "username") s.username

  -- The result, and what is in the file then; `opens` is whether it can be opened for writing, which
  -- empties it before the text is made.
  unfoldable pub save : AppSettings → Bool → Option Text → Bool × Option Text
  save s opens old = elim (settings_json s) [
    | none ↦ (false, old)
    | some j ↦ elim opens [
      | false ↦ (false, old)
      | true ↦ elim (json.dump j) [ none ↦ (false, some []) | some t ↦ (true, some t) ]
    ]
  ]

  unfoldable pub string_at : J → Text → Option Text
  string_at j key = json.at j key >>= json.get_string

  -- A string that is there is assigned, and the load goes on; an exception ends it where it is.
  unfoldable pub load_string :
      Option Text
      → (Text → AppSettings)
      → AppSettings
      → (AppSettings → Bool × AppSettings)
      → Bool × AppSettings
  load_string none set s rest = (false, s)
  load_string (some t) set s rest = rest (set t)

  unfoldable pub load_plugins :
      J → AppSettings → (AppSettings → Bool × AppSettings) → Bool × AppSettings
  load_plugins p s0 rest =
      load_string (string_at p (codes "plugin_dir")) (λ t. record s0 { m64p_custom_pugin_dir = t })
        s0
        (λ s1.
          load_string (string_at p (codes "core_plugin")) (λ t. record s1 { m64p_core_plugin = t })
            s1
            (λ s2.
              load_string (string_at p (codes "video_plugin"))
                (λ t. record s2 { m64p_video_plugin = t }) s2
                (λ s3.
                  load_string (string_at p (codes "audio_plugin"))
                    (λ t. record s3 { m64p_audio_plugin = t }) s3
                    (λ s4.
                      load_string (string_at p (codes "input_plugin"))
                        (λ t. record s4 { m64p_input_plugin = t }) s4
                        (λ s5.
                          load_string (string_at p (codes "rsp_plugin"))
                            (λ t. record s5 { m64p_rsp_plugin = t }) s5 rest)))))

  unfoldable pub load_json : J → J → AppSettings → Bool × AppSettings
  load_json j p s =
      load_string (string_at j (codes "rom_file")) (λ t. record s { rom_file_path = t }) s
        (λ s1. load_plugins p s1 (λ s2.
          load_string (string_at j (codes "username")) (λ t. record s2 { username = t }) s2
            (λ s3. (true, s3))))

  -- The file is what can be read of it, if it can be opened.
  unfoldable pub load : AppSettings → Option Text → Bool × AppSettings
  load s none = (false, s)
  load s (some text) = elim (json.parse text) [
    | none ↦ (false, s)
    | some j ↦ elim (json.at j (codes "mupen64plus")) [
      | none ↦ (false, s)
      | some p ↦ load_json j p s
    ]
  ]
