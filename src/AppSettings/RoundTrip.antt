-- ===== src/AppSettings/RoundTrip.antt =====
-- Settings that are saved are loaded.
use net64_coop.Prelude.{
  ◌≡◌, refl, ap, ◌∙◌, Bool, true, false, Option, none, some, [], ◌⊎◌, inl, inr, Option-cases,
}
use net64_coop.Net.{Text}
use net64_coop.Text.{codes, same_text}
use net64_coop.AppSettings.{
  Json, AppSettings, ◌>>=◌, plugins_json, settings_json, save, string_at, load_string, load_plugins,
  load_json, load,
}

-- What the library documents: a member can be assigned to an object, and to null, which becomes one; it is
-- found then, and the others are as they were; a string is that string; an empty file is an error.
pub record Documents {J : Type 0} (json : Json J) (IsObject : J → Type 0) : Type 0 where
  pub null-IsObject : IsObject json.null
  pub puts :
      (j : J) (key : Text) (v : J)
      → IsObject j
      → (j' : J) × (json.put j key v ≡ some j')
        × IsObject j'
        × (json.at j' key ≡ some v)
        × ((k : Text) → same_text k key ≡ false → json.at j' k ≡ json.at j k)
  pub strings : (t : Text) → json.get_string (json.of_string t) ≡ some t
  pub empty : json.parse [] ≡ none

module _ {J : Type 0} (json : Json J) {IsObject : J → Type 0} (doc : Documents json IsObject) where
  -- The strings of the plugins under their keys.
  pub record Holds (p : J) (s : AppSettings) : Type 0 where
    pub dir : string_at json p (codes "plugin_dir") ≡ some s.m64p_custom_pugin_dir
    pub core : string_at json p (codes "core_plugin") ≡ some s.m64p_core_plugin
    pub video : string_at json p (codes "video_plugin") ≡ some s.m64p_video_plugin
    pub audio : string_at json p (codes "audio_plugin") ≡ some s.m64p_audio_plugin
    pub input : string_at json p (codes "input_plugin") ≡ some s.m64p_input_plugin
    pub rsp : string_at json p (codes "rsp_plugin") ≡ some s.m64p_rsp_plugin

  reads :
      {j : J} {key t : Text}
      → json.at j key ≡ some (json.of_string t)
      → string_at json j key ≡ some t
  unfolding string_at
  reads {t = t} there = ap (λ o. o >>= json.get_string) there ∙ doc.strings t

  plugins_json-Holds : (s : AppSettings) → (p : J) × (plugins_json json s ≡ some p) × Holds p s
  unfolding plugins_json same_text
  plugins_json-Holds s =
      let (p1, put1, o1, got1, keep1) =
        doc.puts json.null (codes "plugin_dir") (json.of_string s.m64p_custom_pugin_dir)
          doc.null-IsObject in
      let (p2, put2, o2, got2, keep2) =
        doc.puts p1 (codes "video_plugin") (json.of_string s.m64p_video_plugin) o1 in
      let (p3, put3, o3, got3, keep3) =
        doc.puts p2 (codes "audio_plugin") (json.of_string s.m64p_audio_plugin) o2 in
      let (p4, put4, o4, got4, keep4) =
        doc.puts p3 (codes "input_plugin") (json.of_string s.m64p_input_plugin) o3 in
      let (p5, put5, o5, got5, keep5) =
        doc.puts p4 (codes "rsp_plugin") (json.of_string s.m64p_rsp_plugin) o4 in
      let (p6, put6, o6, got6, keep6) =
        doc.puts p5 (codes "core_plugin") (json.of_string s.m64p_core_plugin) o5 in
      (
        p6,
        rw (put1, put2, put3, put4, put5) put6,
        record {
          dir =
              reads
                (keep6 _ refl ∙ keep5 _ refl ∙ keep4 _ refl ∙ keep3 _ refl ∙ keep2 _ refl ∙ got1);
          video = reads (keep6 _ refl ∙ keep5 _ refl ∙ keep4 _ refl ∙ keep3 _ refl ∙ got2);
          audio = reads (keep6 _ refl ∙ keep5 _ refl ∙ keep4 _ refl ∙ got3);
          input = reads (keep6 _ refl ∙ keep5 _ refl ∙ got4);
          rsp = reads (keep6 _ refl ∙ got5);
          core = reads got6;
        },
      )

  load_plugins-Holds :
      (p : J) (s0 s : AppSettings) (rest : AppSettings → Bool × AppSettings)
      → Holds p s
      → load_plugins json p s0 rest
        ≡ rest (record s0 {
          m64p_custom_pugin_dir = s.m64p_custom_pugin_dir;
          m64p_core_plugin = s.m64p_core_plugin;
          m64p_video_plugin = s.m64p_video_plugin;
          m64p_audio_plugin = s.m64p_audio_plugin;
          m64p_input_plugin = s.m64p_input_plugin;
          m64p_rsp_plugin = s.m64p_rsp_plugin;
        })
  unfolding load_plugins load_string
  load_plugins-Holds p s0 s rest h = rw (h.dir, h.core, h.video, h.audio, h.input, h.rsp) refl

  settings_json-loads :
      (s : AppSettings)
      → (j : J) × (p : J) × (settings_json json s ≡ some j)
        × (json.at j (codes "mupen64plus") ≡ some p)
        × ((s0 : AppSettings) → load_json json j p s0 ≡ (true, s))
  unfolding settings_json load_json load_string same_text
  settings_json-loads s =
      let (p, made, holds) = plugins_json-Holds s in
      let (j1, put1, o1, got1, keep1) =
        doc.puts json.null (codes "rom_file") (json.of_string s.rom_file_path) doc.null-IsObject in
      let (j2, put2, o2, got2, keep2) = doc.puts j1 (codes "mupen64plus") p o1 in
      let (j3, put3, o3, got3, keep3) =
        doc.puts j2 (codes "username") (json.of_string s.username) o2 in
      let rom : string_at json j3 (codes "rom_file") ≡ some s.rom_file_path =
        reads (keep3 _ refl ∙ keep2 _ refl ∙ got1) in
      let user : string_at json j3 (codes "username") ≡ some s.username = reads got3 in
      (
        j3,
        p,
        rw (put1, made, put2) put3,
        keep3 _ refl ∙ got2,
        λ s0. rw rom (load_plugins-Holds p _ s _ holds ∙ rw user refl),
      )

  -- Settings that are saved to a file that opens: either they are written, and then any load of that file
  -- gives them back, whatever was set before; or the library refuses to write them, and then the old file
  -- is lost, a load fails and leaves what is set. It is assumed that what the library writes of these
  -- settings, it reads.
  pub saved_or_lost :
      (s s0 : AppSettings) (old : Option Text)
      → ((j : J) (t : Text)
          → settings_json json s ≡ some j
          → json.dump j ≡ some t
          → json.parse t ≡ some j)
      → ((t : Text) × (save json s true old ≡ (true, some t)) × (load json s0 (some t) ≡ (true, s)))
        ⊎ ((save json s true old ≡ (false, some [])) × (load json s0 (some []) ≡ (false, s0)))
  unfolding save load
  saved_or_lost s s0 old reads_back =
      let (j, p, made, there, loads) = settings_json-loads s in
      elim (Option-cases (json.dump j)) [
        | inl refused ↦ inr (rw (made, save) (rw refused refl), rw (doc.empty, load) refl)
        | inr (t, written) ↦ inl (
          t,
          rw (made, save) (rw written refl),
          rw (reads_back j t made written, load) (rw there (loads s0)),
        )
      ]

  -- A file whose JSON lacks the name of the user, and has all else: the load fails, and leaves the settings
  -- half loaded.
  pub half_loaded :
      (s s0 : AppSettings) (t : Text) (j p : J)
      → json.parse t ≡ some j
      → json.at j (codes "mupen64plus") ≡ some p
      → Holds p s
      → string_at json j (codes "rom_file") ≡ some s.rom_file_path
      → string_at json j (codes "username") ≡ none
      → load json s0 (some t) ≡ (false, record s { username = s0.username })
  unfolding load load_json load_string
  half_loaded s s0 t j p parsed there holds rom nameless =
      rw (parsed, load)
        (rw (there, load)
          (rw (rom, load_json) (load_plugins-Holds p _ s _ holds ∙ rw nameless refl)))
