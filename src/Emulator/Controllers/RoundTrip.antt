-- ===== src/Emulator/Controllers/RoundTrip.antt =====
-- What is set is read back, over a core whose configuration works.
use net64_coop.Prelude.{
  false, length, ◌<◌, ◌≤◌, arith, [], ◌∷◌, ℤ, negsuc, ◌≡◌, refl, Bool, true, ◌||◌, some,
  if◌then◌else◌, Bool-cases, inl, inr,
}
use net64_coop.Net.{Text}
use net64_coop.Text.{same_text, c_str, padded}
use net64_coop.Emulator.Controllers.{
  ControllerPak, no_pak, mem_pak, rumble_pak, ConfigurationMode, manual, auto_named_sdl_dev,
  automatic, Key, plugin_key, mode_key, name_key, device_key, Config, keyboard, is_minus_one,
  pak_of, number_of_pak, mode_of, number_of_mode, saved, get_pak, set_pak, get_config_mode,
  set_config_mode, get_switch, set_switch, get_device, put_device, set_device,
}

-- A core in which the section is there, values can be set and are read back, a text with the NUL
-- characters that fill the buffer, a number does not disturb the texts and the other numbers, and saving
-- succeeds.
pub record Works {S : Type 0} (config : Config S) : Type 0 where
  pub opens : (s : S) → config.open_section s ≡ true
  pub saves : (s : S) → config.save s ≡ true
  pub sets_int :
      (s : S) (k : Key) (i : ℤ)
      → (s' : S) × (config.set_int s k i ≡ some s')
        × (config.get_int s' k ≡ some i)
        × ((j : Key) → config.get_string s' j ≡ config.get_string s j)
        × ((j : Key) → same_text j k ≡ false → config.get_int s' j ≡ config.get_int s j)
  pub sets_bool :
      (s : S) (k : Key) (v : Bool)
      → (s' : S) × (config.set_bool s k v ≡ some s') × (config.get_bool s' k ≡ some v)
  pub sets_string :
      (s : S) (k : Key) (t : Text)
      → length t < 128
      → (s' : S) × (config.set_string s k t ≡ some s') × (config.get_string s' k ≡ some (padded t))

pak_of-number_of_pak : (pak : ControllerPak) → pak_of (number_of_pak pak) ≡ some pak
unfolding pak_of number_of_pak
pak_of-number_of_pak no_pak = refl
pak_of-number_of_pak mem_pak = refl
pak_of-number_of_pak rumble_pak = refl

mode_of-number_of_mode : (mode : ConfigurationMode) → mode_of (number_of_mode mode) ≡ some mode
unfolding mode_of number_of_mode
mode_of-number_of_mode manual = refl
mode_of-number_of_mode auto_named_sdl_dev = refl
mode_of-number_of_mode automatic = refl

length-c_str : (t : Text) → length (c_str t) ≤ length t
unfolding c_str
length-c_str [] = omega arith
length-c_str (c ∷ t) = ground (arith, length-c_str t)

module _ {S : Type 0} (config : Config S) (works : Works config) where
  set_pak-saved :
      (s : S) (old pak : ControllerPak) (s' : S)
      → get_pak config s ≡ some old
      → config.set_int s plugin_key (number_of_pak pak) ≡ some s'
      → set_pak config s pak ≡ (true, s')
  unfolding set_pak saved
  set_pak-saved s old pak s' there put =
      simp (set_pak, there, works.opens s, put, saved, works.saves s') refl

  set_config_mode-saved :
      (s : S) (old mode : ConfigurationMode) (s' : S)
      → get_config_mode config s ≡ some old
      → config.set_int s mode_key (number_of_mode mode) ≡ some s'
      → set_config_mode config s mode ≡ (true, s')
  unfolding set_config_mode saved
  set_config_mode-saved s old mode s' there put =
      simp (set_config_mode, there, works.opens s, put, saved, works.saves s') refl

  set_switch-saved :
      (s : S) (key : Key) (old v : Bool) (s' : S)
      → get_switch config s key ≡ some old
      → config.set_bool s key v ≡ some s'
      → set_switch config s key v ≡ (true, s')
  unfolding set_switch saved
  set_switch-saved s key old v s' there put =
      simp (set_switch, there, works.opens s, put, saved, works.saves s') refl

  -- Over a core that works, a pak, a mode or a switch that is set where a valid one was is read back,
  -- and setting it returns true.
  pub setting_is_read :
      (s : S)
      → ((old pak : ControllerPak)
          → get_pak config s ≡ some old
          → (s' : S) × (set_pak config s pak ≡ (true, s')) × (get_pak config s' ≡ some pak))
        × ((old mode : ConfigurationMode)
            → get_config_mode config s ≡ some old
            → (s' : S) × (set_config_mode config s mode ≡ (true, s'))
              × (get_config_mode config s' ≡ some mode))
        × ((key : Key) (old v : Bool)
            → get_switch config s key ≡ some old
            → (s' : S) × (set_switch config s key v ≡ (true, s'))
              × (get_switch config s' key ≡ some v))
  unfolding get_pak get_config_mode get_switch
  setting_is_read s = (
    λ old pak there.
        let (s', put, got, kept, others) = works.sets_int s plugin_key (number_of_pak pak) in
        (
          s',
          set_pak-saved s old pak s' there put,
          simp (get_pak, works.opens s', got) (pak_of-number_of_pak pak),
        ),
    λ old mode there.
        let (s', put, got, kept, others) = works.sets_int s mode_key (number_of_mode mode) in
        (
          s',
          set_config_mode-saved s old mode s' there put,
          simp (get_config_mode, works.opens s', got) (mode_of-number_of_mode mode),
        ),
    λ key old v there.
        let (s', put, got) = works.sets_bool s key v in
        (s', set_switch-saved s key old v s' there put, simp (get_switch, works.opens s') got),
  )

  put_is_read :
      (s : S) (name : Text) (i : ℤ)
      → length name < 128
      → (s' : S) × (put_device config s name i ≡ (true, s'))
        × (get_device config s' ≡ some (padded (c_str name), i))
  unfolding put_device get_device saved
  put_is_read s name i fits =
      let short = length-c_str name in
      let (s1, put1, got1) = works.sets_string s name_key (c_str name) (omega arith) in
      let (s2, put2, got2, kept, others) = works.sets_int s1 device_key i in
      (
        s2,
        simp (put_device, put1, put2, saved, works.saves s2) refl,
        simp (get_device, works.opens s2, kept name_key, got1, got2) refl,
      )

  -- Over a core that works, a device that is set where there was one is read back with its index, its
  -- name of fewer than 128 characters up to the first NUL and filled up with NULs to 128; the index -1
  -- and the name of the keyboard both give the keyboard with the index -1.
  pub device_is_read :
      (s : S) (old : Text × ℤ) (device : Text) (device_index : ℤ)
      → length device < 128
      → get_device config s ≡ some old
      → (s' : S) × (set_device config s device device_index ≡ (true, s'))
        × (get_device config s'
            ≡ some (
                if is_minus_one device_index || same_text device keyboard
                then (padded keyboard, negsuc 0)
                else (padded (c_str device), device_index)))
  unfolding set_device c_str
  device_is_read s old device device_index fits there =
      elim (Bool-cases (is_minus_one device_index || same_text device keyboard)) [
        | inl keys ↦
            let (s', put, got) = put_is_read s keyboard (negsuc 0) (omega arith) in
            (s', simp (set_device, there, works.opens s, keys) put, simp keys got)
        | inr other ↦
            let (s', put, got) = put_is_read s device device_index fits in
            (s', simp (set_device, there, works.opens s, other) put, simp other got)
      ]
