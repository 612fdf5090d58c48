-- ===== src/Emulator/Settings/Screen.antt =====
-- The settings of the screen and of the sound are read back.
use net64_coop.Prelude.{ℕ, ◌^◌, ◌<◌, ◌≡◌, refl, ap, ◌∙◌, true, some, arith}
use net64_coop.Text.{same_text}
use net64_coop.Emulator.Controllers.{Config, saved}
use net64_coop.Emulator.Controllers.RoundTrip.{Works}
use net64_coop.Emulator.Settings.{
  unsigned_of, int_of_unsigned, screen_width, screen_height, get_dimensions, put_dimensions,
  set_dimensions,
}

-- The casts between `unsigned` and `int` undo each other.
unsigned_of-int_of_unsigned : (n : ℕ) → n < 2 ^ 32 → unsigned_of (int_of_unsigned n) ≡ n
unfolding unsigned_of int_of_unsigned
unsigned_of-int_of_unsigned n h = ground arith

module _ {S : Type 0} (config : Config S) (works : Works config) (s : S) where
  set_dimensions-saved :
      (width height : ℕ) (old : ℕ × ℕ) (s1 s2 : S)
      → get_dimensions config s ≡ some old
      → config.set_int s screen_width (int_of_unsigned width) ≡ some s1
      → config.set_int s1 screen_height (int_of_unsigned height) ≡ some s2
      → set_dimensions config s width height ≡ (true, s2)
  unfolding set_dimensions put_dimensions saved
  set_dimensions-saved width height old s1 s2 there put1 put2 =
      simp (set_dimensions, there, works.opens s, put_dimensions, put1, put2, saved, works.saves s2)
        refl

  -- Over a core that works, the size of the screen that is set where there was one is read back, for all
  -- values of `unsigned`, although the core stores it as two `int`s.
  pub dimensions_are_read :
      (width height : ℕ) (old : ℕ × ℕ)
      → width < 2 ^ 32
      → height < 2 ^ 32
      → get_dimensions config s ≡ some old
      → (s' : S) × (set_dimensions config s width height ≡ (true, s'))
        × (get_dimensions config s' ≡ some (width, height))
  unfolding get_dimensions same_text
  dimensions_are_read width height old hw hh there =
      let (s1, put1, got1, _, _) = works.sets_int s screen_width (int_of_unsigned width) in
      let (s2, put2, got2, _, others) = works.sets_int s1 screen_height (int_of_unsigned height) in
      let got1' = others screen_width refl ∙ got1 in
      (
        s2,
        set_dimensions-saved width height old s1 s2 there put1 put2,
        simp (get_dimensions, works.opens s2, got1', got2)
            (ap some (λ i.
              (unsigned_of-int_of_unsigned width hw i, unsigned_of-int_of_unsigned height hh i))),
      )
