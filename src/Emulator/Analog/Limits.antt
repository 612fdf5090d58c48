-- ===== src/Emulator/Analog/Limits.antt =====
-- What the dead zone and the peak are after they have been set.
use net64_coop.Prelude.{
  ℕ, zero, suc, ◌-◌, ◌<◌, ◌^◌, ◌≡◌, refl, ap, ◌∙◌, true, false, some, [], ◌∷◌, ◌++◌, arith, length,
  length-append, append_assoc,
}
use net64_coop.Net.{Text}
use net64_coop.Text.{decimal, has, nuls, padded, stoul}
use net64_coop.Text.Decimal.{stops, stoul-decimal, has-decimal, length-decimal}
use net64_coop.Emulator.Inputs.{ok}
use net64_coop.Emulator.Controllers.{Key, Config, saved}
use net64_coop.Emulator.Controllers.RoundTrip.{Works}
use net64_coop.Emulator.Analog.{
  after_comma, clamp, parse_analog_xy, analog_text, get_analog, set_analog,
}

after_comma-append : (s t : Text) → has 44 s ≡ false → after_comma (s ++ (44 ∷ t)) ≡ some t
unfolding after_comma has
after_comma-append [] t h = refl
after_comma-append (c ∷ s) t h = ground (arith, after_comma-append s t)

stops-nuls : (z : ℕ) → stops (nuls z) ≡ true
stops-nuls zero = refl
stops-nuls (suc z) = refl

-- The text of a number, whatever NULs follow it, is parsed as that number twice, at most the maximum.
parse_analog_xy-analog_text :
    (n z : ℕ) → n < 2 ^ 32 → parse_analog_xy (analog_text n ++ nuls z) ≡ ok (clamp n, clamp n)
unfolding parse_analog_xy analog_text
parse_analog_xy-analog_text n z h =
    let split : analog_text n ++ nuls z ≡ decimal n ++ (44 ∷ (decimal n ++ nuls z)) =
      append_assoc (decimal n) (44 ∷ decimal n) (nuls z) in
    let behind =
      ap after_comma split
      ∙ after_comma-append (decimal n) (decimal n ++ nuls z) (has-decimal 44 n refl) in
    let x = ap stoul split ∙ stoul-decimal n (44 ∷ (decimal n ++ nuls z)) (omega arith) refl in
    let y = stoul-decimal n (nuls z) (omega arith) (stops-nuls z) in
    simp (parse_analog_xy, behind, x, y) refl

length-analog_text : (n : ℕ) → n < 2 ^ 32 → length (analog_text n) < 128
unfolding analog_text
length-analog_text n h =
    let all = length-append (decimal n) (44 ∷ decimal n) in
    let one = length-decimal n h in omega (arith)

module _ {S F : Type 0} (config : Config S) (works : Works config) (scale : ℕ → F)
    (absolute : F → ℕ) where
  set_analog-saved :
      (s : S) (key : Key) (value old : F) (s' : S)
      → get_analog config scale absolute s key ≡ some old
      → config.set_string s key (analog_text (absolute value)) ≡ some s'
      → set_analog config scale absolute s key value ≡ (true, s')
  unfolding set_analog saved
  set_analog-saved s key value old s' there put =
      simp (set_analog, there, works.opens s, put, saved, works.saves s') refl

  -- Over a core that works, a dead zone or a peak that is set where there was one returns true, and the
  -- number of 32 bits it was made into is read back, at most 32767, through the two numbers of the text
  -- and the NULs of the buffer behind them.
  pub analog_is_read :
      (s : S) (key : Key) (value old : F)
      → absolute value < 2 ^ 32
      → get_analog config scale absolute s key ≡ some old
      → (s' : S) × (set_analog config scale absolute s key value ≡ (true, s'))
        × (get_analog config scale absolute s' key ≡ some (scale (clamp (absolute value))))
  unfolding get_analog padded
  analog_is_read s key value old fits there =
      let n = absolute value in
      let (s', put, got) = works.sets_string s key (analog_text n) (length-analog_text n fits) in
      let parsed = parse_analog_xy-analog_text n (128 - length (analog_text n)) fits in
      (
        s',
        set_analog-saved s key value old s' there put,
        simp (get_analog, works.opens s', got, parsed) refl,
      )
