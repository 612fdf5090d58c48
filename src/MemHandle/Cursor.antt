-- ===== src/MemHandle/Cursor.antt =====
-- Reading back through `readc` what `writec` wrote.
use net64_coop.Prelude.{ℕ, ◌+◌, ◌*◌, ◌^◌, ◌<◌, ◌≤◌, ◌≡◌, refl, ap, ◌⊎◌, inl, arith}
use net64_coop.Emulator.Error.{ok}
use net64_coop.Emulator.Memory.{Ram, Machine, add32, read16, read32, read64}
use net64_coop.Emulator.Memory.Bytes.{InRam, machine, poke, peek-poke, read8_in, write8_in}
use net64_coop.Emulator.Memory.Words.{writes16, writes32, writes64}
use net64_coop.Emulator.Memory.Words.RoundTrip.{
  SameOutside, SameOutside-peek, read16-write16, read32-write32, read64-write64,
}
use net64_coop.MemHandle.{Width, u8, u16, u32, u64, size_of, read, write, readc, writec}

abbrev pub limit : Width → ℕ
limit w = 2 ^ (8 * size_of w)

-- A write of any width inside the RAM: it succeeds, is read back, and changes nothing else.
abbrev Written : Width → Ram → ℕ → ℕ → Type 0
Written w r a v =
    (r' : Ram) × (write w a v (machine r) ≡ (ok tt, machine r'))
    × (read w (machine r') a ≡ ok v)
    × SameOutside a (size_of w) (machine r) (machine r')

write_in : (w : Width) (r : Ram) (a v : ℕ) → InRam a (size_of w) → v < limit w → Written w r a v
unfolding read write
write_in u8 r a v h k = (
  poke r a v,
  write8_in r a v h,
  rw (read8_in (poke r a v) a h) (ap ok (ground (arith, peek-poke r a a v h h))),
  SameOutside-peek r (poke r a v) a 1 (λ b i away. ground (arith, peek-poke r a b v h i)),
)
write_in u16 r a v h k =
    let (r', e) = writes16 r a v h in
    (r', e, rw e at (read16-write16 r a v h k).1, rw e at (read16-write16 r a v h k).2)
write_in u32 r a v h k =
    let (r', e) = writes32 r a v h in
    (r', e, rw e at (read32-write32 r a v h k).1, rw e at (read32-write32 r a v h k).2)
write_in u64 r a v h k =
    let (r', e) = writes64 r a v h in
    (r', e, rw e at (read64-write64 r a v h k).1, rw e at (read64-write64 r a v h k).2)

-- Reads away from what changed.
module _ (m m' : Machine) (a n : ℕ) (s : SameOutside a n m m') where
  read16_same : (b : ℕ) → b + 2 ≤ 2 ^ 32 → (b + 2 ≤ a) ⊎ (a + n ≤ b) → read16 m' b ≡ read16 m b
  unfolding read16
  read16_same b h away = ground (arith, s b, s (add32 b 1))

  read32_same : (b : ℕ) → b + 4 ≤ 2 ^ 32 → (b + 4 ≤ a) ⊎ (a + n ≤ b) → read32 m' b ≡ read32 m b
  unfolding read32
  read32_same b h away = ground (arith, s b, s (add32 b 1), s (add32 b 2), s (add32 b 3))

  read64_same : (b : ℕ) → b + 8 ≤ 2 ^ 32 → (b + 8 ≤ a) ⊎ (a + n ≤ b) → read64 m' b ≡ read64 m b
  unfolding read64
  read64_same b h away = ground (arith, read32_same b, read32_same (add32 b 4))

  read_same :
      (w : Width) (b : ℕ)
      → b + size_of w ≤ 2 ^ 32
      → (b + size_of w ≤ a) ⊎ (a + n ≤ b)
      → read w m' b ≡ read w m b
  unfolding read
  read_same u8 b h away = s b (omega arith) (omega arith)
  read_same u16 b h away = read16_same b h away
  read_same u32 b h away = read32_same b h away
  read_same u64 b h away = read64_same b h away

size_of-le : (w : Width) → size_of w ≤ 8
size_of-le u8 = omega arith
size_of-le u16 = omega arith
size_of-le u32 = omega arith
size_of-le u64 = omega arith

-- Two values written one after the other through one offset, at any widths, inside the RAM: both
-- writes succeed, the two reads that start at the same place return the values, and the offset ends
-- behind them either way.
pub readc-writec_two :
    (w w' : Width) (r : Ram) (a v v' : ℕ)
    → InRam a (size_of w + size_of w')
    → v < limit w
    → v' < limit w'
    → let (done, m, offset) = writec w a v (machine r) in
      let (done', m', offset') = writec w' offset v' m in
      (done ≡ ok tt)
      × (done' ≡ ok tt)
      × (readc w m' a ≡ ok (v, offset))
      × (readc w' m' offset ≡ ok (v', offset'))
      × (offset' ≡ a + size_of w + size_of w')
unfolding writec readc
readc-writec_two w w' r a v v' h k k' =
    let (r1, e, back, _) = write_in w r a v (omega arith) k in
    let next : add32 a (size_of w) ≡ a + size_of w = omega (arith, size_of-le w) in
    let (r2, e', back', same) = write_in w' r1 (a + size_of w) v' (omega arith) k' in
    let kept = read_same _ _ _ _ same w a (omega arith) (inl (omega arith)) in
    rw (e, next, e')
      (refl, refl, rw (kept, back), rw back', omega (arith, size_of-le w, size_of-le w'))
