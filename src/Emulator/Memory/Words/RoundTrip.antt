-- ===== src/Emulator/Memory/Words/RoundTrip.antt =====
-- What is written is read back, and nothing else changes.
use net64_coop.Prelude.{ℕ, ◌+◌, ◌*◌, ◌/◌, ◌%◌, ◌^◌, ◌≤◌, ◌<◌, ◌≡◌, refl, ap, ◌⊎◌, inl, inr, arith}
use net64_coop.Emulator.Error.{ok, ◌>>=◌}
use net64_coop.Emulator.Memory.{
  Ram, Machine, add32, read8, read16, write16, read32, write32, read64, write64,
}
use net64_coop.Emulator.Memory.Bytes.{InRam, machine, peek, read8_in, read8_out, in_or_out}
use net64_coop.Emulator.Memory.Words.{
  poke16, poke32, poke64, read16_in, read32_in, read64_in, write16_in, write32_in, write64_in,
  peek-poke16, peek-poke32, word16-poke16, word32-poke32, word64-poke64,
}

-- The bytes outside a range, as a client can read them.
abbrev pub SameOutside : ℕ → ℕ → Machine → Machine → Type 0
SameOutside a n m m' = (b : ℕ) → b < 2 ^ 32 → (b < a) ⊎ (a + n ≤ b) → read8 m' b ≡ read8 m b

-- Machines whose bytes agree inside the RAM answer alike, since all other reads throw.
pub SameOutside-peek :
    (r r' : Ram) (a n : ℕ)
    → ((b : ℕ) → InRam b 1 → (b < a) ⊎ (a + n ≤ b) → peek r' b ≡ peek r b)
    → SameOutside a n (machine r) (machine r')
SameOutside-peek r r' a n same b w away = elim (in_or_out b) [
  | inl inside ↦ rw (read8_in r' b inside, read8_in r b inside) (ap ok (same b inside away))
  | inr outside ↦ rw (read8_out (machine r') b w outside, read8_out (machine r) b w outside)
]

-- `write(addr, u16)` inside the RAM succeeds; `read` returns what was written; no other byte changes.
pub read16-write16 :
    (r : Ram) (a v : ℕ)
    → InRam a 2
    → v < 2 ^ 16
    → let (done, m) = write16 a v (machine r) in
      (done ≡ ok tt) × (read16 m a ≡ ok v) × SameOutside a 2 (machine r) m
read16-write16 r a v h k = rw (write16_in r a v h) (
  refl,
  rw (read16_in (poke16 r a v) a h) (ap ok (word16-poke16 r a v h k)),
  SameOutside-peek r (poke16 r a v) a 2 (λ b i away. ground (arith, peek-poke16 r a b v h i)),
)

-- `write(addr, u32)` inside the RAM succeeds; `read` returns what was written; no other byte changes.
pub read32-write32 :
    (r : Ram) (a v : ℕ)
    → InRam a 4
    → v < 2 ^ 32
    → let (done, m) = write32 a v (machine r) in
      (done ≡ ok tt) × (read32 m a ≡ ok v) × SameOutside a 4 (machine r) m
read32-write32 r a v h k = rw (write32_in r a v h) (
  refl,
  rw (read32_in (poke32 r a v) a h) (ap ok (word32-poke32 r a v h k)),
  SameOutside-peek r (poke32 r a v) a 4 (λ b i away. ground (arith, peek-poke32 r a b v h i)),
)

peek-poke64_ne :
    (r : Ram) (a b v : ℕ)
    → InRam a 8
    → InRam b 1
    → (b < a) ⊎ (a + 8 ≤ b)
    → peek (poke64 r a v) b ≡ peek r b
unfolding poke64
peek-poke64_ne r a b v h i away = ground (
  arith,
  peek-poke32 (poke32 r (a + 4) (v % 2 ^ 32)) a b (v / 2 ^ 32 % 2 ^ 32),
  peek-poke32 r (a + 4) b (v % 2 ^ 32),
)

-- `write(addr, u64)` inside the RAM succeeds; `read` returns what was written; no other byte changes.
pub read64-write64 :
    (r : Ram) (a v : ℕ)
    → InRam a 8
    → v < 2 ^ 64
    → let (done, m) = write64 a v (machine r) in
      (done ≡ ok tt) × (read64 m a ≡ ok v) × SameOutside a 8 (machine r) m
read64-write64 r a v h k = rw (write64_in r a v h) (
  refl,
  rw (read64_in (poke64 r a v) a h) (ap ok (word64-poke64 r a v h k)),
  SameOutside-peek r (poke64 r a v) a 8 (λ b i away. peek-poke64_ne r a b v h i away),
)

-- On every machine and at every address, a 32-bit read is two 16-bit reads, the high half first;
-- errors included.
pub read32-eq-read16 :
    (m : Machine) (a : ℕ)
    → a < 2 ^ 32
    → read32 m a ≡ (read16 m a >>= λ hi. read16 m (add32 a 2) >>= λ lo. ok (hi * 2 ^ 16 + lo))
unfolding read32 read16
read32-eq-read16 m a h =
    let e : add32 (add32 a 2) 1 ≡ add32 a 3 = omega arith in rw e (ground arith)
