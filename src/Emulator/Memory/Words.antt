-- ===== src/Emulator/Memory/Words.antt =====
-- Words of several bytes in the console's view of the RAM.
pub mod RoundTrip
pub mod Bounds
use net64_coop.Prelude.{
  ℕ, ◌+◌, ◌-◌, ◌*◌, ◌/◌, ◌%◌, ◌^◌, ◌≤◌, ◌<◌, ◌≡◌, refl, ap, ◌⊎◌, inl, inr, arith, ltb, ◌==◌,
  if◌then◌else◌,
}
use net64_coop.Emulator.Error.{Result, ok, throws, invalid_addr, ◌>>=◌}
use net64_coop.Emulator.Memory.{
  Ram, Machine, logical_base, ram_size, add32, read8, write8, read16, write16, read32, write32,
  read64, write64, ◌▸◌,
}
use net64_coop.Emulator.Memory.Bytes.{
  InRam, machine, peek, poke, peek-poke, read8_in, write8_in, read8_out, write8_out, in_or_out,
}

pub word16 : Ram → ℕ → ℕ
word16 r a = peek r a * 2 ^ 8 + peek r (a + 1)

unfoldable pub word32 : Ram → ℕ → ℕ
word32 r a = peek r a * 2 ^ 24 + peek r (a + 1) * 2 ^ 16 + peek r (a + 2) * 2 ^ 8 + peek r (a + 3)

pub poke16 : Ram → ℕ → ℕ → Ram
poke16 r a v = poke (poke r (a + 1) (v % 2 ^ 8)) a (v / 2 ^ 8 % 2 ^ 8)

pub poke32 : Ram → ℕ → ℕ → Ram
poke32 r a v =
    poke
      (poke (poke (poke r (a + 3) (v % 2 ^ 8)) (a + 2) (v / 2 ^ 8 % 2 ^ 8)) (a + 1)
        (v / 2 ^ 16 % 2 ^ 8))
      a (v / 2 ^ 24 % 2 ^ 8)

pub read32_in : (r : Ram) (a : ℕ) → InRam a 4 → read32 (machine r) a ≡ ok (word32 r a)
unfolding read32 word32
read32_in r a h =
    ground
      (arith, read8_in r a, read8_in r (add32 a 1), read8_in r (add32 a 2), read8_in r (add32 a 3))

-- One byte write of a sequence, at an address that does not wrap.
▸-write8 :
    (w : Result (Unit {0}) × Machine) (r : Ram) (a b v : ℕ)
    → w ≡ (ok tt, machine r)
    → b ≡ a
    → InRam a 1
    → (w ▸ write8 b v) ≡ (ok tt, machine (poke r a v))
▸-write8 w r a b v e f h = rw (e, f) (write8_in r a v h)

pub write16_in :
    (r : Ram) (a v : ℕ) → InRam a 2 → write16 a v (machine r) ≡ (ok tt, machine (poke16 r a v))
unfolding write16 poke16
write16_in r a v h =
    ▸-write8 _ _ a a _ (▸-write8 (ok tt, machine r) r (a + 1) _ _ refl (omega arith) (omega arith))
      refl (omega arith)

pub write32_in :
    (r : Ram) (a v : ℕ) → InRam a 4 → write32 a v (machine r) ≡ (ok tt, machine (poke32 r a v))
unfolding write32 poke32
write32_in r a v h =
    ▸-write8 _ _ a a _
      (▸-write8 _ _ (a + 1) _ _
        (▸-write8 _ _ (a + 2) _ _
          (▸-write8 (ok tt, machine r) r (a + 3) _ _ refl (omega arith) (omega arith)) (omega arith)
          (omega arith))
        (omega arith) (omega arith))
      refl (omega arith)

pub read16_in : (r : Ram) (a : ℕ) → InRam a 2 → read16 (machine r) a ≡ ok (word16 r a)
unfolding read16 word16
read16_in r a h = ground (arith, read8_in r a, read8_in r (add32 a 1))

pub peek-poke16 :
    (r : Ram) (a b v : ℕ)
    → InRam a 2
    → InRam b 1
    → peek (poke16 r a v) b
      ≡ (if a == b then v / 2 ^ 8 % 2 ^ 8 else if (a + 1) == b then v % 2 ^ 8 else peek r b)
unfolding poke16
peek-poke16 r a b v h k =
    rw (peek-poke _ a b _ (omega arith) k, peek-poke _ (a + 1) b _ (omega arith) k)

pub peek-poke32 :
    (r : Ram) (a b v : ℕ)
    → InRam a 4
    → InRam b 1
    → peek (poke32 r a v) b ≡ (
        if a == b
        then v / 2 ^ 24 % 2 ^ 8
        else if (a + 1) == b
        then v / 2 ^ 16 % 2 ^ 8
        else if (a + 2) == b
        then v / 2 ^ 8 % 2 ^ 8
        else if (a + 3) == b
        then v % 2 ^ 8
        else peek r b)
unfolding poke32
peek-poke32 r a b v h k = rw (
  peek-poke _ a b _ (omega arith) k,
  peek-poke _ (a + 1) b _ (omega arith) k,
  peek-poke _ (a + 2) b _ (omega arith) k,
  peek-poke _ (a + 3) b _ (omega arith) k,
)

pub word16-poke16 : (r : Ram) (a v : ℕ) → InRam a 2 → v < 2 ^ 16 → word16 (poke16 r a v) a ≡ v
unfolding word16
word16-poke16 r a v h k = ground (arith, peek-poke16 r a a v h, peek-poke16 r a (a + 1) v h)

pub word32-poke32 : (r : Ram) (a v : ℕ) → InRam a 4 → v < 2 ^ 32 → word32 (poke32 r a v) a ≡ v
unfolding word32
word32-poke32 r a v h k = ground (
  arith,
  peek-poke32 r a a v h,
  peek-poke32 r a (a + 1) v h,
  peek-poke32 r a (a + 2) v h,
  peek-poke32 r a (a + 3) v h,
)

unfoldable pub poke64 : Ram → ℕ → ℕ → Ram
poke64 r a v = poke32 (poke32 r (a + 4) (v % 2 ^ 32)) a (v / 2 ^ 32 % 2 ^ 32)

pub write64_in :
    (r : Ram) (a v : ℕ) → InRam a 8 → write64 a v (machine r) ≡ (ok tt, machine (poke64 r a v))
unfolding write64 poke64
write64_in r a v h =
    let e : add32 a 4 ≡ a + 4 = omega arith in
    rw (e, write32_in r (a + 4) (v % 2 ^ 32) (omega arith)) (write32_in _ a _ (omega arith))

pub read64_in :
    (r : Ram) (a : ℕ)
    → InRam a 8
    → read64 (machine r) a ≡ ok (word32 r a * 2 ^ 32 + word32 r (a + 4))
unfolding read64
read64_in r a h = ground (arith, read32_in r a, read32_in r (add32 a 4))

word32-poke32_ne :
    (r : Ram) (a b v : ℕ)
    → InRam a 4
    → InRam b 4
    → (b + 4 ≤ a) ⊎ (a + 4 ≤ b)
    → word32 (poke32 r a v) b ≡ word32 r b
unfolding word32
word32-poke32_ne r a b v h k away = ground (
  arith,
  peek-poke32 r a b v h,
  peek-poke32 r a (b + 1) v h,
  peek-poke32 r a (b + 2) v h,
  peek-poke32 r a (b + 3) v h,
)

pub word64-poke64 :
    (r : Ram) (a v : ℕ)
    → InRam a 8
    → v < 2 ^ 64
    → word32 (poke64 r a v) a * 2 ^ 32 + word32 (poke64 r a v) (a + 4) ≡ v
unfolding poke64
word64-poke64 r a v h k = omega (
  arith,
  word32-poke32 (poke32 r (a + 4) (v % 2 ^ 32)) a (v / 2 ^ 32 % 2 ^ 32) (omega arith) (omega arith),
  word32-poke32_ne (poke32 r (a + 4) (v % 2 ^ 32)) a (a + 4) (v / 2 ^ 32 % 2 ^ 32) (omega arith)
      (omega arith) (inr (omega arith)),
  word32-poke32 r (a + 4) (v % 2 ^ 32) (omega arith) (omega arith),
)

module _ (r : Ram) (a v : ℕ) where
  pub writes16 : InRam a 2 → (r' : Ram) × (write16 a v (machine r) ≡ (ok tt, machine r'))
  writes16 h = (poke16 r a v, write16_in r a v h)

  pub writes32 : InRam a 4 → (r' : Ram) × (write32 a v (machine r) ≡ (ok tt, machine r'))
  writes32 h = (poke32 r a v, write32_in r a v h)

  pub writes64 : InRam a 8 → (r' : Ram) × (write64 a v (machine r) ≡ (ok tt, machine r'))
  writes64 h = (poke64 r a v, write64_in r a v h)
