-- ===== src/Emulator/Memory/Words/Bounds.antt =====
-- Words that are not wholly in the RAM.
use net64_coop.Prelude.{ℕ, ◌+◌, ◌%◌, ◌^◌, ◌≤◌, ◌<◌, ◌≡◌, ◌⊎◌, inl, inr, arith}
use net64_coop.Emulator.Error.{throws, invalid_addr}
use net64_coop.Emulator.Memory.{Ram, Machine, logical_base, ram_size, add32, read32, write32}
use net64_coop.Emulator.Memory.Bytes.{machine, read8_in, read8_out, write8_out, in_or_out}

-- A 32-bit read of the RAM at an address from which four bytes are not all inside throws
-- `INVALID_ADDR`.
pub read32_throws :
    (r : Ram) (a : ℕ)
    → a + 4 ≤ 2 ^ 32
    → (a < logical_base) ⊎ (logical_base + ram_size < a + 4)
    → read32 (machine r) a ≡ throws invalid_addr
unfolding read32
read32_throws r a h out = elim (in_or_out a) [
  | inr away ↦ rw (read8_out (machine r) a (omega arith) away)
  | inl here ↦ ground (
    arith,
    read8_in r a,
    read8_in r (add32 a 1),
    read8_in r (add32 a 2),
    read8_out (machine r) (add32 a 1),
    read8_out (machine r) (add32 a 2),
    read8_out (machine r) (add32 a 3),
  )
]

-- A 32-bit write whose four bytes pass the end of the RAM or end before it begins throws
-- `INVALID_ADDR` and writes nothing, on any machine.
pub write32_throws :
    (m : Machine) (a v : ℕ)
    → a + 4 ≤ 2 ^ 32
    → (a + 4 ≤ logical_base) ⊎ (logical_base + ram_size < a + 4)
    → write32 a v m ≡ (throws invalid_addr, m)
unfolding write32
write32_throws m a v h out = rw (write8_out m (add32 a 3) (v % 2 ^ 8) (omega arith) (ground arith))
