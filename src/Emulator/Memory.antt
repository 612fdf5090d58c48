-- ===== src/Emulator/Memory.antt =====
-- src/net64/emulator/m64plus.cpp: access to the emulated RAM by `read`, `write`, `read_memory` and
-- `write_memory`. Addresses and sizes are `u32`. The core keeps each 32-bit word of the RAM in the
-- byte order of a little-endian host, so the byte of the console at address a is the host's byte at
-- `real_addr`.
pub mod Bytes
pub mod Words
pub mod Floats
pub mod Blocks
mod Tests
use net64_coop.Prelude.{
  ℕ, ◌+◌, ◌-◌, ◌*◌, ◌/◌, ◌%◌, ◌^◌, Option, none, some, ltb, leb, ◌==◌, if◌then◌else◌,
}
use net64_coop.Emulator.Error.{
  Result, ok, throws, undefined, invalid_addr, invalid_state, ◌>>=◌, ◌>>◌,
}

-- The bytes behind the pointer that `DebugMemGetPointer` returns, which may be null.
abbrev pub Ram : Type 0
Ram = ℕ → ℕ

pub record Machine : Type 0 where
  pub ram : Option Ram

abbrev pub logical_base : ℕ
logical_base = 0x80000000

abbrev pub ram_size : ℕ
ram_size = 0x800000

abbrev pub bswap_size : ℕ
bswap_size = 4

-- `u32` arithmetic
abbrev pub add32 : ℕ → ℕ → ℕ
add32 a b = (a + b) % 2 ^ 32

abbrev pub sub32 : ℕ → ℕ → ℕ
sub32 a b = (a + 2 ^ 32 - b) % 2 ^ 32

unfoldable pub logical2physical : ℕ → Result ℕ
logical2physical addr =
    if ltb addr logical_base then throws invalid_addr else ok (sub32 addr logical_base)

unfoldable pub check_bounds : ℕ → ℕ → Result (Unit {0})
check_bounds addr size = if ltb ram_size (add32 addr size) then throws invalid_addr else ok tt

abbrev pub get_mem_ptr : Machine → Result Ram
get_mem_ptr m = elim m.ram [ none ↦ throws invalid_state | some r ↦ ok r ]

-- where the byte of a physical address stands
unfoldable pub real_addr : ℕ → ℕ
real_addr addr = add32 (sub32 addr (2 * (addr % bswap_size))) (bswap_size - 1)

-- the common start of the byte accesses: where the byte stands, and the RAM
unfoldable pub locate : Machine → ℕ → Result (ℕ × Ram)
unfolding logical2physical check_bounds real_addr
locate m addr = do
  phys ← logical2physical addr
  check_bounds phys 1
  ptr ← get_mem_ptr m
  ok (real_addr phys, ptr)

unfoldable pub read8 : Machine → ℕ → Result ℕ
read8 m addr = locate m addr >>= λ found. ok (found.1 found.0)

unfoldable pub read16 : Machine → ℕ → Result ℕ
read16 m addr = do b0 ← read8 m addr; b1 ← read8 m (add32 addr 1); ok (b0 * 2 ^ 8 + b1)

unfoldable pub read32 : Machine → ℕ → Result ℕ
read32 m addr = do
  b0 ← read8 m addr
  b1 ← read8 m (add32 addr 1)
  b2 ← read8 m (add32 addr 2)
  b3 ← read8 m (add32 addr 3)
  ok (b0 * 2 ^ 24 + b1 * 2 ^ 16 + b2 * 2 ^ 8 + b3)

unfoldable pub read64 : Machine → ℕ → Result ℕ
read64 m addr = do w0 ← read32 m addr; w1 ← read32 m (add32 addr 4); ok (w0 * 2 ^ 32 + w1)

-- A write keeps what was written before a later part of it throws.
abbrev pub Write : Type 0
Write = Machine → Result (Unit {0}) × Machine

infixl 5 ◌▸◌
abbrev pub ◌▸◌ : Result (Unit {0}) × Machine → Write → Result (Unit {0}) × Machine
r ▸ w = elim r.0 [ ok u ↦ w r.1 | throws e ↦ (throws e, r.1) | undefined ↦ (undefined, r.1) ]

abbrev pub update : Ram → ℕ → ℕ → Ram
update r p v q = if q == p then v else r q

unfoldable pub write8 : ℕ → ℕ → Write
write8 addr v m = elim (locate m addr) [
  | ok (p, r) ↦ (ok tt, record { ram = some (update r p v) })
  | throws e ↦ (throws e, m)
  | undefined ↦ (undefined, m)
]

unfoldable pub write16 : ℕ → ℕ → Write
write16 addr v m = write8 (add32 addr 1) (v % 2 ^ 8) m ▸ write8 addr (v / 2 ^ 8 % 2 ^ 8)

unfoldable pub write32 : ℕ → ℕ → Write
write32 addr v m =
    write8 (add32 addr 3) (v % 2 ^ 8) m
    ▸ write8 (add32 addr 2) (v / 2 ^ 8 % 2 ^ 8)
    ▸ write8 (add32 addr 1) (v / 2 ^ 16 % 2 ^ 8)
    ▸ write8 addr (v / 2 ^ 24 % 2 ^ 8)

unfoldable pub write64 : ℕ → ℕ → Write
write64 addr v m = write32 (add32 addr 4) (v % 2 ^ 32) m ▸ write32 addr (v / 2 ^ 32 % 2 ^ 32)
