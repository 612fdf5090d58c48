-- ===== src/MemHandle.antt =====
-- src/net64/memory/memory_handle.hpp and .cpp: `MemHandle`. The width of the accessed type is a
-- constructor; signed and enumeration types go through the unsigned type of their width.
pub mod Cursor
pub mod Alignment
mod Tests
use net64_coop.Prelude.{ℕ, ◌+◌, ◌-◌, ◌*◌, ◌%◌, ◌^◌, ◌≤◌, ◌≡◌, refl, Bool, ◌&&◌, ltb, leb}
use net64_coop.Emulator.Error.{Result, ok, ◌>>=◌}
use net64_coop.Emulator.Memory.{
  Machine, Write, logical_base, ram_size, add32, read8, read16, read32, read64, write8, write16,
  write32, write64,
}

pub data Width : Type 0 where
  u8 u16 u32 u64 : Width

abbrev pub size_of : Width → ℕ
size_of u8 = 1
size_of u16 = 2
size_of u32 = 4
size_of u64 = 8

unfoldable pub read : Width → Machine → ℕ → Result ℕ
read u8 m addr = read8 m addr
read u16 m addr = read16 m addr
read u32 m addr = read32 m addr
read u64 m addr = read64 m addr

unfoldable pub write : Width → ℕ → ℕ → Write
write u8 addr val = write8 addr val
write u16 addr val = write16 addr val
write u32 addr val = write32 addr val
write u64 addr val = write64 addr val

-- `offset += offset % sizeof(T)`
unfoldable pub align : Width → ℕ → ℕ
align w offset = add32 offset (offset % size_of w)

unfoldable pub read_aligned : Width → Machine → ℕ → Result ℕ
read_aligned w m offset = read w m (align w offset)

unfoldable pub write_aligned : Width → ℕ → ℕ → Write
write_aligned w offset val = write w (align w offset) val

-- The new offset comes back beside the value.
unfoldable pub readc : Width → Machine → ℕ → Result (ℕ × ℕ)
readc w m offset = do val ← read w m offset; ok (val, add32 offset (size_of w))

-- `offset` moves on only if the write does not throw.
advance : Width → ℕ → Result (Unit {0}) → ℕ
advance w offset (ok u) = add32 offset (size_of w)
advance w offset _ = offset

unfoldable pub writec : Width → ℕ → ℕ → Machine → Result (Unit {0}) × Machine × ℕ
unfolding advance
writec w offset val m = let (done, m') = write w offset val m in (done, m', advance w offset done)

unfoldable pub readc_aligned : Width → Machine → ℕ → Result (ℕ × ℕ)
readc_aligned w m offset = readc w m (align w offset)

unfoldable pub writec_aligned : Width → ℕ → ℕ → Machine → Result (Unit {0}) × Machine × ℕ
writec_aligned w offset val m = writec w (align w offset) val m

unfoldable pub valid_offset : ℕ → Bool
valid_offset offset = leb logical_base offset && ltb offset (logical_base + ram_size)
