-- ===== src/MemHandle/Alignment.antt =====
-- What the guessed alignment of `read_aligned` and `write_aligned` comes to.
use net64_coop.Prelude.{ℕ, ◌+◌, ◌-◌, ◌*◌, ◌%◌, ◌^◌, ◌<◌, ◌≤◌, ◌≡◌, ◌↔◌, arith}
use net64_coop.MemHandle.{Width, u8, u16, u32, u64, size_of, align}

-- For types of one or two bytes the guessed address is a multiple of the type's size, not below the
-- given one and less than that size above it, if it does not wrap.
pub align_narrow :
    (w : Width) (offset : ℕ)
    → offset < 2 ^ 32 - 1
    → size_of w ≤ 2
    → (align w offset % size_of w ≡ 0)
      × (offset ≤ align w offset)
      × (align w offset < offset + size_of w)
unfolding align
align_narrow u8 offset h s = omega arith
align_narrow u16 offset h s = omega arith
align_narrow u32 offset h s = absurd (omega arith)
align_narrow u64 offset h s = absurd (omega arith)

-- For types of four or eight bytes the guessed address is a multiple of the type's size exactly where
-- the given one is a multiple of half that size. Elsewhere the access is left unaligned.
pub align_wide :
    (w : Width) (offset : ℕ)
    → offset < 2 ^ 32 - 8
    → 4 ≤ size_of w
    → (align w offset % size_of w ≡ 0) ↔ ((offset * 2) % size_of w ≡ 0)
unfolding align
align_wide u8 offset h s = absurd (omega arith)
align_wide u16 offset h s = absurd (omega arith)
align_wide u32 offset h s = (λ e. omega arith, λ e. omega arith)
align_wide u64 offset h s = (λ e. omega arith, λ e. omega arith)
