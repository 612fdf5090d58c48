-- ===== src/Emulator/Memory/Bytes.antt =====
-- The RAM as the console sees it: a byte at each logical address, and what one byte access does.
use net64_coop.Prelude.{
  ℕ, ◌+◌, ◌-◌, ◌*◌, ◌≤◌, ◌<◌, ◌^◌, ◌≡◌, ap, ◌⊎◌, some, arith, ◌==◌, if◌then◌else◌,
}
use net64_coop.Emulator.Error.{ok, throws, invalid_addr}
use net64_coop.Emulator.Memory.{
  Ram, Machine, logical_base, ram_size, real_addr, locate, update, read8, write8,
}

-- The `n` bytes from `addr` on are in the RAM.
abbrev pub InRam : ℕ → ℕ → Type 0
InRam addr n = (logical_base ≤ addr) × (addr + n ≤ logical_base + ram_size)

abbrev pub machine : Ram → Machine
machine r = record { ram = some r }

pub phys : ℕ → ℕ
unfolding real_addr
phys addr = real_addr (addr - logical_base)

pub peek : Ram → ℕ → ℕ
peek r addr = r (phys addr)

pub poke : Ram → ℕ → ℕ → Ram
poke r addr v = update r (phys addr) v

phys-lt : (a : ℕ) → InRam a 1 → phys a < ram_size
unfolding phys
phys-lt a h = omega arith

phys_injective : (a b : ℕ) → InRam a 1 → InRam b 1 → phys a ≡ phys b → a ≡ b
unfolding phys
phys_injective a b h k e = omega arith

pub peek-poke :
    (r : Ram) (a b v : ℕ)
    → InRam a 1
    → InRam b 1
    → peek (poke r a v) b ≡ (if a == b then v else peek r b)
unfolding peek poke
peek-poke r a b v h k = ground (arith, phys_injective a b h k)

locate_in : (r : Ram) (a : ℕ) → InRam a 1 → locate (machine r) a ≡ ok (phys a, r)
unfolding locate phys
locate_in r a h = ground arith

pub read8_in : (r : Ram) (a : ℕ) → InRam a 1 → read8 (machine r) a ≡ ok (peek r a)
unfolding read8 peek
read8_in r a h = rw (locate_in r a h)

pub write8_in :
    (r : Ram) (a v : ℕ) → InRam a 1 → write8 a v (machine r) ≡ (ok tt, machine (poke r a v))
unfolding write8 poke
write8_in r a v h = rw (locate_in r a h, write8)

pub in_or_out : (b : ℕ) → InRam b 1 ⊎ ((b < logical_base) ⊎ (logical_base + ram_size ≤ b))
in_or_out b = omega arith

locate_out :
    (m : Machine) (b : ℕ)
    → b < 2 ^ 32
    → (b < logical_base) ⊎ (logical_base + ram_size ≤ b)
    → locate m b ≡ throws invalid_addr
unfolding locate
locate_out m b h out = ground arith

pub read8_out :
    (m : Machine) (b : ℕ)
    → b < 2 ^ 32
    → (b < logical_base) ⊎ (logical_base + ram_size ≤ b)
    → read8 m b ≡ throws invalid_addr
unfolding read8
read8_out m b h out = rw (locate_out m b h out)

pub write8_out :
    (m : Machine) (b v : ℕ)
    → b < 2 ^ 32
    → (b < logical_base) ⊎ (logical_base + ram_size ≤ b)
    → write8 b v m ≡ (throws invalid_addr, m)
unfolding write8
write8_out m b v h out = rw (locate_out m b h out, write8)

-- The bytes of an aligned word stand in reverse.
pub peek_aligned :
    (r : Ram) (a k j : ℕ)
    → InRam a 4
    → a ≡ 4 * k
    → j < 4
    → peek r (a + j) ≡ r (a - logical_base + (3 - j))
unfolding peek phys
peek_aligned r a k j h e l = ap r (omega arith)
