-- ===== src/Emulator/Memory/Floats.antt =====
-- The `f32` and `f64` accesses of src/net64/emulator/m64plus.cpp, and `bswap32` of
-- src/net64/memory/util.hpp. A float is the list of the bytes of its object on the host. A failed
-- `assert` counts as `undefined`.
use native.Mathlib.Nat.{add-zero}
use net64_coop.Prelude.{
  ℕ, zero, suc, ◌+◌, ◌-◌, ◌*◌, ◌%◌, ◌^◌, ◌≤◌, ◌<◌, ◌≡◌, refl, ap, sym, ◌∙◌, some, List, [], ◌∷◌,
  arith, ◌==◌, if◌then◌else◌, length,
}
use net64_coop.Emulator.Error.{Result, ok, throws, undefined, ◌>>=◌, ◌>>◌}
use net64_coop.Emulator.Memory.{
  Ram, Machine, Write, bswap_size, update, logical_base, logical2physical, check_bounds,
  get_mem_ptr, read32,
}
use net64_coop.Emulator.Memory.Words.{word32, read32_in}
use net64_coop.Emulator.Memory.Bytes.{InRam, machine, peek, peek_aligned}

-- swaps the bytes of each whole group of four
unfoldable pub bswap32 : List ℕ → List ℕ
bswap32 (a ∷ b ∷ c ∷ d ∷ rest) = d ∷ c ∷ b ∷ a ∷ bswap32 rest
bswap32 rest = rest

-- `std::copy_n` out of the RAM
unfoldable pub copy_from : Ram → ℕ → ℕ → List ℕ
copy_from r p zero = []
copy_from r p (suc n) = r p ∷ copy_from r (p + 1) n

-- `std::copy_n` into the RAM
unfoldable pub copy_to : Ram → ℕ → List ℕ → Ram
copy_to r p [] = r
copy_to r p (b ∷ bs) = copy_to (update r p b) (p + 1) bs

-- the start of the float accesses of `size` bytes
unfoldable pub float_start : Machine → ℕ → ℕ → Result (ℕ × Ram)
unfolding logical2physical check_bounds
float_start m addr size =
    if (addr % bswap_size) == 0
    then (do p ← logical2physical addr; check_bounds p size; ptr ← get_mem_ptr m; ok (p, ptr))
    else undefined

module _ (size : ℕ) where
  unfoldable pub read_float : Machine → ℕ → Result (List ℕ)
  read_float m addr = do
    found ← float_start m addr size
    ok (bswap32 (copy_from found.1 found.0 size))

  unfoldable pub write_float : ℕ → List ℕ → Write
  write_float addr val m = elim (float_start m addr size) [
    | ok (p, r) ↦ (ok tt, record { ram = some (copy_to r p (bswap32 val)) })
    | throws e ↦ (throws e, m)
    | undefined ↦ (undefined, m)
  ]

-- `bswap32` undoes itself, on any number of bytes.
pub bswap32-bswap32 : (bs : List ℕ) → bswap32 (bswap32 bs) ≡ bs
unfolding bswap32
bswap32-bswap32 (a ∷ b ∷ c ∷ d ∷ rest) = ap (λ t. a ∷ b ∷ c ∷ d ∷ t) (bswap32-bswap32 rest)
bswap32-bswap32 [] = refl
bswap32-bswap32 (a ∷ []) = refl
bswap32-bswap32 (a ∷ b ∷ []) = refl
bswap32-bswap32 (a ∷ b ∷ c ∷ []) = refl

float_start_in :
    (r : Ram) (a k size : ℕ)
    → InRam a size
    → a ≡ 4 * k
    → size ≤ 8
    → float_start (machine r) a size ≡ ok (a - logical_base, r)
unfolding float_start
float_start_in r a k size h e l = ground arith

length-bswap32 : (bs : List ℕ) → length (bswap32 bs) ≡ length bs
unfolding bswap32
length-bswap32 (a ∷ b ∷ c ∷ d ∷ rest) = omega (arith, length-bswap32 rest)
length-bswap32 [] = refl
length-bswap32 (a ∷ []) = refl
length-bswap32 (a ∷ b ∷ []) = refl
length-bswap32 (a ∷ b ∷ c ∷ []) = refl

copy_to_below : (r : Ram) (p q : ℕ) (bs : List ℕ) → q < p → copy_to r p bs q ≡ r q
unfolding copy_to
copy_to_below r p q [] h = refl
copy_to_below r p q (b ∷ bs) h = ground (arith, copy_to_below (update r p b) (p + 1) q bs)

copy_from-copy_to : (r : Ram) (p : ℕ) (bs : List ℕ) → copy_from (copy_to r p bs) p (length bs) ≡ bs
unfolding copy_from copy_to
copy_from-copy_to r p [] = refl
copy_from-copy_to r p (b ∷ bs) =
    ground (
      arith,
      copy_to_below (update r p b) (p + 1) p bs,
      copy_from-copy_to (update r p b) (p + 1) bs,
    )

-- At an address that is a multiple of 4, with all of its bytes in the RAM, `write` of a float of at
-- most 8 bytes succeeds, and `read` then returns that float.
pub read_float-write_float :
    (r : Ram) (a k : ℕ) (val : List ℕ)
    → InRam a (length val)
    → a ≡ 4 * k
    → length val ≤ 8
    → let (done, m) = write_float (length val) a val (machine r) in
      (done ≡ ok tt) × (read_float (length val) m a ≡ ok val)
unfolding write_float read_float
read_float-write_float r a k val h e l =
    rw (float_start_in r a k (length val) h e l, write_float)
      (
        refl,
        rw (float_start_in (copy_to r (a - logical_base) (bswap32 val)) a k (length val) h e l) (
            ap ok (
              ap bswap32 (
                ap (copy_from _ (a - logical_base)) (sym (length-bswap32 val))
                ∙ copy_from-copy_to r (a - logical_base) (bswap32 val))
              ∙ bswap32-bswap32 val)),
      )

-- the bit pattern of a 4-byte object on a little-endian host
abbrev pub bits32 : List ℕ → ℕ
bits32 (b0 ∷ b1 ∷ b2 ∷ b3 ∷ _) = b0 + b1 * 2 ^ 8 + b2 * 2 ^ 16 + b3 * 2 ^ 24
bits32 _ = 0

word32_aligned :
    (r : Ram) (a k : ℕ)
    → InRam a 4
    → a ≡ 4 * k
    → word32 r a ≡ bits32 (bswap32 (bswap32 (copy_from r (a - logical_base) 4)))
unfolding word32 bswap32 copy_from
word32_aligned r a k h e = ground (
  arith,
  ap (peek r) (add-zero a),
  peek_aligned r a k 0,
  peek_aligned r a k 1,
  peek_aligned r a k 2,
  peek_aligned r a k 3,
)

-- The `f32` that `read` returns at an aligned address in the RAM does not have the bit pattern of the
-- `u32` that `read` returns there, but that pattern with its four bytes reversed.
pub read32-eq-read_float :
    (r : Ram) (a k : ℕ)
    → InRam a 4
    → a ≡ 4 * k
    → read32 (machine r) a ≡ (read_float 4 (machine r) a >>= λ val. ok (bits32 (bswap32 val)))
unfolding read_float
read32-eq-read_float r a k h e =
    rw (float_start_in r a k 4 h e (omega arith), read32_in r a h)
      (ap ok (word32_aligned r a k h e))
