-- ===== src/Emulator/Memory/Blocks.antt =====
-- `read_memory` and `write_memory` of src/net64/emulator/m64plus.cpp. A copy outside the caller's
-- buffer or outside the RAM is `undefined`.
use net64_coop.Prelude.{
  ℕ, ◌+◌, ◌-◌, ◌/◌, ◌%◌, ◌^◌, ◌≤◌, ◌<◌, ◌≡◌, ◌≢◌, inl, some, List, [], ◌∷◌, ◌||◌, ◌++◌, arith, ltb,
  if◌then◌else◌, length, take, drop, replicate, Option-cases, inr,
}
use net64_coop.Emulator.Error.{Result, ok, throws, undefined, invalid_addr, ◌>>=◌, ◌>>◌}
use net64_coop.Emulator.Memory.{
  Ram, Machine, bswap_size, ram_size, logical_base, logical2physical, check_bounds, get_mem_ptr,
  read32, add32, sub32,
}
use net64_coop.Emulator.Memory.Bytes.{InRam, machine, read8_out}
use net64_coop.Emulator.Memory.Floats.{bswap32, copy_from, copy_to}

-- the bytes of a `u32` on a little-endian host
unfoldable pub host_bytes : ℕ → List ℕ
host_bytes w = w % 2 ^ 8 ∷ w / 2 ^ 8 % 2 ^ 8 ∷ w / 2 ^ 16 % 2 ^ 8 ∷ w / 2 ^ 24 % 2 ^ 8 ∷ []

-- `read(addr, word)` and `bswap32(&word, sizeof(word))`
unfoldable pub read_word : Machine → ℕ → Result (List ℕ)
unfolding host_bytes bswap32
read_word m addr = do w ← read32 m addr; ok (bswap32 (host_bytes w))

-- The copies of `read_memory`, for the physical address `addr`.
unfoldable pub read_chunks : Machine → Ram → ℕ → ℕ → Result (List ℕ)
unfolding read_word copy_from bswap32
read_chunks m ptr addr n =
    let begin_left = bswap_size - addr % bswap_size in
    let end_left = add32 addr n % bswap_size in
    let aligned_addr = add32 addr begin_left in
    let aligned_len = sub32 (sub32 n end_left) (sub32 aligned_addr addr) in
    if ltb n (begin_left + aligned_len)
    then undefined
    else if ltb ram_size (aligned_addr + aligned_len)
    then undefined
    else (do
      begin_word ← read_word m (sub32 aligned_addr bswap_size)
      end_word ← read_word m (add32 aligned_addr aligned_len)
      ok (
          drop (bswap_size - begin_left) begin_word
          ++ (bswap32 (copy_from ptr aligned_addr aligned_len) ++ take end_left end_word)))

-- The result is what `data` holds after the call.
unfoldable pub read_memory : Machine → ℕ → ℕ → Result (List ℕ)
unfolding logical2physical check_bounds
read_memory m addr n = do
  phys ← logical2physical addr
  check_bounds phys n
  ptr ← get_mem_ptr m
  read_chunks m ptr phys n

-- `std::copy_n` into a buffer, from position `i` on
unfoldable pub overwrite : List ℕ → ℕ → List ℕ → List ℕ
overwrite buf i val = take i buf ++ (val ++ drop (i + length val) buf)

-- What `write_memory` puts into its buffer of `len` bytes.
unfoldable pub fill_buffer : ℕ → ℕ → List ℕ → List ℕ → List ℕ → List ℕ
unfolding overwrite
fill_buffer len padding first last val =
    overwrite (overwrite (overwrite (replicate len 0) 0 first) (len - bswap_size) last) padding val

-- The part of `write_memory` behind the checks.
unfoldable pub write_chunks : Machine → Ram → ℕ → ℕ → ℕ → List ℕ → Result Ram
unfolding read_word copy_to fill_buffer bswap32
write_chunks m ptr addr len padding val = do
  first ← read_word m addr
  last ← read_word m (sub32 (add32 addr len) bswap_size)
  (if ltb len bswap_size || ltb ram_size (addr + len)
      then undefined
      else ok (copy_to ptr addr (bswap32 (fill_buffer len padding first last val))))

write_outcome : Machine → Result Ram → Result (Unit {0}) × Machine
write_outcome m (ok r) = (ok tt, record { ram = some r })
write_outcome m (throws e) = (throws e, m)
write_outcome m undefined = (undefined, m)

unfoldable pub write_memory : ℕ → List ℕ → Machine → Result (Unit {0}) × Machine
unfolding logical2physical check_bounds write_outcome
write_memory addr val m =
    let begin_padding = addr % bswap_size in
    let end_padding = bswap_size - add32 addr (length val) % bswap_size in
    let aligned_addr = sub32 addr begin_padding in
    let aligned_len = add32 (add32 (length val) begin_padding) end_padding in
    write_outcome m (do
      ptr ← get_mem_ptr m
      _ ← logical2physical addr
      check_bounds aligned_addr aligned_len
      write_chunks m ptr aligned_addr aligned_len begin_padding val)

read_word_out : (m : Machine) (b : ℕ) → b < logical_base → read_word m b ≡ throws invalid_addr
unfolding read_word read32
read_word_out m b h = rw (read8_out m b (omega arith) (inl h))

begin_addr-lt :
    (phys : ℕ)
    → phys < logical_base
    → sub32 (add32 phys (bswap_size - phys % bswap_size)) bswap_size < logical_base
begin_addr-lt phys h = omega arith

read_chunks-ne-ok :
    (m : Machine) (r : Ram) (phys n : ℕ) (val : List ℕ)
    → phys < logical_base
    → read_chunks m r phys n ≢ ok val
unfolding read_chunks
read_chunks-ne-ok m r phys n val h e = ground (
  arith,
  read_word_out m (sub32 (add32 phys (bswap_size - phys % bswap_size)) bswap_size)
      (begin_addr-lt phys h),
)

-- `read_memory` never returns, whatever the machine, the address and the length: it throws or reaches
-- an access outside a buffer, since it hands the physical address to `read`, which takes a logical one.
pub read_memory-ne-ok :
    (m : Machine) (addr n : ℕ) (val : List ℕ) → addr < 2 ^ 32 → read_memory m addr n ≢ ok val
unfolding read_memory
read_memory-ne-ok m addr n val h e = elim (Option-cases m.ram) [
  | inl null ↦ ground arith
  | inr (r, there) ↦ ground (arith, read_chunks-ne-ok m r (sub32 addr logical_base) n val)
]

read_chunks_throws :
    (r : Ram) (phys n : ℕ)
    → phys + n ≤ ram_size
    → 8 ≤ n
    → read_chunks (machine r) r phys n ≡ throws invalid_addr
unfolding read_chunks
read_chunks_throws r phys n h l = ground (
  arith,
  read_word_out (machine r) (sub32 (add32 phys (bswap_size - phys % bswap_size)) bswap_size),
)

-- `read_memory` of at least 8 bytes that all lie in the RAM throws `INVALID_ADDR`.
pub read_memory_throws :
    (r : Ram) (addr n : ℕ)
    → InRam addr n
    → 8 ≤ n
    → read_memory (machine r) addr n ≡ throws invalid_addr
unfolding read_memory
read_memory_throws r addr n h l = ground (arith, read_chunks_throws r (sub32 addr logical_base) n)

-- `write_memory` of bytes that would all lie in the RAM throws `INVALID_ADDR` and writes nothing, since
-- it checks the logical address against the size of the RAM.
pub write_memory_throws :
    (r : Ram) (addr : ℕ) (val : List ℕ)
    → InRam addr (length val)
    → write_memory addr val (machine r) ≡ (throws invalid_addr, machine r)
unfolding write_memory
write_memory_throws r addr val h = ground arith
