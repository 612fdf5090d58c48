-- ===== src/Emulator/Memory/Tests.antt =====
-- Runs of the memory accesses, and the theorems at concrete inputs.
use net64_coop.Prelude.{◌+◌, ◌*◌, ◌^◌, ◌≡◌, refl, arith}
use net64_coop.Emulator.Error.{ok, ◌>>=◌}
use net64_coop.Emulator.Memory.{Ram, read8, write8, locate, read16, read32, write32, add32}
use net64_coop.Emulator.Memory.Bytes.{machine}
use net64_coop.Emulator.Memory.Words.RoundTrip.{SameOutside, read32-write32, read32-eq-read16}

abbrev zeros : Ram
zeros = λ p. 0

-- The host keeps the first byte of a word last.
first_byte : read8 (write32 0x80000100 0x11223344 (machine zeros)).1 0x80000100 ≡ ok 0x11
unfolding read8 write32 write8 locate
first_byte = refl

read32-write32_example :
    let (done, m) = write32 0x807ffffc 0xdeadbeef (machine zeros) in
    (done ≡ ok tt)
    × (read32 m 0x807ffffc ≡ ok 0xdeadbeef)
    × SameOutside 0x807ffffc 4 (machine zeros) m
read32-write32_example = read32-write32 zeros 0x807ffffc 0xdeadbeef (omega arith) (omega arith)

read32-eq-read16_example : read32 (machine zeros) 0x807ffffe ≡ (
    read16 (machine zeros) 0x807ffffe >>= λ hi.
    read16 (machine zeros) (add32 0x807ffffe 2) >>= λ lo. ok (hi * 2 ^ 16 + lo))
read32-eq-read16_example = read32-eq-read16 (machine zeros) 0x807ffffe (omega arith)
