-- ===== src/MemHandle/Tests.antt =====
-- Runs of the memory handle, and the theorems at concrete inputs.
use net64_coop.Prelude.{◌+◌, ◌≡◌, refl, arith}
use net64_coop.Emulator.Error.{ok}
use net64_coop.Emulator.Memory.{Ram}
use net64_coop.Emulator.Memory.Bytes.{machine}
use net64_coop.MemHandle.{u16, u32, size_of, align, readc, writec}
use net64_coop.MemHandle.Cursor.{readc-writec_two}

abbrev zeros : Ram
zeros = λ p. 0

readc-writec_two_example :
    let (done, m, offset) = writec u16 0x80000202 0xabcd (machine zeros) in
    let (done', m', offset') = writec u32 offset 0xdeadbeef m in
    (done ≡ ok tt)
    × (done' ≡ ok tt)
    × (readc u16 m' 0x80000202 ≡ ok (0xabcd, offset))
    × (readc u32 m' offset ≡ ok (0xdeadbeef, offset'))
    × (offset' ≡ 0x80000202 + size_of u16 + size_of u32)
readc-writec_two_example =
    readc-writec_two u16 u32 zeros 0x80000202 0xabcd 0xdeadbeef (omega arith) (omega arith)
      (omega arith)

-- An odd address stays unaligned.
align_odd : align u32 0x80000101 ≡ 0x80000102
unfolding align
align_odd = refl
