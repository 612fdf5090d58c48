-- ===== src/MsgQueue/Tests.antt =====
-- Runs of the queue, and the theorems at concrete inputs.
use net64_coop.Prelude.{
  ℕ, ◌==◌, if◌then◌else◌, ◌+◌, ◌≡◌, refl, none, some, List, [], ◌∷◌, arith, get_elem?,
}
use net64_coop.Emulator.Error.{ok, throws, invalid_addr}
use net64_coop.Emulator.Memory.{Ram}
use net64_coop.MsgQueue.{
  Message, SharedState, RawAccess, slot_free, slot_in_use, poll, send, drain, inc_loop, finish_send,
}
use net64_coop.MsgQueue.Valid.{IsValid}
use net64_coop.MsgQueue.Drain.{in_use, drain-Ends, Ends}
use net64_coop.MsgQueue.Delivery.{send_each, arrive, sent_is_received}
use net64_coop.MsgQueue.Faults.{mupen_access, mupen_transfers_nothing}

abbrev direct : RawAccess
direct = record { read_raw = λ bytes. ok bytes; write_raw = λ bytes. ok bytes }

abbrev bytes_of : ℕ → List ℕ
bytes_of b = b ∷ 0 ∷ 0 ∷ 0 ∷ 0 ∷ 0 ∷ 0 ∷ 0 ∷ 0 ∷ 0 ∷ 0 ∷ 0 ∷ 0 ∷ 0 ∷ []

abbrev text : ℕ → Message
text b = record { msg_type = 2; msg_data = bytes_of b }

abbrev blank : Message
blank = record { msg_type = 0; msg_data = bytes_of 0 }

-- Three slots, the index at the last.
abbrev empty : SharedState
empty = record {
  game_index = 2;
  client_index = 2;
  size = 3;
  descriptor_array = slot_free ∷ slot_free ∷ slot_free ∷ [];
  msg_array = blank ∷ blank ∷ blank ∷ [];
}

-- Two messages that wrapped round the end.
abbrev two : SharedState
two = record {
  game_index = 2;
  client_index = 1;
  size = 3;
  descriptor_array = slot_in_use ∷ slot_free ∷ slot_in_use ∷ [];
  msg_array = text 66 ∷ blank ∷ text 65 ∷ [];
}

empty-IsValid : IsValid empty
empty-IsValid = record {
  small = omega arith;
  in_range = omega arith;
  descriptors = refl;
  messages = refl;
}

two-IsValid : IsValid two
two-IsValid = record {
  small = omega arith;
  in_range = omega arith;
  descriptors = refl;
  messages = refl;
}

-- Of four messages three are accepted, and the second cannot be read.
abbrev fails_at_66 : RawAccess
fails_at_66 = record {
  read_raw = λ bytes. elim (get_elem? bytes 0) [
    | none ↦ ok bytes
    | some b ↦ if b == 66 then throws invalid_addr else ok bytes
  ];
  write_raw = λ bytes. ok bytes;
}

abbrev four_texts : List Message
four_texts = text 65 ∷ text 66 ∷ text 67 ∷ text 68 ∷ []

sent_is_received_example :
    (left : SharedState) × (drain fails_at_66 4
        (record (send_each fails_at_66 empty four_texts).1 { client_index = 2 })
      ≡ some (text 65 ∷ [], throws invalid_addr, left))
    × (in_use left + 1 ≡ 3)
unfolding send_each send finish_send inc_loop arrive
sent_is_received_example = sent_is_received fails_at_66 empty four_texts empty-IsValid refl

drain-Ends_example : Ends direct 9 two
drain-Ends_example = drain-Ends direct 9 two two-IsValid (omega arith)

abbrev zeros : Ram
zeros = λ p. 0

mupen_transfers_nothing_example :
    (get_elem? two.descriptor_array two.client_index ≡ some slot_in_use
      → (poll (mupen_access zeros 0x80000100) two).0 ≡ throws invalid_addr)
    × (get_elem? two.descriptor_array two.client_index ≡ some slot_free
        → (send (mupen_access zeros 0x80000100) two (text 67)).0 ≡ throws invalid_addr)
mupen_transfers_nothing_example =
    mupen_transfers_nothing zeros 0x80000100 two (text 67) (omega arith) refl two-IsValid
