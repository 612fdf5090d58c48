-- ===== src/MsgQueue/Faults.antt =====
-- The queue when the raw access to the emulator's memory fails, and so with Mupen64Plus.
use net64_coop.Prelude.{
  ℕ, ◌≡◌, ◌≢◌, ap, some, arith, get_elem?, List, length, get_elem?-set_ne, get_elem?-some,
}
use net64_coop.Emulator.Error.{Error, ok, throws, invalid_addr, ◌>>=◌}
use net64_coop.Emulator.Memory.{Ram}
use net64_coop.Emulator.Memory.Bytes.{InRam, machine}
use net64_coop.Emulator.Memory.Blocks.{
  read_memory, write_memory, read_memory_throws, write_memory_throws,
}
use net64_coop.MsgQueue.{Message, SharedState, RawAccess, poll, send, slot_in_use, slot_free}
use net64_coop.MsgQueue.Valid.{IsValid}

module _ (raw : RawAccess) (q : SharedState) where
  -- A slot that is in use keeps its state and its message under `send`, whatever the emulator does.
  pub send_keeps :
      (msg : Message) (j : ℕ)
      → get_elem? q.descriptor_array j ≡ some slot_in_use
      → (get_elem? (send raw q msg).1.descriptor_array j ≡ some slot_in_use)
        × (get_elem? (send raw q msg).1.msg_array j ≡ get_elem? q.msg_array j)
  unfolding send
  send_keeps msg j d =
      let apart : get_elem? q.descriptor_array q.client_index ≡ some slot_free
          → q.client_index ≢ j =
        λ f e. ground arith in
      grind (arith, get_elem?-set_ne, apart)

  module _ (v : IsValid q) (e : Error) where
    -- Where the raw read throws, `poll` of a queue with a message at the index throws, and the queue
    -- stays as it is, the message in it.
    pub poll_throws :
        ((bytes : List ℕ) → raw.read_raw bytes ≡ throws e)
        → get_elem? q.descriptor_array q.client_index ≡ some slot_in_use
        → poll raw q ≡ (throws e, q)
    unfolding poll
    poll_throws failing d =
        let (msg, there) =
          get_elem?-some q.msg_array q.client_index (omega (arith, v.messages, v.in_range)) in
        rw (d, there) (ground (arith, failing msg.msg_data))

    -- Where the raw write throws, `send` into a free slot throws; the slot stays free and the index
    -- where it is, so that the half-written message is never seen.
    pub send_throws :
        (msg : Message)
        → raw.write_raw msg.msg_data ≡ throws e
        → get_elem? q.descriptor_array q.client_index ≡ some slot_free
        → ((send raw q msg).0 ≡ throws e)
          × ((send raw q msg).1.descriptor_array ≡ q.descriptor_array)
          × ((send raw q msg).1.client_index ≡ q.client_index)
    unfolding send
    send_throws msg failing d =
        let (old, there) =
          get_elem?-some q.msg_array q.client_index (omega (arith, v.messages, v.in_range)) in
        rw (d, there) (ground arith)

abbrev pub msg_data_len : ℕ
msg_data_len = 14

-- `MemHandle::read_raw` and `write_raw` over Mupen64Plus, for the message at `addr`.
unfoldable pub mupen_access : Ram → ℕ → RawAccess
mupen_access r addr = record {
  read_raw = λ bytes. read_memory (machine r) addr msg_data_len;
  write_raw = λ bytes. (write_memory addr bytes (machine r)).0 >>= λ _. ok bytes;
}

-- With Mupen64Plus no message goes through a queue whose messages lie in the RAM: `poll` of a queue
-- with a message at the index, and `send` into a free slot, throw `INVALID_ADDR`.
pub mupen_transfers_nothing :
    (r : Ram) (addr : ℕ) (q : SharedState) (msg : Message)
    → InRam addr msg_data_len
    → length msg.msg_data ≡ msg_data_len
    → IsValid q
    → (get_elem? q.descriptor_array q.client_index ≡ some slot_in_use
        → (poll (mupen_access r addr) q).0 ≡ throws invalid_addr)
      × (get_elem? q.descriptor_array q.client_index ≡ some slot_free
          → (send (mupen_access r addr) q msg).0 ≡ throws invalid_addr)
mupen_transfers_nothing r addr q msg h l v = (
  λ d.
      ap (λ t. t.0)
        (poll_throws (mupen_access r addr) q v invalid_addr
          (unfold mupen_access in λ bytes. read_memory_throws r addr msg_data_len h (omega arith))
          d),
  λ d.
      (send_throws (mupen_access r addr) q v invalid_addr msg
        (unfold mupen_access in
          ap (λ t. t.0 >>= λ _. ok msg.msg_data) (write_memory_throws r addr msg.msg_data (rw l h)))
        d).0,
)
