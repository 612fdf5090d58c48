-- ===== src/MsgQueue.antt =====
-- src/net64/client/msg_queue.hpp and .cpp: the queue of messages that the client shares with the
-- game. The arrays lie in the emulated RAM; an index behind their ends is `undefined`.
pub mod Valid
pub mod Order
pub mod Drain
pub mod Delivery
pub mod Faults
mod Tests
use net64_coop.Prelude.{
  ℕ, zero, suc, ◌+◌, ◌%◌, ◌^◌, ◌≡◌, Bool, [], ◌∷◌, false, true, Option, none, some, List, ◌==◌,
  if◌then◌else◌, get_elem?, set,
}
use net64_coop.Emulator.Error.{Result, ok, throws, undefined}

pub record Message : Type 0 where
  pub msg_type : ℕ
  pub msg_data : List ℕ

-- The values of `SlotState`, which is read from the game's memory as a `u8`.
abbrev pub slot_free : ℕ
slot_free = 0

abbrev pub slot_in_use : ℕ
slot_in_use = 1

pub record SharedState : Type 0 where
  pub game_index : ℕ
  pub client_index : ℕ
  pub size : ℕ
  pub descriptor_array : List ℕ
  pub msg_array : List Message

-- `MemHandle::read_raw` and `write_raw` on the bytes of one message: what the emulator's
-- `read_memory` and `write_memory` do with them.
pub record RawAccess : Type 0 where
  pub read_raw : List ℕ → Result (List ℕ)
  pub write_raw : List ℕ → Result (List ℕ)

-- `++index` on a `u8`, back to 0 at `size`
unfoldable pub inc_loop : ℕ → ℕ → ℕ
inc_loop index size = let next = (index + 1) % 2 ^ 8 in if next == size then 0 else next

-- the end of `poll`, once the message has been read
unfoldable pub finish_poll : SharedState → ℕ → SharedState
finish_poll q index = record q {
  descriptor_array = set q.descriptor_array index slot_free;
  client_index = inc_loop index q.size;
}

-- the end of `send`, once the message has been written
unfoldable pub finish_send : SharedState → ℕ → SharedState
finish_send q index = record q {
  descriptor_array = set q.descriptor_array index slot_in_use;
  client_index = inc_loop index q.size;
}

module _ (raw : RawAccess) where
  read_slot : SharedState → ℕ → Option Message → Result (Option Message) × SharedState
  unfolding finish_poll
  read_slot q index none = (undefined, q)
  read_slot q index (some msg) = elim (raw.read_raw msg.msg_data) [
    | ok bytes ↦
        let read_msg = record msg { msg_data = bytes } in (ok (some read_msg), finish_poll q index)
    | throws e ↦ (throws e, q)
    | undefined ↦ (undefined, q)
  ]

  poll_at : SharedState → ℕ → Option ℕ → Result (Option Message) × SharedState
  unfolding read_slot
  poll_at q index none = (undefined, q)
  poll_at q index (some state) =
      if state == slot_in_use then read_slot q index (get_elem? q.msg_array index) else (ok none, q)

  -- `Receiver::poll`: `none` for `false`, and the message for `true`.
  unfoldable pub poll : SharedState → Result (Option Message) × SharedState
  unfolding poll_at
  poll q = poll_at q q.client_index (get_elem? q.descriptor_array q.client_index)

  write_slot : SharedState → ℕ → Message → Option Message → Result Bool × SharedState
  unfolding finish_send
  write_slot q index msg none = (undefined, q)
  write_slot q index msg (some old) =
      let typed = record old { msg_type = msg.msg_type } in
      let with_type = record q { msg_array = set q.msg_array index typed } in
      elim (raw.write_raw msg.msg_data) [
        | ok bytes ↦ (
          ok true,
          finish_send
              (record q { msg_array = set q.msg_array index (record typed { msg_data = bytes }) })
              index,
        )
        | throws e ↦ (throws e, with_type)
        | undefined ↦ (undefined, with_type)
      ]

  send_at : SharedState → Message → ℕ → Option ℕ → Result Bool × SharedState
  unfolding write_slot
  send_at q msg index none = (undefined, q)
  send_at q msg index (some state) =
      if state == slot_free
      then write_slot q index msg (get_elem? q.msg_array index)
      else (ok false, q)

  -- `Sender::send`
  unfoldable pub send : SharedState → Message → Result Bool × SharedState
  unfolding send_at
  send q msg = send_at q msg q.client_index (get_elem? q.descriptor_array q.client_index)

module _ (raw : RawAccess) where
  -- `for(n64_message_t msg{}; rcv_queue_->poll(msg);) on_game_message(msg);` of `Client::tick`: the
  -- messages that were handed on, how the loop ended, and the queue. `none`: the fuel ran out.
  unfoldable pub drain : ℕ → SharedState → Option (List Message × Result (Unit {0}) × SharedState)
  drain zero q = none
  drain (suc fuel) q =
      let (result, q') = poll raw q in
      elim result [
        | ok received ↦ elim received [
          | none ↦ some ([], ok tt, q')
          | some msg ↦ elim (drain fuel q') [
            | none ↦ none
            | some (msgs, end, q'') ↦ some (msg ∷ msgs, end, q'')
          ]
        ]
        | throws e ↦ some ([], throws e, q')
        | undefined ↦ some ([], undefined, q')
      ]
