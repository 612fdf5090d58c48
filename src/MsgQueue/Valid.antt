-- ===== src/MsgQueue/Valid.antt =====
-- The arrays of a queue are as long as `size` says, and the index lies in them.
use net64_coop.Prelude.{
  ℕ, ◌^◌, Bool, Option, List, ◌<◌, ◌≡◌, ◌≢◌, none, some, arith, length, length-set, get_elem?,
  get_elem?-some, set, true, false,
}
use net64_coop.Emulator.Error.{Result, ok, throws, undefined}
use net64_coop.MsgQueue.{
  Message, SharedState, RawAccess, inc_loop, poll, send, finish_poll, finish_send, slot_free,
  slot_in_use,
}

pub record IsValid (q : SharedState) : Type 0 where
  pub small : q.size < 2 ^ 8
  pub in_range : q.client_index < q.size
  pub descriptors : length q.descriptor_array ≡ q.size
  pub messages : length q.msg_array ≡ q.size

pub inc_loop-lt : (i n : ℕ) → i < n → n < 2 ^ 8 → inc_loop i n < n
unfolding inc_loop
inc_loop-lt i n h k = ground arith

-- The queue after a message was put into the slot at the index.
abbrev pub published : SharedState → Message → SharedState
published q msg =
    finish_send (record q { msg_array = set q.msg_array q.client_index msg }) q.client_index

-- What `poll` comes to at a full slot, by what the read comes to.
abbrev pub polled : SharedState → Message → Result (List ℕ) → Result (Option Message) × SharedState
polled q msg (ok bytes) =
    (ok (some (record msg { msg_data = bytes })), finish_poll q q.client_index)
polled q msg (throws e) = (throws e, q)
polled q msg undefined = (undefined, q)

-- What `send` comes to at a free slot with the message `old`, by what the write comes to.
abbrev pub half_written : SharedState → Message → Message → SharedState
half_written q msg old = record q {
  msg_array = set q.msg_array q.client_index (record old { msg_type = msg.msg_type });
}

abbrev pub sent : SharedState → Message → Message → Result (List ℕ) → Result Bool × SharedState
sent q msg old (ok bytes) = (ok true, published q (record msg { msg_data = bytes }))
sent q msg old (throws e) = (throws e, half_written q msg old)
sent q msg old undefined = (undefined, half_written q msg old)

module _ (raw : RawAccess) where
  -- `poll` keeps the queue valid, whether it returns or throws.
  pub poll-IsValid : {q : SharedState} → IsValid q → IsValid (poll raw q).1
  unfolding poll
  poll-IsValid {q} v = ground (
    arith,
    inc_loop-lt q.client_index q.size,
    length-set q.descriptor_array q.client_index slot_free,
  )

  -- `send` keeps the queue valid, whether it returns or throws.
  pub send-IsValid : {q : SharedState} (msg : Message) → IsValid q → IsValid (send raw q msg).1
  unfolding send
  send-IsValid {q} msg v = grind (arith, inc_loop-lt, length-set)

  pub size-send : (q : SharedState) (msg : Message) → (send raw q msg).1.size ≡ q.size
  unfolding send
  size-send q msg = ground arith

  module _ {q : SharedState} (v : IsValid q) where
    pub descriptor_there : (state : ℕ) × (get_elem? q.descriptor_array q.client_index ≡ some state)
    descriptor_there =
        get_elem?-some q.descriptor_array q.client_index (omega (arith, v.descriptors, v.in_range))

    pub message_there : (msg : Message) × (get_elem? q.msg_array q.client_index ≡ some msg)
    message_there =
        get_elem?-some q.msg_array q.client_index (omega (arith, v.messages, v.in_range))

    -- A full slot at the index: `poll` returns its message, as it is read, and frees the slot; or ends as
    -- the read does, and changes nothing.
    pub poll_reads :
        (msg : Message) (r : Result (List ℕ))
        → get_elem? q.descriptor_array q.client_index ≡ some slot_in_use
        → get_elem? q.msg_array q.client_index ≡ some msg
        → raw.read_raw msg.msg_data ≡ r
        → poll raw q ≡ polled q msg r
    unfolding poll
    poll_reads msg (ok bytes) d e got = rw (d, e) (ground (arith, got))
    poll_reads msg (throws x) d e got = rw (d, e) (ground (arith, got))
    poll_reads msg undefined d e got = rw (d, e) (ground (arith, got))

    -- Any other slot at the index: `poll` returns false and changes nothing.
    pub poll_waits :
        (state : ℕ)
        → get_elem? q.descriptor_array q.client_index ≡ some state
        → state ≢ slot_in_use
        → poll raw q ≡ (ok none, q)
    unfolding poll
    poll_waits state d other = rw d (ground arith)

    -- A free slot at the index: `send` puts the message there, as it is written, and returns true; or ends
    -- as the write does, and the slot stays free.
    pub send_writes :
        (msg : Message) (r : Result (List ℕ))
        → get_elem? q.descriptor_array q.client_index ≡ some slot_free
        → raw.write_raw msg.msg_data ≡ r
        → (old : Message) × (send raw q msg ≡ sent q msg old r)
    unfolding send
    send_writes msg (ok bytes) d got =
        let (old, there) = message_there in (old, rw (d, there) (ground (arith, got)))
    send_writes msg (throws x) d got =
        let (old, there) = message_there in (old, rw (d, there) (ground (arith, got)))
    send_writes msg undefined d got =
        let (old, there) = message_there in (old, rw (d, there) (ground (arith, got)))

    -- Any other slot at the index: `send` returns false and changes nothing.
    pub send_refuses :
        (msg : Message) (state : ℕ)
        → get_elem? q.descriptor_array q.client_index ≡ some state
        → state ≢ slot_free
        → send raw q msg ≡ (ok false, q)
    unfolding send
    send_refuses msg state d other = rw d (ground arith)
