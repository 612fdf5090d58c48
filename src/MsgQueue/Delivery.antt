-- ===== src/MsgQueue/Delivery.antt =====
-- What a `Sender` puts into a queue, a `Receiver` takes out, in order.
use net64_coop.Prelude.{
  ℕ, suc, ◌+◌, ◌≡◌, refl, ap, ◌∙◌, some, arith, List, [], ◌∷◌, ◌++◌, length, length-append,
  get_elem?, ◌==◌, inr, inl, Bool, Bool-cases, true, false, if◌then◌else◌,
}
use mathlib.Core.Path.{subst}
use mathlib.Core.List.{append_assoc, append-nil, map}
use net64_coop.Emulator.Error.{Result, ok, throws, undefined}
use net64_coop.MsgQueue.{
  Message, SharedState, RawAccess, inc_loop, poll, send, finish_poll, finish_send, drain, slot_free,
  slot_in_use,
}
use net64_coop.MsgQueue.Valid.{
  IsValid, send-IsValid, poll_reads, poll_waits, send_writes, send_refuses, size-send, published,
  descriptor_there, polled, sent, half_written,
}
use net64_coop.MsgQueue.Order.{Holds, Holds-snoc, Holds-free, Holds-write, walk, walk-snoc}
use net64_coop.MsgQueue.Drain.{
  in_use, count-set, none_in_use, in_use-finish_poll, finish_poll-IsValid, drain_stops, drain_goes,
}

-- A queue that holds exactly these messages from the slot `start` on.
pub record Contains (start : ℕ) (q : SharedState) (msgs : List Message) : Type 0 where
  pub valid : IsValid q
  pub slots : Holds q.size q.descriptor_array q.msg_array start msgs
  pub number : in_use q ≡ length msgs

-- `send` returned true.
abbrev pub was_accepted : Result Bool → Bool
was_accepted (ok accepted) = accepted
was_accepted (throws e) = false
was_accepted undefined = false

-- A message with the bytes that a transfer left.
abbrev pub with_bytes : Message → Result (List ℕ) → Message
with_bytes msg (ok bytes) = record msg { msg_data = bytes }
with_bytes msg (throws e) = msg
with_bytes msg undefined = msg

module _ (raw : RawAccess) where
  -- A message as `write_raw` puts it into the emulated RAM.
  abbrev pub written : Message → Message
  written msg = with_bytes msg (raw.write_raw msg.msg_data)

  -- Sends each message of a list, whatever became of the ones before: the messages for which `send`
  -- returned true, and the queue.
  unfoldable pub send_each : SharedState → List Message → List Message × SharedState
  send_each q [] = ([], q)
  send_each q (msg ∷ msgs) =
      let (result, q1) = send raw q msg in
      let (accepted, q2) = send_each q1 msgs in
      (if was_accepted result then msg ∷ accepted else accepted, q2)

  unfoldable arrived :
      Message
      → List Message × Result (Unit {0})
      → Result (List ℕ)
      → List Message × Result (Unit {0})
  arrived msg (received, end) (ok bytes) = (record msg { msg_data = bytes } ∷ received, end)
  arrived msg rest (throws e) = ([], throws e)
  arrived msg rest undefined = ([], undefined)

  -- What `read_raw` makes of stored messages, up to the first that it fails at, and how it ends.
  unfoldable pub arrive : List Message → List Message × Result (Unit {0})
  unfolding arrived
  arrive [] = ([], ok tt)
  arrive (msg ∷ msgs) = arrived msg (arrive msgs) (raw.read_raw msg.msg_data)

  -- What the loop comes to at a queue that holds these messages.
  abbrev pub Delivers : SharedState → List Message → Type 0
  Delivers q msgs =
      (left : SharedState) × (drain raw (suc (length msgs)) q
        ≡ some ((arrive msgs).0, (arrive msgs).1, left))
      × (in_use left + length (arrive msgs).0 ≡ length msgs)

  reads_first :
      (q : SharedState) (msg : Message) (msgs : List Message) (r : Result (List ℕ))
      → get_elem? q.descriptor_array q.client_index ≡ some slot_in_use
      → raw.read_raw msg.msg_data ≡ r
      → poll raw q ≡ polled q msg r
      → in_use q ≡ suc (length msgs)
      → Delivers (finish_poll q q.client_index) msgs
      → Delivers q (msg ∷ msgs)
  unfolding arrive arrived
  reads_first q msg msgs (ok bytes) d got e n (left, run, rest) =
      let step = ap (arrived msg (arrive msgs)) got in
      (left, rw step (drain_goes raw q _ _ _ _ _ _ e run), rw step (omega (arith, rest)))
  reads_first q msg msgs (throws x) d got e n rest =
      let step = ap (arrived msg (arrive msgs)) got in
      (q, rw step (drain_stops raw q _ (throws x) e), rw step (omega (arith, n)))
  reads_first q msg msgs undefined d got e n rest =
      let step = ap (arrived msg (arrive msgs)) got in
      (q, rw step (drain_stops raw q _ undefined e), rw step (omega (arith, n)))

  -- The loop hands on the messages that the queue holds from its index on, in their order, until one
  -- cannot be read.
  pub drain-Contains :
      (q : SharedState) (msgs : List Message) → Contains q.client_index q msgs → Delivers q msgs
  drain-Contains q [] c =
      let (s, d) = descriptor_there raw c.valid in
      let waits =
        poll_waits raw c.valid s d (none_in_use q.descriptor_array q.client_index s c.number d) in
      (
        q,
        unfold arrive in drain_stops raw q 0 (ok tt) waits,
        unfold arrive in omega (arith, c.number),
      )
  drain-Contains q (msg ∷ msgs) c =
      let (d, e, apart, rest) = c.slots in
      let read = raw.read_raw msg.msg_data in
      reads_first q msg msgs read d refl (poll_reads raw c.valid msg read d e refl) c.number (
        drain-Contains (finish_poll q q.client_index) msgs (record {
          valid = finish_poll-IsValid c.valid;
          slots =
              unfold finish_poll in
              Holds-free q.size q.descriptor_array q.msg_array (inc_loop q.client_index q.size)
                q.client_index msgs rest apart;
          number = omega (arith, c.number, in_use-finish_poll q d);
        }))

-- A queue into which these messages were put from the slot `start` on, the next one behind them.
record Filled (start : ℕ) (q : SharedState) (msgs : List Message) : Type 0 where
  pub holds : Contains start q msgs
  pub next : q.client_index ≡ walk q.size start msgs

published-Filled :
    (start : ℕ) (q : SharedState) (msgs : List Message) (msg : Message)
    → Filled start q msgs
    → get_elem? q.descriptor_array q.client_index ≡ some slot_free
    → IsValid (published q msg)
    → Filled start (published q msg) (msgs ++ msg ∷ [])
unfolding finish_send
published-Filled start q msgs msg f d v = record {
  holds = record {
    valid = v;
    slots =
        Holds-snoc q.size q.descriptor_array q.msg_array start q.client_index msg msgs f.holds.slots
          f.next d (omega (arith, f.holds.valid.in_range, f.holds.valid.descriptors))
          (omega (arith, f.holds.valid.in_range, f.holds.valid.messages));
    number = omega (
      arith,
      f.holds.number,
      count-set q.descriptor_array q.client_index slot_free slot_in_use slot_in_use d,
      length-append msgs (msg ∷ []),
    );
  };
  next = rw (walk-snoc q.size start msg msgs) (ap (λ i. inc_loop i q.size) f.next);
}

half_written-Filled :
    (start : ℕ) (q : SharedState) (msgs : List Message) (msg old : Message)
    → Filled start q msgs
    → get_elem? q.descriptor_array q.client_index ≡ some slot_free
    → IsValid (half_written q msg old)
    → Filled start (half_written q msg old) msgs
half_written-Filled start q msgs msg old f d v = record {
  holds = record {
    valid = v;
    slots =
        Holds-write q.size q.descriptor_array q.msg_array start q.client_index _ msgs f.holds.slots
          d;
    number = f.holds.number;
  };
  next = f.next;
}

module _ (raw : RawAccess) where
  -- The message as it is stored, if `send` returned true.
  abbrev delivered : SharedState → Message → List Message
  delivered q msg = if was_accepted (send raw q msg).0 then written raw msg ∷ [] else []

  sent-Filled :
      (start : ℕ) (q : SharedState) (msgs : List Message) (msg old : Message) (r : Result (List ℕ))
      → Filled start q msgs
      → get_elem? q.descriptor_array q.client_index ≡ some slot_free
      → raw.write_raw msg.msg_data ≡ r
      → send raw q msg ≡ sent q msg old r
      → Filled start (send raw q msg).1 (msgs ++ delivered q msg)
  sent-Filled start q msgs msg old (ok bytes) f d got e =
      rw (e, got)
        (published-Filled start q msgs (record msg { msg_data = bytes }) f d
          (rw e at (send-IsValid raw msg f.holds.valid)))
  sent-Filled start q msgs msg old (throws x) f d got e =
      rw (e, append-nil)
        (half_written-Filled start q msgs msg old f d
          (rw e at (send-IsValid raw msg f.holds.valid)))
  sent-Filled start q msgs msg old undefined f d got e =
      rw (e, append-nil)
        (half_written-Filled start q msgs msg old f d
          (rw e at (send-IsValid raw msg f.holds.valid)))

  send-Filled :
      (start : ℕ) (q : SharedState) (msgs : List Message) (msg : Message)
      → Filled start q msgs
      → Filled start (send raw q msg).1 (msgs ++ delivered q msg)
  send-Filled start q msgs msg f =
      let (s, d) = descriptor_there raw f.holds.valid in
      elim (Bool-cases (s == slot_free)) [
        | inl free ↦
            let free_d : get_elem? q.descriptor_array q.client_index ≡ some slot_free =
              ground arith in
            let r = raw.write_raw msg.msg_data in
            let (old, e) = send_writes raw f.holds.valid msg r free_d refl in
            sent-Filled start q msgs msg old r f free_d refl e
        | inr full ↦
            let e = send_refuses raw f.holds.valid msg s d (ground arith) in rw (e, append-nil) f
      ]

  map_one :
      (b : Bool) (msg : Message) (before rest : List Message)
      → before ++ (if b then written raw msg ∷ [] else []) ++ map (written raw) rest
        ≡ before ++ map (written raw) (if b then msg ∷ rest else rest)
  map_one true msg before rest = append_assoc before (written raw msg ∷ []) (map (written raw) rest)
  map_one false msg before rest = ap (λ l. l ++ map (written raw) rest) (append-nil before)

  send_each-Filled :
      (start : ℕ) (q : SharedState) (before msgs : List Message)
      → Filled start q before
      → Filled start (send_each raw q msgs).1 (before ++ map (written raw) (send_each raw q msgs).0)
  unfolding send_each
  send_each-Filled start q before [] f = rw append-nil f
  send_each-Filled start q before (msg ∷ msgs) f =
      let rest =
        send_each-Filled start (send raw q msg).1 (before ++ delivered q msg) msgs
          (send-Filled start q before msg f) in
      subst (λ l. Filled start (send_each raw (send raw q msg).1 msgs).1 l)
        (map_one (was_accepted (send raw q msg).0) msg before
          (send_each raw (send raw q msg).1 msgs).0)
        rest

length-map : (f : Message → Message) (msgs : List Message) → length (map f msgs) ≡ length msgs
length-map f [] = refl
length-map f (msg ∷ msgs) = ap suc (length-map f msgs)

size-send_each :
    (raw : RawAccess) (q : SharedState) (msgs : List Message)
    → (send_each raw q msgs).1.size ≡ q.size
unfolding send_each
size-send_each raw q [] = refl
size-send_each raw q (msg ∷ msgs) = size-send_each raw (send raw q msg).1 msgs ∙ size-send raw q msg

-- Any raw access to the emulator's memory, and a valid queue with no message in it, to which nobody else
-- writes. Messages are sent, whatever `Sender::send` says to each. The polling loop of a receiver that
-- starts where the sender started takes out those for which `send` returned true, as they were written
-- and are read, in their order: it hands on all up to the first that cannot be read, ends as that read
-- does, and no other message leaves the queue.
pub sent_is_received :
    (raw : RawAccess) (q : SharedState) (msgs : List Message)
    → IsValid q
    → in_use q ≡ 0
    → let (accepted, q') = send_each raw q msgs in
      let (received, end) = arrive raw (map (written raw) accepted) in
      (left : SharedState) × (drain raw
          (suc (length accepted))
          (record q' { client_index = q.client_index })
        ≡ some (received, end, left))
      × (in_use left + length received ≡ length accepted)
sent_is_received raw q msgs v empty =
    let f =
      send_each-Filled raw q.client_index q [] msgs
        (record { holds = record { valid = v; slots = tt; number = empty }; next = refl }) in
    let q' = (send_each raw q msgs).1 in
    let c = f.holds in
    let n = length-map (written raw) (send_each raw q msgs).0 in
    let (left, run, total) =
      drain-Contains raw (record q' { client_index = q.client_index })
        (map (written raw) (send_each raw q msgs).0)
        (record {
          valid = record {
            small = c.valid.small;
            in_range = omega (arith, v.in_range, size-send_each raw q msgs);
            descriptors = c.valid.descriptors;
            messages = c.valid.messages;
          };
          slots = c.slots;
          number = c.number;
        }) in
    (left, rw n at run, rw n at total)
