-- ===== src/MsgQueue/Drain.antt =====
-- The loop that empties a queue: it ends, and it delivers what was sent.
use net64_coop.Prelude.{
  ℕ, zero, suc, ◌+◌, ◌<◌, ◌≡◌, ◌≢◌, refl, ◌∙◌, Option, length-set, none, some, arith, List, [], ◌∷◌,
  length, get_elem?, ◌==◌, if◌then◌else◌, set, inr, inl, count, Bool-cases,
}
use net64_coop.Emulator.Error.{Result, ok, throws, undefined}
use net64_coop.MsgQueue.{
  Message, SharedState, RawAccess, poll, finish_poll, drain, slot_free, slot_in_use,
}
use net64_coop.MsgQueue.Valid.{
  IsValid, polled, poll_reads, poll_waits, descriptor_there, message_there, inc_loop-lt,
}

pub count-set :
    (ds : List ℕ) (i old v a : ℕ)
    → get_elem? ds i ≡ some old
    → count a (set ds i v) + (if old == a then 1 else 0) ≡ count a ds + (if v == a then 1 else 0)
count-set [] i old v a h = cc
count-set (x ∷ ds) zero old v a h = ground arith
count-set (x ∷ ds) (suc i) old v a h = ground (arith, count-set ds i old v a h)

-- The number of messages that a queue holds.
abbrev pub in_use : SharedState → ℕ
in_use q = count slot_in_use q.descriptor_array

pub none_in_use :
    (ds : List ℕ) (i s : ℕ) → count slot_in_use ds ≡ 0 → get_elem? ds i ≡ some s → s ≢ slot_in_use
none_in_use [] i s c h = cc
none_in_use (x ∷ ds) zero s c h = ground arith
none_in_use (x ∷ ds) (suc i) s c h = none_in_use ds i s (ground arith) h

-- The answer of the `poll` that ended the loop.
abbrev pub last_answer : Result (Unit {0}) → Result (Option Message)
last_answer (ok u) = ok none
last_answer (throws e) = throws e
last_answer undefined = undefined

module _ (raw : RawAccess) (q : SharedState) where
  pub drain_stops :
      (fuel : ℕ) (end : Result (Unit {0}))
      → poll raw q ≡ (last_answer end, q)
      → drain raw (suc fuel) q ≡ some ([], end, q)
  unfolding drain
  drain_stops fuel (ok u) e = ground arith
  drain_stops fuel (throws x) e = ground arith
  drain_stops fuel undefined e = ground arith

  pub drain_goes :
      (fuel : ℕ) (q1 q2 : SharedState) (msg : Message) (msgs : List Message)
      (end : Result (Unit {0}))
      → poll raw q ≡ (ok (some msg), q1)
      → drain raw fuel q1 ≡ some (msgs, end, q2)
      → drain raw (suc fuel) q ≡ some (msg ∷ msgs, end, q2)
  unfolding drain
  drain_goes fuel q1 q2 msg msgs end e rest = ground arith

pub in_use-finish_poll :
    (q : SharedState)
    → get_elem? q.descriptor_array q.client_index ≡ some slot_in_use
    → suc (in_use (finish_poll q q.client_index)) ≡ in_use q
unfolding finish_poll
in_use-finish_poll q d =
    omega (arith, count-set q.descriptor_array q.client_index slot_in_use slot_free slot_in_use d)

pub finish_poll-IsValid : {q : SharedState} → IsValid q → IsValid (finish_poll q q.client_index)
unfolding finish_poll
finish_poll-IsValid {q} v = record {
  small = v.small;
  in_range = inc_loop-lt q.client_index q.size v.in_range v.small;
  descriptors = length-set q.descriptor_array q.client_index slot_free ∙ v.descriptors;
  messages = v.messages;
}

-- How the loop ends.
pub record Ends (raw : RawAccess) (fuel : ℕ) (q : SharedState) : Type 0 where
  pub msgs : List Message
  pub end : Result (Unit {0})
  pub left : SharedState
  pub run : drain raw fuel q ≡ some (msgs, end, left)
  pub stop : poll raw left ≡ (last_answer end, left)
  pub total : length msgs + in_use left ≡ in_use q

module _ (raw : RawAccess) where
  stops_here :
      (fuel : ℕ) (q : SharedState) (end : Result (Unit {0}))
      → poll raw q ≡ (last_answer end, q)
      → Ends raw (suc fuel) q
  stops_here fuel q end e = record {
    msgs = [];
    end = end;
    left = q;
    run = drain_stops raw q fuel end e;
    stop = e;
    total = omega arith;
  }

  goes_on :
      (fuel : ℕ) (q : SharedState) (msg : Message) (r : Result (List ℕ))
      → get_elem? q.descriptor_array q.client_index ≡ some slot_in_use
      → poll raw q ≡ polled q msg r
      → Ends raw fuel (finish_poll q q.client_index)
      → Ends raw (suc fuel) q
  goes_on fuel q msg (ok bytes) d e rest = record {
    msgs = record msg { msg_data = bytes } ∷ rest.msgs;
    end = rest.end;
    left = rest.left;
    run = drain_goes raw q fuel _ _ _ _ _ e rest.run;
    stop = rest.stop;
    total = omega (arith, rest.total, in_use-finish_poll q d);
  }
  goes_on fuel q msg (throws x) d e rest = stops_here fuel q (throws x) e
  goes_on fuel q msg undefined d e rest = stops_here fuel q undefined e

  -- A valid queue that nobody else writes to, whatever the raw access to the emulator does: with more fuel
  -- than messages the loop ends, has handed on as many messages as left the queue, and the `poll` that
  -- ended it returned false, or failed, with the way in which the loop ended, at a message that is still
  -- there.
  pub drain-Ends : (fuel : ℕ) (q : SharedState) → IsValid q → in_use q < fuel → Ends raw fuel q
  drain-Ends zero q v h = elim h [ ]
  drain-Ends (suc fuel) q v h =
      let (s, d) = descriptor_there raw v in
      elim (Bool-cases (s == slot_in_use)) [
        | inl full ↦
            let full_d : get_elem? q.descriptor_array q.client_index ≡ some slot_in_use =
              ground arith in
            let (msg, e) = message_there raw v in
            goes_on fuel q msg (raw.read_raw msg.msg_data) full_d
              (poll_reads raw v msg (raw.read_raw msg.msg_data) full_d e refl)
              (drain-Ends fuel (finish_poll q q.client_index) (finish_poll-IsValid v)
                (omega (arith, in_use-finish_poll q full_d)))
        | inr other ↦ stops_here fuel q (ok tt) (poll_waits raw v s d (ground arith))
      ]
