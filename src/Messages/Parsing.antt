-- ===== src/Messages/Parsing.antt =====
-- A message that is sent is parsed, whatever order the types were registered in.
use net64_coop.Prelude.{
  ℕ, ◌≡◌, refl, ap, ◌∙◌, none, some, List, [], ◌∷◌, ◌++◌, append_assoc, arith, if◌then◌else◌, find,
  find-erase, Bool-cases, inl, inr,
}
use net64_coop.Net.{NetMessage}
use net64_coop.Messages.{
  id_of, Archive, register_class, register_all, make, serialize_msg, packet_of, parse_message,
  is_among,
}

-- What is written of a message is read, whatever is behind it.
pub record IsFaithful (ar : Archive) (msg : NetMessage) : Type 0 where
  pub headers : (rest : List ℕ) → ar.read_header (ar.header ++ rest) ≡ some rest
  pub ids : (i : ℕ) (rest : List ℕ) → ar.read_id (ar.write_id i ++ rest) ≡ some (i, rest)
  pub fields :
      (rest : List ℕ) → ar.read_fields (id_of msg) (ar.write_fields msg ++ rest) ≡ some (msg, rest)

make-register_all :
    (ts : List ℕ) (i : ℕ) → make (register_all ts) i ≡ (if is_among i ts then some i else none)
unfolding make register_all register_class find
make-register_all [] i = refl
make-register_all (t ∷ ts) i =
    ground (arith, make-register_all ts i, find-erase t i (register_all ts))

-- Over archives that read what they write of a message: its packet, whatever bytes are behind, is parsed as
-- that message if its type is registered, in any order and however often, and is refused if it is not.
pub parse_message-packet_of :
    (ar : Archive) (ts : List ℕ) (msg : NetMessage) (rest : List ℕ)
    → IsFaithful ar msg
    → parse_message ar (register_all ts) (packet_of ar msg ++ rest)
      ≡ (if is_among (id_of msg) ts then some msg else none)
unfolding parse_message packet_of serialize_msg
parse_message-packet_of ar ts msg rest ok =
    let i = id_of msg in
    let bytes = ar.write_fields msg in
    let split : packet_of ar msg ++ rest ≡ ar.header ++ (ar.write_id i ++ (bytes ++ rest)) =
      append_assoc ar.header (ar.write_id i ++ bytes) rest
      ∙ ap (λ t. ar.header ++ t) (append_assoc (ar.write_id i) bytes rest) in
    let header = ap ar.read_header split ∙ ok.headers (ar.write_id i ++ (bytes ++ rest)) in
    elim (Bool-cases (is_among i ts)) [
      | inl known ↦
          rw (header, parse_message)
            (rw (ok.ids i (bytes ++ rest))
              (rw (make-register_all ts i) (rw known (rw (ok.fields rest) refl))))
      | inr unknown ↦
          rw (header, parse_message)
            (rw (ok.ids i (bytes ++ rest)) (rw (make-register_all ts i) (rw unknown refl)))
    ]
