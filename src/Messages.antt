-- ===== src/Messages.antt =====
-- src/common/automatic_factory.hpp, message_interface.hpp and double_dispatch.hpp, at the network messages of
-- src/net64/net: how bytes become a message, and how a message finds its handler. What cereal reads and
-- writes is a parameter.
pub mod Parsing
pub mod Dispatch
mod Tests
use net64_coop.Prelude.{
  ℕ, Bool, true, false, Option, none, some, List, [], ◌∷◌, ◌++◌, ◌==◌, if◌then◌else◌, find, erase,
}
use net64_coop.Net.{
  NetMessage, c_handshake, c_chat_message, s_chat_message, s_handshake, s_player_list,
  s_client_disconnected, s_client_connected,
}

-- The types of the messages, each with its number, `ID`.
unfoldable pub id_of : NetMessage → ℕ
id_of (c_handshake name version) = 0
id_of (s_handshake id) = 1
id_of (s_chat_message sender message) = 2
id_of (c_chat_message message) = 3
id_of (s_player_list players) = 4
id_of (s_client_disconnected id code) = 5
id_of (s_client_connected id name) = 6

-- What the code uses of a cereal archive: what its constructor writes and reads, a number of a type, and
-- the fields of a message of a type. A read returns what is behind; `none` is an exception.
pub record Archive : Type 0 where
  pub header : List ℕ
  pub read_header : List ℕ → Option (List ℕ)
  pub write_id : ℕ → List ℕ
  pub read_id : List ℕ → Option (ℕ × List ℕ)
  pub write_fields : NetMessage → List ℕ
  pub read_fields : ℕ → List ℕ → Option (NetMessage × List ℕ)

-- The map of factories: under each key the type that is constructed.
abbrev pub Factories : Type 0
Factories = List (ℕ × ℕ)

-- `register_class`: the type with the number `ID`, under that number
unfoldable pub register_class : ℕ → Factories → Factories
register_class t factories = (t, t) ∷ erase t factories

unfoldable pub register_all : List ℕ → Factories
register_all [] = []
register_all (t ∷ ts) = register_class t (register_all ts)

-- `Factory::make`: a key that is not there is an `out_of_range`.
unfoldable pub make : Factories → ℕ → Option ℕ
make factories key = find key factories

module _ (ar : Archive) where
  unfoldable pub serialize_msg : NetMessage → List ℕ
  serialize_msg msg = ar.write_id (id_of msg) ++ ar.write_fields msg

  -- the packet that `send` and `broadcast` make
  unfoldable pub packet_of : NetMessage → List ℕ
  packet_of msg = ar.header ++ serialize_msg msg

  unfoldable pub parse_message : Factories → List ℕ → Option NetMessage
  parse_message factories strm = elim (ar.read_header strm) [
    | none ↦ none
    | some behind ↦ elim (ar.read_id behind) [
      | none ↦ none
      | some (message_id, fields) ↦ elim (make factories message_id) [
        | none ↦ none
        | some t ↦ elim (ar.read_fields t fields) [ none ↦ none | some (msg, rest) ↦ some msg ]
      ]
    ]
  ]

-- `double_dispatch` with `MessageIdPredicate`, over the numbers of the types: whether one matched, and
-- what the call of the handler made.
unfoldable pub double_dispatch :
    {A : Type 0} → (NetMessage → A → A) → List ℕ → NetMessage → A → Bool × A
double_dispatch on_dispatch [] param a = (false, a)
double_dispatch on_dispatch (t ∷ ts) param a =
    if id_of param == t then (true, on_dispatch param a) else double_dispatch on_dispatch ts param a

abbrev pub is_among : ℕ → List ℕ → Bool
is_among i [] = false
is_among i (t ∷ ts) = if t == i then true else is_among i ts
