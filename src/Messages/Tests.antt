-- ===== src/Messages/Tests.antt =====
-- An archive that writes single bytes, and the theorems at it.
use net64_coop.Prelude.{ℕ, ◌≡◌, refl, ◌==◌, if◌then◌else◌, Option, none, some, List, [], ◌∷◌, ◌++◌}
use net64_coop.Net.{NetMessage, s_handshake, s_client_connected, c_chat_message}
use net64_coop.Messages.{id_of, Archive, register_all, packet_of, parse_message}
use net64_coop.Messages.Parsing.{IsFaithful, parse_message-packet_of}
use net64_coop.Messages.Dispatch.{double_dispatch_lem}
use net64_coop.Messages.{double_dispatch, id_of}
use net64_coop.Prelude.{true, ◌+◌}

double_dispatch_lem_example :
    double_dispatch (λ m n. n + 1) (6 ∷ 5 ∷ 6 ∷ []) (s_client_connected 3 (65 ∷ [])) 7 ≡ (true, 8)
unfolding id_of
double_dispatch_lem_example =
    double_dispatch_lem (λ m n. n + 1) (6 ∷ 5 ∷ 6 ∷ []) (s_client_connected 3 (65 ∷ [])) 7

-- A header of one byte, and the fields of two types.
abbrev write_fields : NetMessage → List ℕ
write_fields (s_handshake id) = id ∷ []
write_fields (c_chat_message message) = message
write_fields msg = []

abbrev read_fields : ℕ → List ℕ → Option (NetMessage × List ℕ)
read_fields t [] = none
read_fields t (b ∷ rest) = if t == 1 then some (s_handshake b, rest) else none

abbrev read_byte : List ℕ → Option (ℕ × List ℕ)
read_byte [] = none
read_byte (b ∷ rest) = some (b, rest)

abbrev read_header : List ℕ → Option (List ℕ)
read_header [] = none
read_header (b ∷ rest) = some rest

abbrev archive : Archive
archive = record {
  header = 1 ∷ [];
  read_header = read_header;
  write_id = λ i. i ∷ [];
  read_id = read_byte;
  write_fields = write_fields;
  read_fields = read_fields;
}

archive-IsFaithful : IsFaithful archive (s_handshake 9)
unfolding id_of
archive-IsFaithful = record { headers = λ rest. refl; ids = λ i rest. refl; fields = λ rest. refl }

parse_message-packet_of_example :
    parse_message archive
      (register_all (3 ∷ 1 ∷ 0 ∷ []))
      (packet_of archive (s_handshake 9) ++ (7 ∷ []))
    ≡ some (s_handshake 9)
unfolding id_of
parse_message-packet_of_example =
    parse_message-packet_of archive (3 ∷ 1 ∷ 0 ∷ []) (s_handshake 9) (7 ∷ []) archive-IsFaithful
