-- ===== src/Session/Changes.antt =====
-- What an event of the server changes for the peers: the players with an id, and the messages about it.
use net64_coop.Prelude.{
  ℕ, ◌≤◌, ◌≡◌, refl, ◌∙◌, not, leb, Option, none, some, [], ◌∷◌, ◌++◌, append-nil, arith, ◌==◌,
  if◌then◌else◌, find, erase, count, Bool-cases, inl, inr,
}
use net64_coop.IdManager.{IdManager, has_id, acquire_id}
use net64_coop.IdManager.Partition.{acquire_id-IsPartition}
use net64_coop.Net.{
  Text, s_chat_message, s_handshake, s_player_list, s_client_connected, s_client_disconnected,
  ServerDisconnectCode, not_accepted, server_full, incompatible, proto_ver,
}
use net64_coop.Server.{
  Player, Server, Effect, sends, broadcasts, disconnects, max_peer_id, disconnect, on_connect,
  on_disconnect, accept_peer, assign_player, disconnect_found, destroy_player, player_left,
}
use net64_coop.Server.Players.{keys, ids, erase_absent}
use net64_coop.Server.Invariant.{IsSound, key_once}
use net64_coop.Server.Connections.{effects-player_left, players-player_left, data-player_left}
use net64_coop.Server.Replies.{listing, issued_once}
use net64_coop.Session.{is_named, named, HaveNull}
use net64_coop.Session.Roster.{named-erase, erase-HaveNull}

-- A call that no client keeps anything of.
abbrev pub IsQuiet : Effect → Type 0
IsQuiet (broadcasts (s_chat_message sender message)) = Unit {0}
IsQuiet (disconnects peer code) = Unit {0}
IsQuiet _ = ⊥

-- A player came under an id that nobody had, with the three messages.
pub record Joins (s s' : Server) (at id : ℕ) (name : Text) : Type 0 where
  pub messages :
      s'.effects
      ≡ s.effects
        ++ (sends at (s_handshake id)
            ∷ sends at (s_player_list (listing s'.players))
            ∷ broadcasts (s_client_connected id name)
            ∷ [])
  pub new : named id s.players ≡ none
  pub lists :
      (j : ℕ)
      → named j s'.players
        ≡ (if id == j then some (record { id = id; name = name }) else named j s.players)

pub data Change (s s' : Server) : Type 0 where
  same : s'.effects ≡ s.effects → ((j : ℕ) → named j s'.players ≡ named j s.players) → Change s s'
  quiet :
      (e : Effect)
      → IsQuiet e
      → s'.effects ≡ s.effects ++ (e ∷ [])
      → ((j : ℕ) → named j s'.players ≡ named j s.players)
      → Change s s'
  leaves :
      (id code : ℕ)
      → s'.effects ≡ s.effects ++ (broadcasts (s_client_disconnected id code) ∷ [])
      → ((j : ℕ) → named j s'.players ≡ (if id == j then none else named j s.players))
      → Change s s'
  joins : (at id : ℕ) (name : Text) → Joins s s' at id name → Change s s'

abbrev pub Changes : Server → Server → Type 0
Changes s s' = Change s s' × HaveNull s'.players

pub disconnect-Changes :
    (s : Server) (peer : ℕ) (code : ServerDisconnectCode)
    → HaveNull s.players
    → Changes s (disconnect s peer code)
unfolding disconnect
disconnect-Changes s peer code all = (quiet (disconnects peer code) tt refl (λ j. refl), all)

module _ {s : Server} (v : IsSound s) (all : HaveNull s.players) where
  accept_peer-Changes :
      (peer now : ℕ) (o : Option (ℕ × IdManager))
      → acquire_id max_peer_id s.peer_ids ≡ o
      → Changes s (accept_peer s peer now o).0
  unfolding accept_peer assign_player named
  accept_peer-Changes peer now none e = (same refl (λ j. refl), all)
  accept_peer-Changes peer now (some (k, m)) e =
      let (pos, _, new, part) = acquire_id-IsPartition max_peer_id (keys s.players) v.peer_part e in
      let kept = erase_absent k s.players new in
      (same refl (λ j. rw kept refl), rw kept ((λ n. refl), all))

  pub on_connect-Changes :
      (peer version connected_peers now : ℕ)
      → Changes s (on_connect s peer version connected_peers now).0
  unfolding on_connect
  on_connect-Changes peer version connected_peers now = elim (Bool-cases (not s.accept_new)) [
    | inl closed ↦ rw closed (disconnect-Changes s peer not_accepted all)
    | inr opened ↦ elim (Bool-cases (leb s.max_peers connected_peers)) [
      | inl full ↦ rw (opened, full) (disconnect-Changes s peer server_full all)
      | inr room ↦ elim (Bool-cases (not (version == proto_ver))) [
        | inl old ↦ rw (opened, room, old) (disconnect-Changes s peer incompatible all)
        | inr match ↦ rw (opened, room, match) (accept_peer-Changes peer now _ refl)
      ]
    ]
  ]

  few_ids : (j : ℕ) → count j (ids s.players) ≤ 1
  few_ids j = omega (arith, v.player_part.parts j, issued_once s.player_ids.new_id j)

  -- The player that is gone, and what is broadcast of it.
  destroyed-Changes :
      (peer code : ℕ) (x : Player)
      → find (s.peer_data peer) s.players ≡ some x
      → Changes s (destroy_player (player_left s x code) peer x)
  unfolding destroy_player
  destroyed-Changes peer code x there =
      let k = s.peer_data peer in
      let gone : (j : ℕ)
          → named j (erase k s.players) ≡ (if is_named j x then none else named j s.players) =
        λ j. named-erase k j x s.players there (key_once v k x there).0 (few_ids j) in
      let left : erase ((player_left s x code).peer_data peer) (player_left s x code).players
          ≡ erase k s.players =
        rw (data-player_left s x code, players-player_left s x code) refl in
      let messages = effects-player_left s x code in
      (
        elim (Bool-cases (has_id x.id)) [
          | inl known ↦
              leaves x.id.id code (rw known at messages) (λ j. rw left (gone j ∙ ground arith))
          | inr unknown ↦
              same (rw unknown at messages ∙ append-nil s.effects)
                (λ j. rw left (gone j ∙ ground arith))
        ],
        rw left (erase-HaveNull k s.players all),
      )

  disconnect_found-Changes :
      (peer code : ℕ) (o : Option Player)
      → find (s.peer_data peer) s.players ≡ o
      → Changes s (disconnect_found s peer code o).0
  unfolding disconnect_found
  disconnect_found-Changes peer code none e = (same refl (λ j. refl), all)
  disconnect_found-Changes peer code (some x) e = destroyed-Changes peer code x e

  pub on_disconnect-Changes : (peer code : ℕ) → Changes s (on_disconnect s peer code).0
  unfolding on_disconnect
  on_disconnect-Changes peer code = elim (Bool-cases (s.peer_data peer == 0)) [
    | inl null ↦ rw null (same refl (λ j. refl), all)
    | inr linked ↦ rw linked (disconnect_found-Changes peer code _ refl)
  ]
