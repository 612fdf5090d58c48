-- ===== src/Server/Speech.antt =====
-- What a received packet can do to the other players and peers, and what `reset_all` leaves.
use net64_coop.Prelude.{
  append-nil, find, erase, ℕ, ◌≡◌, ◌≢◌, refl, sym, inl, inr, none, some, Option, List, [], ◌∷◌,
  ◌++◌, arith, ◌==◌, Option-cases, Bool-cases, true, false, Bool, ◌||◌, ◌&&◌, not, map,
}
use net64_coop.IdManager.{IdManager, IdHandle, has_id, assign_new, destroy_handle}
use net64_coop.IdManager.Handle.{assign_new-IsPartition, destroy_handle-IsPartition}
use net64_coop.IdManager.Partition.{IsPartition}
use net64_coop.Net.{
  NetMessage, Text, is_empty, protocol_violation, s_chat_message, s_client_connected, c_handshake,
  c_chat_message,
}
use net64_coop.Server.{
  Player, Players, Server, Effect, max_player_id, max_peer_id, sends, broadcasts, disconnects,
  resets, replace, on_handshake, give_id, announce, on_chat_message, disconnect, send, broadcast,
  reset_all, destroy_handles, on_net_message, handle_message,
}
use net64_coop.Server.Players.{keys, ids, find_absent, find-replace}
use net64_coop.Server.Invariant.{IsSound, split_ids}
use net64_coop.Server.Replies.{effects-announce}

-- The effects that a peer may cause: messages to itself, its own end, and broadcasts about its own id.
abbrev pub is_own : ℕ → ℕ → Effect → Bool
is_own peer id (sends q msg) = q == peer
is_own peer id (broadcasts (s_chat_message j text)) = (j == id) && not (j == 0)
is_own peer id (broadcasts (s_client_connected j name)) = (j == id) && not (j == 0)
is_own peer id (broadcasts msg) = false
is_own peer id (disconnects q code) = q == peer
is_own peer id (resets q) = false

abbrev pub all_own : ℕ → ℕ → List Effect → Bool
all_own peer id [] = true
all_own peer id (e ∷ es) = is_own peer id e && all_own peer id es

-- What may have become of a server that got a packet from the player under `k`.
pub record IsOwnChange (s s' : Server) (peer k : ℕ) : Type 0 where
  pub player : Player
  pub added : List Effect
  pub there : find k s'.players ≡ some player
  pub effects : s'.effects ≡ s.effects ++ added
  pub own : all_own peer player.id.id added ≡ true
  pub others : (j : ℕ) → k ≢ j → find j s'.players ≡ find j s.players

module _ (s : Server) (peer k : ℕ) (x : Player) (there : find k s.players ≡ some x)
    (at : x.peer ≡ peer) where
  unchanged : IsOwnChange s s peer k
  unchanged = record {
    player = x;
    added = [];
    there = there;
    effects = sym (append-nil s.effects);
    own = refl;
    others = λ j ne. refl;
  }

  disconnected_itself : IsOwnChange s (disconnect s x.peer protocol_violation) peer k
  unfolding disconnect
  disconnected_itself = record {
    player = x;
    added = disconnects x.peer protocol_violation ∷ [];
    there = there;
    effects = refl;
    own = ground arith;
    others = λ j ne. refl;
  }

  chat_own : (message : Text) → IsOwnChange s (on_chat_message s x message) peer k
  unfolding on_chat_message broadcast
  chat_own message = elim (Bool-cases (has_id x.id)) [
    | inr unknown ↦ rw unknown unchanged
    | inl known ↦ rw known (record {
      player = x;
      added = broadcasts (s_chat_message x.id.id message) ∷ [];
      there = there;
      effects = refl;
      own = ground arith;
      others = λ j ne. refl;
    })
  ]

  give_own :
      (v : IsSound s) (name : Text) (o : Option (IdHandle × IdManager))
      → assign_new max_player_id s.player_ids x.id ≡ o
      → IsOwnChange s (give_id s k x name o).0 peer k
  unfolding give_id announce send broadcast
  give_own v name none e = record {
    player = record x { name = name };
    added = [];
    there = ground (arith, find-replace k k (record x { name = name }) x s.players);
    effects = sym (append-nil s.effects);
    own = refl;
    others = λ j ne. ground (arith, find-replace k j (record x { name = name }) x s.players);
  }
  give_own v name (some (h, m)) e =
      let y : Player = record x { name = name; id = h } in
      let (has, _, _) =
        assign_new-IsPartition max_player_id (ids (erase k s.players)) x.id (split_ids v k x there)
          e in
      record {
        player = y;
        added = _;
        there = ground (arith, find-replace k k y x s.players);
        effects = effects-announce (record s { players = replace k y s.players; player_ids = m }) y;
        own = ground arith;
        others = λ j ne. ground (arith, find-replace k j y x s.players);
      }

  handshake_own :
      (v : IsSound s) (name version : Text)
      → IsOwnChange s (on_handshake s k x name version).0 peer k
  unfolding on_handshake
  handshake_own v name version = elim (Bool-cases (has_id x.id)) [
    | inl again ↦ rw again disconnected_itself
    | inr new ↦ elim (Bool-cases (is_empty version || is_empty name)) [
      | inl bad ↦ rw (new, bad) disconnected_itself
      | inr good ↦
          rw (new, good) (give_own v name (assign_new max_player_id s.player_ids x.id) refl)
    ]
  ]

  message_own :
      (v : IsSound s) (msg : NetMessage) → IsOwnChange s (handle_message s k msg (some x)).0 peer k
  unfolding handle_message
  message_own v (c_handshake name version) = handshake_own v name version
  message_own v (c_chat_message message) = chat_own message
  message_own v msg = unchanged

-- A packet from a peer with data, whatever its bytes are, changes no other player, and causes only
-- messages to that peer, its disconnection, and broadcasts about its own id, which is not 0.
pub speaks_for_itself :
    (parse : List ℕ → Option NetMessage) (s : Server) (peer : ℕ) (packet : List ℕ)
    → IsSound s
    → s.peer_data peer ≢ 0
    → IsOwnChange s (on_net_message parse s peer packet) peer (s.peer_data peer)
unfolding on_net_message
speaks_for_itself parse s peer packet v nz =
    let (x, there, at) = v.linked peer nz in
    elim (Option-cases (parse packet)) [
      | inl bad ↦ rw (bad, on_net_message) (unchanged s peer (s.peer_data peer) x there at)
      | inr (msg, good) ↦
          rw (good, on_net_message, there) (message_own s peer (s.peer_data peer) x there at v msg)
    ]

-- A packet from a peer without data, one that was refused, changes nothing.
pub refused_is_ignored :
    (parse : List ℕ → Option NetMessage) (s : Server) (peer : ℕ) (packet : List ℕ)
    → IsSound s
    → s.peer_data peer ≡ 0
    → on_net_message parse s peer packet ≡ s
unfolding on_net_message handle_message
refused_is_ignored parse s peer packet v z =
    let nobody : find (s.peer_data peer) s.players ≡ none =
      find_absent (s.peer_data peer) s.players
        (ground (arith, v.peer_part.parts (s.peer_data peer))) in
    elim (Option-cases (parse packet)) [
      | inl bad ↦ rw (bad, on_net_message) refl
      | inr (msg, good) ↦ rw (good, on_net_message, nobody) refl
    ]

destroy_handles-IsPartition :
    (ps : Players) (m : IdManager)
    → IsPartition max_player_id (ids ps) m
    → IsPartition max_player_id [] (destroy_handles m ps)
unfolding destroy_handles
destroy_handles-IsPartition [] m v = v
destroy_handles-IsPartition ((k, x) ∷ ps) m v =
    destroy_handles-IsPartition ps (destroy_handle max_player_id m x.id)
      (destroy_handle-IsPartition max_player_id (ids ps) x.id v)

-- `reset_all` of a sound server gives every player id back, resets the peer of each player and leaves
-- no player; but every key that a player had stays taken.
pub reset_all_frees :
    (s : Server)
    → IsSound s
    → ((reset_all s).players ≡ [])
      × IsPartition max_player_id [] (reset_all s).player_ids
      × ((reset_all s).effects ≡ s.effects ++ map (λ (kp : ℕ × Player). resets kp.1.peer) s.players)
      × IsPartition max_peer_id (keys s.players) (reset_all s).peer_ids
unfolding reset_all
reset_all_frees s v =
    (refl, destroy_handles-IsPartition s.players s.player_ids v.player_part, refl, v.peer_part)
