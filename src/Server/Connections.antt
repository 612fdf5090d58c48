-- ===== src/Server/Connections.antt =====
-- A connection that is opened, refused or closed: what the players and the peers see of it.
use net64_coop.Prelude.{
  append-nil, find, erase, find-erase, ℕ, ◌≤◌, ◌<◌, ◌≡◌, ◌≢◌, refl, sym, inl, inr, ◌⊎◌, none, some,
  Option, [], ◌∷◌, ◌++◌, arith, ◌==◌, if◌then◌else◌, count, Option-cases, Bool-cases, not, leb,
}
use net64_coop.IdManager.{IdManager, detached, has_id, destroy_handle, acquire_id}
use net64_coop.IdManager.Partition.{IsPartition, acquire_id-IsPartition, acquire_id-eq-none}
use net64_coop.Net.{
  ServerDisconnectCode, proto_ver, not_accepted, server_full, incompatible, s_client_disconnected,
}
use net64_coop.Server.{
  Player, Server, max_peer_id, broadcasts, disconnects, disconnect, broadcast, on_disconnect,
  on_connect, accept_peer, assign_player, disconnect_found, destroy_player, player_left,
}
use net64_coop.Server.Players.{keys, find-cons, find_absent, erase_absent}
use net64_coop.Server.Invariant.{IsSound}
use net64_coop.Server.Steps.{on_connect-IsSound, on_disconnect-IsSound}

-- What becomes of a connection: the reason for refusing it, if any.
abbrev pub refusal : Server → ℕ → ℕ → Option ServerDisconnectCode
refusal s version connected_peers =
    if not s.accept_new
    then some not_accepted
    else if leb s.max_peers connected_peers
    then some server_full
    else if not (version == proto_ver)
    then some incompatible
    else none

abbrev newcomer : ℕ → ℕ → Player
newcomer peer now = record { connect_time = now; id = detached; name = []; peer = peer }

accepted :
    (s : Server) (peer version connected_peers now : ℕ) (k : ℕ) (m : IdManager)
    → IsSound s
    → refusal s version connected_peers ≡ none
    → acquire_id max_peer_id s.peer_ids ≡ some (k, m)
    → (on_connect s peer version connected_peers now ≡ (
      record s {
        players = (k, newcomer peer now) ∷ s.players;
        peer_ids = m;
        peer_data = λ q. if q == peer then k else s.peer_data q;
      },
      none,
    ))
      × (0 < k)
      × (count k (keys s.players) ≡ 0)
unfolding on_connect accept_peer assign_player
accepted s peer version connected_peers now k m v calm got =
    let (pos, _, new, part) = acquire_id-IsPartition max_peer_id (keys s.players) v.peer_part got in
    let nobody = find_absent k s.players new in
    let same = erase_absent k s.players new in
    (
      elim (Bool-cases (not s.accept_new)) [
        | inl closed ↦ ground arith
        | inr opened ↦ elim (Bool-cases (leb s.max_peers connected_peers)) [
          | inl full ↦ ground arith
          | inr room ↦ elim (Bool-cases (not (version == proto_ver))) [
            | inl old ↦ ground arith
            | inr match ↦ rw (opened, room, match, got, nobody, same) refl
          ]
        ]
      ],
      pos,
      new,
    )

-- A connection event either disconnects the peer with the first reason there is to refuse it and
-- changes nothing else, or gives it a player without an id under a key that no player has, and
-- leaves the other players; or all keys are held.
pub connect_decides :
    (s : Server) (peer version connected_peers now : ℕ)
    → IsSound s
    → ((code : ServerDisconnectCode) × (refusal s version connected_peers ≡ some code)
        × (on_connect s peer version connected_peers now
            ≡ (record s { effects = s.effects ++ (disconnects peer code ∷ []) }, none)))
      ⊎ (((refusal s version connected_peers ≡ none)
            × (k : ℕ) × (m : IdManager) × (count k (keys s.players) ≡ 0)
            × (on_connect s peer version connected_peers now ≡ (
              record s {
                players = (k, newcomer peer now) ∷ s.players;
                peer_ids = m;
                peer_data = λ q. if q == peer then k else s.peer_data q;
              },
              none,
            )))
          ⊎ ((i : ℕ) → 0 < i → i ≤ max_peer_id → count i (keys s.players) ≡ 1))
unfolding on_connect disconnect
connect_decides s peer version connected_peers now v =
    elim (Option-cases (refusal s version connected_peers)) [
      | inl calm ↦ elim (Option-cases (acquire_id max_peer_id s.peer_ids)) [
        | inl full ↦ inr (inr ((acquire_id-eq-none max_peer_id _ v.peer_part).0 full))
        | inr ((k, m), got) ↦
            let (e, _, new) = accepted s peer version connected_peers now k m v calm got in
            inr (inl (calm, k, m, new, e))
      ]
      | inr (code, refused) ↦ inl (
        code,
        refused,
        elim (Bool-cases (not s.accept_new)) [
          | inl closed ↦ ground arith
          | inr opened ↦ elim (Bool-cases (leb s.max_peers connected_peers)) [
            | inl full ↦ ground arith
            | inr room ↦ ground arith
          ]
        ],
      )
    ]

pub on_disconnect_found :
    (s : Server) (peer code : ℕ) (x : Player)
    → s.peer_data peer ≢ 0
    → find (s.peer_data peer) s.players ≡ some x
    → on_disconnect s peer code ≡ (destroy_player (player_left s x code) peer x, none)
unfolding on_disconnect disconnect_found
on_disconnect_found s peer code x nz there = elim (Bool-cases (s.peer_data peer == 0)) [
  | inl null ↦ absurd (nz (ground arith))
  | inr linked ↦ rw (linked, there) refl
]

pub data-player_left :
    (s : Server) (x : Player) (code : ℕ) → (player_left s x code).peer_data ≡ s.peer_data
unfolding player_left broadcast
data-player_left s x code = elim (Bool-cases (has_id x.id)) [
  | inl t ↦ rw t refl
  | inr f ↦ rw f refl
]

pub players-player_left :
    (s : Server) (x : Player) (code : ℕ) → (player_left s x code).players ≡ s.players
unfolding player_left broadcast
players-player_left s x code = elim (Bool-cases (has_id x.id)) [
  | inl t ↦ rw t refl
  | inr f ↦ rw f refl
]

pub effects-player_left :
    (s : Server) (x : Player) (code : ℕ)
    → (player_left s x code).effects
      ≡ s.effects
        ++ (if has_id x.id then broadcasts (s_client_disconnected x.id.id code) ∷ [] else [])
unfolding player_left broadcast
effects-player_left s x code = elim (Bool-cases (has_id x.id)) [
  | inl t ↦ rw t refl
  | inr f ↦ rw f (sym (append-nil s.effects))
]

-- The end of the connection of a peer with data, in a sound server: its player is gone, its data is
-- null, the other players stay, and the others hear of it exactly if it had an id.
pub disconnect_cleans :
    (s : Server) (peer code : ℕ)
    → IsSound s
    → s.peer_data peer ≢ 0
    → (x : Player) × (find (s.peer_data peer) s.players ≡ some x)
      × (x.peer ≡ peer)
      × ((on_disconnect s peer code).1 ≡ none)
      × ((on_disconnect s peer code).0.effects
          ≡ s.effects
            ++ (if has_id x.id then broadcasts (s_client_disconnected x.id.id code) ∷ [] else []))
      × ((on_disconnect s peer code).0.peer_data peer ≡ 0)
      × ((j : ℕ)
          → find j (on_disconnect s peer code).0.players
            ≡ (if s.peer_data peer == j then none else find j s.players))
unfolding destroy_player
disconnect_cleans s peer code v nz =
    let (x, there, at) = v.linked peer nz in
    let e = on_disconnect_found s peer code x nz there in
    (
      x,
      there,
      at,
      rw e refl,
      rw e (effects-player_left s x code),
      rw (e, data-player_left s x code) (ground arith),
      λ j.
          rw (e, data-player_left s x code, players-player_left s x code)
            (find-erase (s.peer_data peer) j s.players),
    )

newcomer_leaves :
    (s : Server) (peer code now k : ℕ) (m : IdManager)
    → s.peer_data peer ≡ 0
    → 0 < k
    → count k (keys s.players) ≡ 0
    → let s1 = record s {
      players = (k, newcomer peer now) ∷ s.players;
      peer_ids = m;
      peer_data = λ q. if q == peer then k else s.peer_data q;
    } in
      let s' = (on_disconnect s1 peer code).0 in
      (s'.players ≡ s.players)
      × (s'.effects ≡ s.effects)
      × (s'.player_ids ≡ s.player_ids)
      × ((q : ℕ) → s'.peer_data q ≡ s.peer_data q)
unfolding destroy_player player_left destroy_handle erase
newcomer_leaves s peer code now k m z pos new =
    let s1 : Server = record s {
      players = (k, newcomer peer now) ∷ s.players;
      peer_ids = m;
      peer_data = λ q. if q == peer then k else s.peer_data q;
    } in
    let own : s1.peer_data peer ≡ k = ground arith in
    let e =
      on_disconnect_found s1 peer code (newcomer peer now) (λ n. ground arith)
        (ground (arith, find-cons k (s1.peer_data peer) (newcomer peer now) s.players)) in
    (
      rw e (ground (arith, erase_absent k s.players)),
      rw e refl,
      rw e refl,
      λ q. rw e (ground arith),
    )

-- A peer that a sound server accepts and that goes without a handshake leaves the players, the messages
-- sent, the player ids and the data of the peers as they were; and the peer ids are again split between
-- the players that were there and those to give out, so that its own is not lost.
pub connect_then_disconnect :
    (s : Server) (peer version connected_peers now code : ℕ)
    → IsSound s
    → s.peer_data peer ≡ 0
    → refusal s version connected_peers ≡ none
    → acquire_id max_peer_id s.peer_ids ≢ none
    → let s' = (on_disconnect (on_connect s peer version connected_peers now).0 peer code).0 in
      (s'.players ≡ s.players)
      × (s'.effects ≡ s.effects)
      × (s'.player_ids ≡ s.player_ids)
      × ((q : ℕ) → s'.peer_data q ≡ s.peer_data q)
      × IsPartition max_peer_id (keys s.players) s'.peer_ids
connect_then_disconnect s peer version connected_peers now code v z calm room =
    elim (Option-cases (acquire_id max_peer_id s.peer_ids)) [
      | inl full ↦ absurd (room full)
      | inr ((k, m), got) ↦
          let (e, pos, new) = accepted s peer version connected_peers now k m v calm got in
          let left = newcomer_leaves s peer code now k m z pos new in
          let v1 = on_connect-IsSound v peer version connected_peers now z in
          let v2 = rw e at (on_disconnect-IsSound v1 peer code) in
          rw e (left.0, left.1, left.2, left.3, rw left.0 at v2.peer_part)
    ]
