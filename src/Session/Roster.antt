-- ===== src/Session/Roster.antt =====
-- How the players with an id change with the map of players.
use net64_coop.Prelude.{
  ℕ, ◌≤◌, ◌<◌, ◌≡◌, refl, true, false, none, some, [], ◌∷◌, arith, ◌==◌, if◌then◌else◌, find, erase,
  count, count-append, Bool-cases, inl, inr,
}
use net64_coop.IdManager.{IdHandle, has_id}
use net64_coop.IdManager.Handle.{ids_of}
use net64_coop.Net.{Text}
use net64_coop.Server.{Player, Players, replace}
use net64_coop.Server.Players.{keys, ids, erase_absent}
use net64_coop.Server.Replies.{count_found, listing}
use net64_coop.Client.RemotePlayers.{listed}
use net64_coop.Session.{is_named, named, HaveNull}

own_count : (j : ℕ) (x : Player) → is_named j x ≡ true → 0 < count j (ids_of x.id)
own_count j x h = ground arith

pub named_unheld : (j : ℕ) (ps : Players) → count j (ids ps) ≡ 0 → named j ps ≡ none
unfolding named
named_unheld j [] h = refl
named_unheld j ((k, x) ∷ ps) h =
    ground (arith, named_unheld j ps, own_count j x, count-append j (ids_of x.id) (ids ps))

pub named-erase :
    (k j : ℕ) (y : Player) (ps : Players)
    → find k ps ≡ some y
    → count k (keys ps) ≡ 1
    → count j (ids ps) ≤ 1
    → named j (erase k ps) ≡ (if is_named j y then none else named j ps)
unfolding named find erase
named-erase k j y [] h one few = cc
named-erase k j y ((i, z) ∷ ps) h one few = ground (
  arith,
  named-erase k j y ps,
  named_unheld j ps,
  erase_absent k ps,
  own_count j z,
  count_found k y ps,
  count-append j (ids_of z.id) (ids ps),
)

pub named-replace :
    (k j : ℕ) (x : Player) (name : Text) (h : IdHandle) (ps : Players)
    → find k ps ≡ some x
    → has_id x.id ≡ false
    → has_id h ≡ true
    → count h.id (ids ps) ≡ 0
    → named j (replace k (record x { name = name; id = h }) ps)
      ≡ (if h.id == j then some (record { id = h.id; name = name }) else named j ps)
unfolding named find replace
named-replace k j x name h [] there new has unheld = cc
named-replace k j x name h ((i, z) ∷ ps) there new has unheld =
    ground (
      arith,
      named-replace k j x name h ps,
      own_count j z,
      count-append h.id (ids_of z.id) (ids ps),
    )

-- A player without an id may change its name.
pub named-rename :
    (k j : ℕ) (x : Player) (name : Text) (ps : Players)
    → find k ps ≡ some x
    → has_id x.id ≡ false
    → named j (replace k (record x { name = name }) ps) ≡ named j ps
unfolding named find replace
named-rename k j x name [] there new = cc
named-rename k j x name ((i, z) ∷ ps) there new = ground (arith, named-rename k j x name ps)

pub find-HaveNull :
    (k : ℕ) (x : Player) (ps : Players)
    → find k ps ≡ some x
    → HaveNull ps
    → has_id x.id ≡ false
    → x.id.id ≡ 0
unfolding find
find-HaveNull k x [] there all = cc
find-HaveNull k x ((i, z) ∷ ps) there all =
    let first = all.0 in ground (arith, find-HaveNull k x ps, all.1, first)

pub listed-listing :
    (j : ℕ) (ps : Players) → 0 < j → HaveNull ps → listed j (listing ps) ≡ named j ps
unfolding named
listed-listing j [] pos null = refl
listed-listing j ((k, x) ∷ ps) pos null =
    let first = null.0 in ground (arith, listed-listing j ps, null.1, first)

pub replace-HaveNull :
    (k : ℕ) (y : Player) (ps : Players)
    → (has_id y.id ≡ false → y.id.id ≡ 0)
    → HaveNull ps
    → HaveNull (replace k y ps)
unfolding replace
replace-HaveNull k y [] null all = tt
replace-HaveNull k y ((i, z) ∷ ps) null all = elim (Bool-cases (i == k)) [
  | inl here ↦ rw here (null, all.1)
  | inr away ↦ rw away (all.0, replace-HaveNull k y ps null all.1)
]

pub erase-HaveNull : (k : ℕ) (ps : Players) → HaveNull ps → HaveNull (erase k ps)
unfolding erase
erase-HaveNull k [] all = tt
erase-HaveNull k ((i, z) ∷ ps) all = elim (Bool-cases (i == k)) [
  | inl here ↦ rw here (erase-HaveNull k ps all.1)
  | inr away ↦ rw away (all.0, erase-HaveNull k ps all.1)
]
