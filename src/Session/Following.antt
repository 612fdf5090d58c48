-- ===== src/Session/Following.antt =====
-- The players that a client knows follow those of the server.
use net64_coop.Prelude.{
  refl, ap, false, ℕ, ◌<◌, ◌≡◌, sym, ◌∙◌, Bool, true, Option, none, some, List, [], ◌∷◌, arith,
  ◌==◌, if◌then◌else◌, Bool-cases, Option-cases, inl, inr,
}
use net64_coop.Net.{NetMessage, Text}
use net64_coop.Server.{Server, Event}
use net64_coop.Server.Invariant.{IsSound}
use net64_coop.Server.Steps.{AllFit, on_event-IsSound}
use net64_coop.Client.{Client, RemotePlayer}
use net64_coop.Client.RemotePlayers.{or_else}
use net64_coop.Server.{
  Effect, sends, broadcasts, disconnects, resets, connected, disconnected, received, on_event,
}
use mathlib.Core.Path.{subst}
use net64_coop.Session.{
  named, stays, hears, addressed, news, handle_all, Listener, meet, follow, KnowsNoOther, KnowsAll,
  HaveNull,
}
use net64_coop.Session.Changes.{Change, same, quiet, leaves, Joins, joins}
use net64_coop.Session.Messages.{on_event-Changes}
use net64_coop.Session.Handling.{
  found, found-same, found-quiet, found-leaves, found-joins_other, found-joins_self,
}

-- A map in which the player `x` is new under an id, looked up by one that is the same (`hit`) or not, before
-- and after on the server, `o` and `n`, and at the client, `q` and `f`.
module _ (hit : Bool) (x : RemotePlayer) {o n q f : Option RemotePlayer}
    (gone : hit ≡ true → o ≡ none) where
  newcomer_knows :
      ((p : RemotePlayer) → q ≡ some p → o ≡ some p)
      → f ≡ elim (or_else q n) [ none ↦ (if hit then some x else none) | some p ↦ some p ]
      → n ≡ (if hit then some x else o)
      → f ≡ n
  newcomer_knows known ef en = elim (Option-cases q) [
    | inl unknown ↦ elim (Bool-cases hit) [
      | inl new ↦ ground arith
      | inr old ↦ elim (Option-cases o) [
        | inl nobody ↦ ground arith
        | inr (r, there) ↦ ground arith
      ]
    ]
    | inr (r, there) ↦ let k = known r there in ground (arith, gone)
  ]

  module _ (ef : f ≡ elim q [ none ↦ (if hit then some x else none) | some p ↦ some p ])
      (en : n ≡ (if hit then some x else o)) where
    other_knows :
        ((p : RemotePlayer) → q ≡ some p → o ≡ some p)
        → (p : RemotePlayer) → f ≡ some p
        → n ≡ some p
    other_knows known p e = elim (Option-cases q) [
      | inl unknown ↦ ground arith
      | inr (r, there) ↦ let k = known r there in ground (arith, gone)
    ]

    other_knows_all : q ≡ o → f ≡ n
    other_knows_all known = elim (Option-cases q) [
      | inl unknown ↦ ground arith
      | inr (r, there) ↦ ground (arith, gone)
    ]

gone_before :
    (s : Server) (id j : ℕ)
    → named id s.players ≡ none
    → (id == j) ≡ true
    → named j s.players ≡ none
gone_before s id j new hit = let eq : id ≡ j = ground arith in rw eq at new

module _ (s s' : Server) (peer : ℕ) (c : Client) (all : HaveNull s'.players) where
  pub newcomer_finds :
      (id : ℕ) (name : Text)
      → Joins s s' peer id name
      → KnowsNoOther s c
      → (j : ℕ) → 0 < j
      → found s s' peer c j ≡ named j s'.players
  newcomer_finds id name came known j pos =
      newcomer_knows (id == j) (record { id = id; name = name }) (gone_before s id j came.new)
        (known j pos) (found-joins_self s s' peer c j id name came.messages pos all) (came.lists j)

  keeps_no_other :
      Change s s'
      → KnowsNoOther s c
      → (j : ℕ) → 0 < j
      → (p : RemotePlayer) → found s s' peer c j ≡ some p
      → named j s'.players ≡ some p
  keeps_no_other (same m n) known j pos p e =
      let f = found-same s s' peer c j m in let k = known j pos p in ground (arith, n j, f, k)
  keeps_no_other (quiet x q m n) known j pos p e =
      let f = found-quiet s s' peer c j x q m in let k = known j pos p in ground (arith, n j, f, k)
  keeps_no_other (leaves id code m n) known j pos p e =
      let f = found-leaves s s' peer c j id code m in
      let k = known j pos p in ground (arith, n j, f, k)
  keeps_no_other (joins at id name came) known j pos p e = elim (Bool-cases (at == peer)) [
    | inl self ↦
        let here : at ≡ peer = ground arith in
        sym (newcomer_finds id name (rw here at came) known j pos) ∙ e
    | inr other ↦
        other_knows (id == j) (record { id = id; name = name }) (gone_before s id j came.new)
          (found-joins_other s s' peer c j at id name came.messages other) (came.lists j)
          (known j pos) p e
  ]

  keeps_all :
      Change s s' → KnowsAll s c → (j : ℕ) → 0 < j → found s s' peer c j ≡ named j s'.players
  keeps_all (same m n) known j pos = found-same s s' peer c j m ∙ known j pos ∙ sym (n j)
  keeps_all (quiet x q m n) known j pos = found-quiet s s' peer c j x q m ∙ known j pos ∙ sym (n j)
  keeps_all (leaves id code m n) known j pos =
      let f = found-leaves s s' peer c j id code m in
      let k = known j pos in ground (arith, n j, f, k)
  keeps_all (joins at id name came) known j pos = elim (Bool-cases (at == peer)) [
    | inl self ↦
        let here : at ≡ peer = ground arith in
        newcomer_finds id name (rw here at came) (λ i lo p e. sym (known i lo) ∙ e) j pos
    | inr other ↦
        other_knows_all (id == j) (record { id = id; name = name }) (gone_before s id j came.new)
          (found-joins_other s s' peer c j at id name came.messages other) (came.lists j)
          (known j pos)
  ]

-- A connection that has ended does not come back.
stays-false : (peer : ℕ) (es : List Effect) → stays peer false es ≡ false
unfolding stays
stays-false peer [] = refl
stays-false peer (sends q msg ∷ es) = stays-false peer es
stays-false peer (broadcasts msg ∷ es) = stays-false peer es
stays-false peer (disconnects q code ∷ es) = stays-false peer es
stays-false peer (resets q ∷ es) = stays-false peer es

hears-false : (peer : ℕ) (event : Event) → hears peer false event ≡ false
unfolding hears
hears-false peer (connected q version connected_peers now) = refl
hears-false peer (disconnected q code) = refl
hears-false peer (received q packet) = refl

heard : (peer : ℕ) (online : Bool) (es : List Effect) → stays peer online es ≡ true → online ≡ true
heard peer true es e = refl
heard peer false es e = sym (stays-false peer es) ∙ e

pub was_there :
    (peer : ℕ) (online : Bool) (event : Event) → hears peer online event ≡ true → online ≡ true
was_there peer true event e = refl
was_there peer false event e = sym (hears-false peer event) ∙ e

module _ (parse : List ℕ → Option NetMessage) (peer : ℕ) where
  pub heard_event :
      (s : Server) (l : Listener) (event : Event)
      → (meet parse peer s l event).1.online ≡ true
      → hears peer l.online event ≡ true
  heard_event s l event e =
      heard peer (hears peer l.online event) (news s (on_event parse s event).0) e

  -- A client that hears the event handles all that it sends to the peer.
  pub meets :
      (s : Server) (l : Listener) (event : Event)
      → (meet parse peer s l event).1.online ≡ true
      → (meet parse peer s l event).1.client
        ≡ handle_all l.client (addressed peer true (news s (on_event parse s event).0))
  meets s l event e =
      ap (λ online. handle_all l.client (addressed peer online (news s (on_event parse s event).0)))
        (heard_event s l event e)

  pub follow-online :
      (events : List Event) (s : Server) (l : Listener)
      → (follow parse peer s l events).1.online ≡ true
      → l.online ≡ true
  unfolding follow
  follow-online [] s l e = e
  follow-online (event ∷ events) s l e =
      let (s', l') = meet parse peer s l event in
      was_there peer l.online event (heard_event s l event (follow-online events s' l' e))

  -- A client whose connection is still there after the events, which a sound server meets: if it knows no
  -- player by a wrong name and none that has left at first, then so it does in the end; and if it knows
  -- each player that has an id at first, then so it does in the end.
  pub follow-KnowsAll :
      (events : List Event) (s : Server) (l : Listener)
      → IsSound s
      → HaveNull s.players
      → AllFit parse s events
      → (follow parse peer s l events).1.online ≡ true
      → let (s', l') = follow parse peer s l events in
        (KnowsNoOther s l.client → KnowsNoOther s' l'.client)
        × (KnowsAll s l.client → KnowsAll s' l'.client)
  unfolding follow
  follow-KnowsAll [] s l v all fits on = (λ k. k, λ k. k)
  follow-KnowsAll (event ∷ events) s l v all fits on =
      let (change, all') = on_event-Changes v all parse event in
      let (s', l') = meet parse peer s l event in
      let handled = meets s l event (follow-online events s' l' on) in
      let (no_other, every) =
        follow-KnowsAll events s' l' (on_event-IsSound parse event v fits.0) all' fits.1 on in
      (
        λ k. no_other (
            subst (KnowsNoOther s') (sym handled)
              (keeps_no_other s s' peer l.client all' change k)),
        λ k. every (subst (KnowsAll s') (sym handled) (keeps_all s s' peer l.client all' change k)),
      )
