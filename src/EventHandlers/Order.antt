-- ===== src/EventHandlers/Order.antt =====
-- Which objects an event reaches, and in which order.
use net64_coop.Prelude.{
  count-append, ℕ, zero, suc, ◌≤◌, ◌≡◌, ◌≢◌, refl, ap, ◌∙◌, false, Option, none, some, List, [],
  ◌∷◌, ◌++◌, arith, ◌==◌, count, length,
}
use net64_coop.EventHandlers.{
  Handlers, no_handlers, put, register_obj, unregister_obj, dispatch_event, visit, skip_next,
  skip_prev,
}
use net64_coop.EventHandlers.Linked.{
  head, Linked, IsList, Linked-same, visit-Linked, register_obj-IsList, not_in,
}

unlinked : Handlers → ℕ → List ℕ → Handlers
unlinked h y [] = record h { next_handler = put h.next_handler y none }
unlinked h y (b ∷ bs) = record h {
  next_handler = put h.next_handler y (some b);
  prev_handler = put h.prev_handler b (some y);
}

unregister_obj-eq :
    (h : Handlers) (y x : ℕ) (bs : List ℕ)
    → h.prev_handler x ≡ some y
    → h.next_handler x ≡ head bs
    → y ≢ x
    → unregister_obj h x ≡ unlinked h y bs
unfolding unregister_obj unlinked skip_next skip_prev
unregister_obj-eq h y x [] p n ne =
    let miss : (x == y) ≡ false = ground arith in
    simp (unregister_obj, p, skip_next, n, miss, skip_prev) refl
unregister_obj-eq h y x (b ∷ bs) p n ne =
    let miss : (x == y) ≡ false = ground arith in
    simp (unregister_obj, p, skip_next, n, miss, skip_prev) refl

in_middle : (y : ℕ) (ls zs : List ℕ) → count y (ls ++ (y ∷ zs)) ≢ 0
in_middle y ls zs e = ground (arith, count-append y ls (y ∷ zs))

head-append : (zs xs ys : List ℕ) → head xs ≡ head ys → head (zs ++ xs) ≡ head (zs ++ ys)
head-append [] xs ys e = e
head-append (a ∷ zs) xs ys e = refl

unlinked-same :
    (h : Handlers) (y o : ℕ) (bs : List ℕ)
    → y ≢ o
    → count o bs ≡ 0
    → ((unlinked h y bs).prev_handler o ≡ h.prev_handler o)
      × ((unlinked h y bs).next_handler o ≡ h.next_handler o)
unfolding unlinked
unlinked-same h y o [] ne new = (refl, ground arith)
unlinked-same h y o (b ∷ bs) ne new = (ground arith, ground arith)

unlinked-behind :
    (h : Handlers) (p : Option ℕ) (y : ℕ) (q : Option ℕ) (bs : List ℕ)
    → h.prev_handler y ≡ p
    → Linked h q bs
    → ((o : ℕ) → count o (y ∷ bs) ≤ 1)
    → Linked (unlinked h y bs) p (y ∷ bs)
unfolding unlinked
unlinked-behind h p y q [] a l d = (a, ground arith, tt)
unlinked-behind h p y q (b ∷ bs) a (c, n, l) d =
    let ne : y ≢ b = λ e. ground (arith, d b) in
    let y_new : count y bs ≡ 0 = ground (arith, d y) in
    let b_new : count b bs ≡ 0 = ground (arith, d b) in
    (
      ground arith,
      ground arith,
      (
        ground arith,
        ground arith,
        Linked-same h (unlinked h y (b ∷ bs)) (some b) bs
            (λ o here.
              (ground (arith, not_in b o bs b_new here), ground (arith, not_in y o bs y_new here)))
            l,
      ),
    )

count_tail : (z y x : ℕ) (bs : List ℕ) → count z bs ≤ count z (y ∷ x ∷ bs)
count_tail z y x bs = ground arith

unlinked-Linked :
    (h : Handlers) (p : Option ℕ) (y x : ℕ) (zs bs : List ℕ)
    → Linked h p (zs ++ (y ∷ x ∷ bs))
    → ((o : ℕ) → count o (zs ++ (y ∷ x ∷ bs)) ≤ 1)
    → Linked (unlinked h y bs) p (zs ++ (y ∷ bs))
unlinked-Linked h p y x [] bs (a, n, (a1, n1, l)) d =
    unlinked-behind h p y (some x) bs a l (λ o. ground (arith, d o))
unlinked-Linked h p y x (z ∷ zs) bs (a, n, l) d =
    let new : count z (zs ++ (y ∷ x ∷ bs)) ≡ 0 = ground (arith, d z) in
    let apart : y ≢ z = λ e. ground (arith, in_middle y zs (x ∷ bs)) in
    let absent : count z bs ≡ 0 =
      omega (arith, new, count-append z zs (y ∷ x ∷ bs), count_tail z y x bs) in
    let (sp, sn) = unlinked-same h y z bs apart absent in
    (
      sp ∙ a,
      sn ∙ n ∙ head-append zs (y ∷ x ∷ bs) (y ∷ bs) refl,
      unlinked-Linked h (some z) y x zs bs l (λ o. ground (arith, d o)),
    )

links_at :
    (h : Handlers) (p : Option ℕ) (y x : ℕ) (zs bs : List ℕ)
    → Linked h p (zs ++ (y ∷ x ∷ bs))
    → (h.prev_handler x ≡ some y) × (h.next_handler x ≡ head bs)
links_at h p y x [] bs (a, n, (a1, n1, l)) = (a1, n1)
links_at h p y x (z ∷ zs) bs (a, n, l) = links_at h (some z) y x zs bs l

first-unlinked :
    (h : Handlers) (y : ℕ) (bs : List ℕ) → (unlinked h y bs).first_handler ≡ h.first_handler
unfolding unlinked
first-unlinked h y [] = refl
first-unlinked h y (b ∷ bs) = refl

-- Unregistering an object that is not the first takes it out and leaves the others in their order.
unregister_obj-IsList :
    (h : Handlers) (y x : ℕ) (zs bs : List ℕ)
    → IsList h (zs ++ (y ∷ x ∷ bs))
    → IsList (unregister_obj h x) (zs ++ (y ∷ bs))
unregister_obj-IsList h y x zs bs v =
    let (before, after) = links_at h none y x zs bs v.linked in
    let apart : y ≢ x = λ e. ground (arith, v.distinct y, count-append y zs (y ∷ x ∷ bs)) in
    rw (unregister_obj-eq h y x bs before after apart) (record {
      starts = first-unlinked h y bs ∙ v.starts ∙ head-append zs (y ∷ x ∷ bs) (y ∷ bs) refl;
      linked = unlinked-Linked h none y x zs bs v.linked v.distinct;
      distinct = λ o.
          ground (arith, v.distinct o, count-append o zs (y ∷ x ∷ bs), count-append o zs (y ∷ bs));
    })

-- The handlers that a program can come to, with the objects that are alive, the newest first, as long
-- as it never destroys the newest.
pub data Reaches : Handlers → List ℕ → Type 0 where
  nothing : Reaches no_handlers []
  constructed :
      (h : Handlers) (xs : List ℕ) (obj : ℕ)
      → Reaches h xs
      → count obj xs ≡ 0
      → Reaches (register_obj h obj) (obj ∷ xs)
  destroyed :
      (h : Handlers) (zs bs : List ℕ) (y x : ℕ)
      → Reaches h (zs ++ (y ∷ x ∷ bs))
      → Reaches (unregister_obj h x) (zs ++ (y ∷ bs))

reached-IsList : {h : Handlers} {xs : List ℕ} → Reaches h xs → IsList h xs
reached-IsList nothing = record { starts = refl; linked = tt; distinct = λ o. omega arith }
reached-IsList (constructed h xs obj r new) = register_obj-IsList h obj xs (reached-IsList r) new
reached-IsList (destroyed h zs bs y x r) = unregister_obj-IsList h y x zs bs (reached-IsList r)

-- As long as the newest object is never the one that is destroyed, an event reaches every object that
-- is alive, each once, the newest first, and the loop over them ends.
pub dispatch_event-order :
    (h : Handlers) (xs : List ℕ) (fuel : ℕ)
    → Reaches h xs
    → length xs ≤ fuel
    → dispatch_event h fuel ≡ some xs
unfolding dispatch_event
dispatch_event-order h xs fuel r f =
    let v = reached-IsList r in rw v.starts (visit-Linked h fuel none xs v.linked f)

first-unregister_obj :
    (h : Handlers) (obj : ℕ) → (unregister_obj h obj).first_handler ≡ h.first_handler
unfolding unregister_obj skip_next skip_prev
first-unregister_obj h obj = ground arith

next-skip_prev :
    (h : Handlers) (obj : ℕ) (o : Option ℕ) → (skip_prev h obj o).next_handler ≡ h.next_handler
unfolding skip_prev
next-skip_prev h obj none = refl
next-skip_prev h obj (some n) = refl

next-unregister_obj :
    (h : Handlers) (obj : ℕ)
    → h.prev_handler obj ≡ none
    → (unregister_obj h obj).next_handler ≡ h.next_handler
unfolding unregister_obj skip_next
next-unregister_obj h obj e =
    simp (unregister_obj, e, skip_next) (next-skip_prev h obj (h.next_handler obj))

abbrev behind : ℕ → Option (List ℕ) → Option (List ℕ)
behind o visited = elim visited [ none ↦ none | some rest ↦ some (o ∷ rest) ]

visit-same :
    (h h' : Handlers) (fuel : ℕ) (o : Option ℕ)
    → h'.next_handler ≡ h.next_handler
    → visit h' fuel o ≡ visit h fuel o
unfolding visit
visit-same h h' fuel none e = refl
visit-same h h' zero (some o) e = refl
visit-same h h' (suc fuel) (some o) e = ap (behind o) (
    visit-same h h' fuel (h'.next_handler o) e
    ∙ ap (λ (next : ℕ → Option ℕ). visit h fuel (next o)) e)

-- Destroying the newest object changes nothing for events: `first_handler_s` stays at it, so that the
-- next event is handed to the destroyed object first, even if its memory is as it was.
pub newest_is_still_dispatched :
    (h : Handlers) (x : ℕ) (xs : List ℕ) (fuel : ℕ)
    → Reaches h (x ∷ xs)
    → suc (length xs) ≤ fuel
    → dispatch_event (unregister_obj h x) fuel ≡ some (x ∷ xs)
unfolding dispatch_event
newest_is_still_dispatched h x xs fuel r f =
    let v = reached-IsList r in
    let (a, n, l) = v.linked in
    ap (visit (unregister_obj h x) fuel) (first-unregister_obj h x ∙ v.starts)
    ∙ visit-same h (unregister_obj h x) fuel (some x) (next-unregister_obj h x a)
    ∙ visit-Linked h fuel none (x ∷ xs) v.linked f
