-- ===== src/EventHandlers/Linked.antt =====
-- When the pointers of the handlers are the list of some objects, and what changes such a list.
use net64_coop.Prelude.{
  ℕ, zero, suc, ◌≤◌, ◌≡◌, ◌≢◌, refl, ◌∙◌, Option, none, some, List, [], ◌∷◌, arith, count, length,
}
use net64_coop.EventHandlers.{Handlers, put, register_obj, visit}

abbrev pub head : List ℕ → Option ℕ
head [] = none
head (x ∷ xs) = some x

-- The pointers of the objects of a list, whose first has the predecessor `p`.
abbrev pub Linked : Handlers → Option ℕ → List ℕ → Type 0
Linked h p [] = Unit {0}
Linked h p (x ∷ xs) = (h.prev_handler x ≡ p) × (h.next_handler x ≡ head xs) × Linked h (some x) xs

pub record IsList (h : Handlers) (xs : List ℕ) : Type 0 where
  pub starts : h.first_handler ≡ head xs
  pub linked : Linked h none xs
  pub distinct : (o : ℕ) → count o xs ≤ 1

-- Pointers of objects outside a list do not matter to it.
pub Linked-same :
    (h h' : Handlers) (p : Option ℕ) (xs : List ℕ)
    → ((o : ℕ)
        → count o xs ≢ 0
        → (h'.prev_handler o ≡ h.prev_handler o) × (h'.next_handler o ≡ h.next_handler o))
    → Linked h p xs
    → Linked h' p xs
Linked-same h h' p [] same l = l
Linked-same h h' p (x ∷ xs) same (a, b, l) =
    let here : count x (x ∷ xs) ≢ 0 = λ z. ground arith in
    (
      (same x here).0 ∙ a,
      (same x here).1 ∙ b,
      Linked-same h h' (some x) xs (λ o c. same o (λ z. ground arith)) l,
    )

pub visit-Linked :
    (h : Handlers) (fuel : ℕ) (p : Option ℕ) (xs : List ℕ)
    → Linked h p xs
    → length xs ≤ fuel
    → visit h fuel (head xs) ≡ some xs
unfolding visit
visit-Linked h fuel p [] l f = refl
visit-Linked h zero p (x ∷ xs) l f = ground arith
visit-Linked h (suc fuel) p (x ∷ xs) (a, b, l) f =
    rw (b, visit-Linked h fuel (some x) xs l (omega arith)) refl

registered : Handlers → ℕ → ℕ → Handlers
registered h obj x = record h {
  first_handler = some obj;
  prev_handler = put (put h.prev_handler obj none) x (some obj);
  next_handler = put h.next_handler obj (some x);
}

register_obj-cons :
    (h : Handlers) (obj x : ℕ) → h.first_handler ≡ some x → register_obj h obj ≡ registered h obj x
unfolding register_obj registered
register_obj-cons h obj x e = simp (register_obj, e) refl

register_obj-nil :
    (h : Handlers) (obj : ℕ) → h.first_handler ≡ none → IsList (register_obj h obj) (obj ∷ [])
unfolding register_obj
register_obj-nil h obj e =
    simp (register_obj, e)
      (record {
        starts = refl;
        linked = (ground arith, ground arith, tt);
        distinct = λ o. ground arith;
      })

distinct-cons :
    (obj o : ℕ) (xs : List ℕ) → count obj xs ≡ 0 → count o xs ≤ 1 → count o (obj ∷ xs) ≤ 1
distinct-cons obj o xs new d = ground arith

others-same :
    (h : Handlers) (obj x o : ℕ)
    → obj ≢ o
    → x ≢ o
    → ((registered h obj x).prev_handler o ≡ h.prev_handler o)
      × ((registered h obj x).next_handler o ≡ h.next_handler o)
unfolding registered
others-same h obj x o a b = (ground arith, ground arith)

pub not_in : (x o : ℕ) (xs : List ℕ) → count x xs ≡ 0 → count o xs ≢ 0 → x ≢ o
not_in x o xs a b e = ground arith

registered-IsList :
    (h : Handlers) (obj x : ℕ) (xs : List ℕ)
    → IsList h (x ∷ xs)
    → count obj (x ∷ xs) ≡ 0
    → IsList (registered h obj x) (obj ∷ x ∷ xs)
unfolding registered
registered-IsList h obj x xs v new =
    let (a, b, l) = v.linked in
    let new_here : count obj xs ≡ 0 = ground arith in
    let ne : obj ≢ x = λ e. ground arith in
    let once : count x xs ≡ 0 = ground (arith, v.distinct x) in
    record {
      starts = refl;
      linked = (
        ground arith,
        ground arith,
        (
          ground arith,
          ground arith,
          Linked-same h (registered h obj x) (some x) xs
              (λ o c. others-same h obj x o (not_in obj o xs new_here c) (not_in x o xs once c)) l,
        ),
      );
      distinct = λ o. distinct-cons obj o (x ∷ xs) new (v.distinct o);
    }

-- Registering an object that is not in the list puts it in front.
pub register_obj-IsList :
    (h : Handlers) (obj : ℕ) (xs : List ℕ)
    → IsList h xs
    → count obj xs ≡ 0
    → IsList (register_obj h obj) (obj ∷ xs)
register_obj-IsList h obj [] v new = register_obj-nil h obj v.starts
register_obj-IsList h obj (x ∷ xs) v new =
    rw (register_obj-cons h obj x v.starts) (registered-IsList h obj x xs v new)
