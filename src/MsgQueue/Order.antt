-- ===== src/MsgQueue/Order.antt =====
-- Messages come out in the order in which they went in.
use net64_coop.Prelude.{
  ℕ, ◌<◌, ◌≡◌, ◌≢◌, refl, sym, ◌∙◌, some, arith, List, [], ◌∷◌, ◌++◌, length, get_elem?, set,
  get_elem?-set_ne, get_elem?-set_self,
}
use net64_coop.MsgQueue.{Message, inc_loop, slot_free, slot_in_use}

-- The index behind a run of messages that starts at `i`.
abbrev pub walk : ℕ → ℕ → List Message → ℕ
walk size i [] = i
walk size i (m ∷ ms) = walk size (inc_loop i size) ms

-- No message of the run from `j` on stands in slot `i`.
abbrev pub Apart : ℕ → ℕ → ℕ → List Message → Type 0
Apart size i j [] = Unit {0}
Apart size i j (m ∷ ms) = (i ≢ j) × Apart size i (inc_loop j size) ms

-- The slots from `i` on hold the messages, each in a slot of its own.
abbrev pub Holds : ℕ → List ℕ → List Message → ℕ → List Message → Type 0
Holds size ds slots i [] = Unit {0}
Holds size ds slots i (m ∷ ms) =
    (get_elem? ds i ≡ some slot_in_use)
    × (get_elem? slots i ≡ some m)
    × Apart size i (inc_loop i size) ms
    × Holds size ds slots (inc_loop i size) ms

Apart-snoc :
    (size i j : ℕ) (m : Message) (ms : List Message)
    → Apart size i j ms
    → i ≢ walk size j ms
    → Apart size i j (ms ++ m ∷ [])
Apart-snoc size i j m [] a h = (h, tt)
Apart-snoc size i j m (x ∷ xs) a h = (a.0, Apart-snoc size i (inc_loop j size) m xs a.1 h)

-- A message that is written into a free slot behind the run extends the run.
pub Holds-snoc :
    (size : ℕ) (ds : List ℕ) (slots : List Message) (i e : ℕ) (m : Message) (ms : List Message)
    → Holds size ds slots i ms
    → e ≡ walk size i ms
    → get_elem? ds e ≡ some slot_free
    → e < length ds
    → e < length slots
    → Holds size (set ds e slot_in_use) (set slots e m) i (ms ++ m ∷ [])
Holds-snoc size ds slots i e m [] h w f l k =
    rw (← w) (get_elem?-set_self ds e slot_in_use l, get_elem?-set_self slots e m k, tt, tt)
Holds-snoc size ds slots i e m (x ∷ xs) h w f l k =
    let apart : e ≢ i = (λ p. ground (arith, h.0)) in
    (
      get_elem?-set_ne ds e i slot_in_use apart ∙ h.0,
      get_elem?-set_ne slots e i m apart ∙ h.1,
      Apart-snoc size i (inc_loop i size) m xs h.2 (λ p. apart (w ∙ sym p)),
      Holds-snoc size ds slots (inc_loop i size) e m xs h.3 w f l k,
    )

-- Freeing a slot that no message of the run stands in.
pub Holds-free :
    (size : ℕ) (ds : List ℕ) (slots : List Message) (i e : ℕ) (ms : List Message)
    → Holds size ds slots i ms
    → Apart size e i ms
    → Holds size (set ds e slot_free) slots i ms
Holds-free size ds slots i e [] h a = tt
Holds-free size ds slots i e (x ∷ xs) h a = (
  get_elem?-set_ne ds e i slot_free a.0 ∙ h.0,
  h.1,
  h.2,
  Holds-free size ds slots (inc_loop i size) e xs h.3 a.1,
)

pub walk-snoc :
    (size i : ℕ) (m : Message) (ms : List Message)
    → walk size i (ms ++ m ∷ []) ≡ inc_loop (walk size i ms) size
walk-snoc size i m [] = refl
walk-snoc size i m (x ∷ xs) = walk-snoc size (inc_loop i size) m xs

-- Writing a message into a free slot, which no message of the run stands in.
pub Holds-write :
    (size : ℕ) (ds : List ℕ) (slots : List Message) (i e : ℕ) (m : Message) (ms : List Message)
    → Holds size ds slots i ms
    → get_elem? ds e ≡ some slot_free
    → Holds size ds (set slots e m) i ms
Holds-write size ds slots i e m [] h f = tt
Holds-write size ds slots i e m (x ∷ xs) h f =
    let apart : e ≢ i = (λ p. ground (arith, h.0)) in
    (
      h.0,
      get_elem?-set_ne slots e i m apart ∙ h.1,
      h.2,
      Holds-write size ds slots (inc_loop i size) e m xs h.3 f,
    )
