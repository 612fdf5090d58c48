-- ===== src/EventHandlers.antt =====
-- src/common/sdl_event_handler.hpp and .cpp: the linked list of the objects that receive SDL's events.
-- An object is a number, a pointer an optional one; the list is changed under a mutex, so an operation is
-- one step.
pub mod Linked
pub mod Order
mod Tests
use net64_coop.Prelude.{
  ℕ, zero, suc, Bool, true, false, Option, none, some, List, [], ◌∷◌, ◌==◌, if◌then◌else◌,
}

-- `prev_handler` and `next_handler` of every object, and `first_handler_s`
pub record Handlers : Type 0 where
  pub first_handler : Option ℕ
  pub prev_handler : ℕ → Option ℕ
  pub next_handler : ℕ → Option ℕ

abbrev pub no_handlers : Handlers
no_handlers = record { first_handler = none; prev_handler = λ o. none; next_handler = λ o. none }

abbrev pub put : (ℕ → Option ℕ) → ℕ → Option ℕ → ℕ → Option ℕ
put f o v q = if q == o then v else f q

-- the constructor: the pointers of the new object are null, then `register_obj`
unfoldable pub register_obj : Handlers → ℕ → Handlers
register_obj h obj = elim h.first_handler [
  | none ↦ record {
    first_handler = some obj;
    prev_handler = put h.prev_handler obj none;
    next_handler = put h.next_handler obj none;
  }
  | some f ↦ record {
    first_handler = some obj;
    prev_handler = put (put h.prev_handler obj none) f (some obj);
    next_handler = put h.next_handler obj (some f);
  }
]

skip_next : Handlers → ℕ → Option ℕ → Handlers
skip_next h obj none = h
skip_next h obj (some p) = record h { next_handler = put h.next_handler p (h.next_handler obj) }

skip_prev : Handlers → ℕ → Option ℕ → Handlers
skip_prev h obj none = h
skip_prev h obj (some n) = record h { prev_handler = put h.prev_handler n (h.prev_handler obj) }

-- the destructor
unfoldable pub unregister_obj : Handlers → ℕ → Handlers
unfolding skip_next skip_prev
unregister_obj h obj =
    let h1 = skip_next h obj (h.prev_handler obj) in skip_prev h1 obj (h1.next_handler obj)

pub visit : Handlers → ℕ → Option ℕ → Option (List ℕ)
visit h fuel none = some []
visit h zero (some o) = none
visit h (suc fuel) (some o) = elim (visit h fuel (h.next_handler o)) [
  | none ↦ none
  | some rest ↦ some (o ∷ rest)
]

-- `dispatch_event`: the objects that handle the event, in their order; `none`: the fuel ran out
unfoldable pub dispatch_event : Handlers → ℕ → Option (List ℕ)
unfolding visit
dispatch_event h fuel = visit h fuel h.first_handler
