-- ===== src/EventHandlers/Tests.antt =====
-- Three handlers, and the theorems at them.
use net64_coop.Prelude.{◌≡◌, refl, some, [], ◌∷◌, arith}
use net64_coop.EventHandlers.{Handlers, no_handlers, register_obj, unregister_obj, dispatch_event}
use net64_coop.EventHandlers.Order.{Reaches, nothing, constructed, destroyed, dispatch_event-order}

-- 1, 2 and 3 are constructed, in this order.
abbrev three : Handlers
three = register_obj (register_obj (register_obj no_handlers 1) 2) 3

three_reached : Reaches three (3 ∷ 2 ∷ 1 ∷ [])
three_reached =
    constructed _ (2 ∷ 1 ∷ []) 3
      (constructed _ (1 ∷ []) 2 (constructed no_handlers [] 1 nothing refl) refl) refl

dispatch_event-order_example : dispatch_event (unregister_obj three 2) 5 ≡ some (3 ∷ 1 ∷ [])
dispatch_event-order_example =
    dispatch_event-order (unregister_obj three 2) (3 ∷ 1 ∷ []) 5
      (destroyed three [] (1 ∷ []) 3 2 three_reached) (omega arith)
