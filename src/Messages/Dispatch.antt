-- ===== src/Messages/Dispatch.antt =====
-- Which messages the dispatchers of src/common/double_dispatch.hpp hand on.
use net64_coop.Prelude.{ℕ, ◌≡◌, refl, true, false, List, [], ◌∷◌, arith, if◌then◌else◌}
use net64_coop.Net.{NetMessage}
use net64_coop.Messages.{id_of, double_dispatch, is_among}

-- For any handler, any list of types and any state, `double_dispatch` calls the handler once if a type of
-- the list has the number of the message, however often, and then reports that it did; else it does not
-- call it and reports that.
pub double_dispatch_lem :
    {A : Type 0} (on_dispatch : NetMessage → A → A) (ts : List ℕ) (msg : NetMessage) (a : A)
    → double_dispatch on_dispatch ts msg a
      ≡ (if is_among (id_of msg) ts then (true, on_dispatch msg a) else (false, a))
unfolding double_dispatch
double_dispatch_lem on_dispatch [] msg a = refl
double_dispatch_lem on_dispatch (t ∷ ts) msg a =
    ground (arith, double_dispatch_lem on_dispatch ts msg a)
