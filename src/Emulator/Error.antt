-- ===== src/Emulator/Error.antt =====
-- src/net64/emulator/m64plus_error.hpp, and what a call may come to: a value, a thrown
-- `std::system_error`, or undefined behaviour (an access outside a buffer).

pub data Error : Type 0 where
  success not_init already_init incompatible input_assert input_invalid input_not_found : Error
  no_memory files internal invalid_state plugin_fail system_fail unsupported wrong_type : Error
  lib_load_failed invalid_addr sym_not_found : Error

pub data Result {ℓ} (A : Type ℓ) : Type ℓ where
  ok : A → Result A
  throws : Error → Result A
  undefined : Result A

infixl 5 ◌>>=◌ ◌>>◌
abbrev pub ◌>>=◌ {ℓ κ} : {A : Type ℓ} {B : Type κ} → Result A → (A → Result B) → Result B
ok a >>= f = f a
throws e >>= f = throws e
undefined >>= f = undefined

abbrev pub ◌>>◌ {ℓ} : {B : Type ℓ} → Result (Unit {0}) → Result B → Result B
m >> k = m >>= λ _. k
