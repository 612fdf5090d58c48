-- ===== src/Emulator/CoreConfig/Refines.antt =====
-- The wrappers as the configuration over which the settings of a controller are modelled, and that it
-- keeps the promises of that interface.
use net64_coop.Prelude.{
  sym, ℕ, zero, suc, ◌-◌, ◌<◌, ◌≡◌, refl, ap, ◌∙◌, Bool, true, false, Option, none, some, ◌++◌,
  arith, length, drop, ℤ,
}
use net64_coop.Net.{Text}
use net64_coop.Text.{nuls, padded, same_text}
use net64_coop.Emulator.Error.{Error, success, Result, ok, throws, undefined, ◌>>=◌}
use net64_coop.Emulator.Controllers.{Config}
use net64_coop.Emulator.Controllers.RoundTrip.{Works}
use net64_coop.Emulator.CoreConfig.{
  Api, checked, checked_change, is_nonzero, int_of_bool, string_buf_len, open_section, save_section,
}
use net64_coop.Emulator.CoreConfig.Section.{
  set_int, set_bool, set_string, get_int, get_bool, get_string,
}

abbrev pub is_ok : {A : Type 0} → Result A → Bool
is_ok (ok a) = true
is_ok (throws e) = false
is_ok undefined = false

abbrev pub value_of : {A : Type 0} → Result A → Option A
value_of (ok a) = some a
value_of (throws e) = none
value_of undefined = none

abbrev pub state_of : {S : Type 0} → Result (Unit {0}) × S → Option S
state_of (ok u, s) = some s
state_of (throws e, s) = none
state_of (undefined, s) = none

-- A change in a section, which is opened for it.
abbrev pub changed_in : {S H : Type 0} → Result H → (H → Result (Unit {0}) × S) → Option S
changed_in (ok h) f = state_of (f h)
changed_in (throws e) f = none
changed_in undefined f = none

module _ {S H F : Type 0} (api : Api S H F) (name : Text) where
  unfoldable pub section_config : Config S
  section_config = record {
    open_section = λ s. is_ok (open_section api s name);
    get_int = λ s k. value_of (open_section api s name >>= λ h. get_int api s h k);
    get_bool = λ s k. value_of (open_section api s name >>= λ h. get_bool api s h k);
    get_string = λ s k. value_of (open_section api s name >>= λ h. get_string api s h k);
    set_int = λ s k i. changed_in (open_section api s name) (λ h. set_int api s h k i);
    set_bool = λ s k v. changed_in (open_section api s name) (λ h. set_bool api s h k v);
    set_string = λ s k t. changed_in (open_section api s name) (λ h. set_string api s h k t);
    save = λ s. is_ok (save_section api s name).0;
  }

  -- What the core documents of its functions: the section opens and can be saved; a parameter that was set
  -- is read with its value, where a text of less than the length of the buffer is copied to its front;
  -- a number does not disturb the texts and the other numbers.
  pub record IsHonest : Type 0 where
    pub handle : H
    pub opens : (s : S) → api.config_open_section s name ≡ (success, handle)
    pub saves : (s : S) → (api.config_save_section s name).0 ≡ success
    pub keeps_int :
        (s : S) (k : Text) (i : ℤ)
        → (s' : S) × (api.config_set_int s handle k i ≡ (success, s'))
          × (api.config_get_int s' handle k ≡ (success, i))
          × ((j buffer : Text)
              → api.config_get_string s' handle j buffer ≡ api.config_get_string s handle j buffer)
          × ((j : Text)
              → same_text j k ≡ false
              → api.config_get_int s' handle j ≡ api.config_get_int s handle j)
    pub keeps_bool :
        (s : S) (k : Text) (i : ℤ)
        → (s' : S) × (api.config_set_bool s handle k i ≡ (success, s'))
          × (api.config_get_bool s' handle k ≡ (success, i))
    pub keeps_string :
        (s : S) (k t buffer : Text)
        → length t < length buffer
        → (s' : S) × (api.config_set_string s handle k t ≡ (success, s'))
          × (api.config_get_string s' handle k buffer ≡ (success, t ++ drop (length t) buffer))

drop-nuls : (n m : ℕ) → drop n (nuls m) ≡ nuls (m - n)
drop-nuls zero m = let e : m ≡ m - 0 = omega arith in ap nuls e
drop-nuls (suc n) zero = let e : 0 ≡ 0 - suc n = omega arith in ap nuls e
drop-nuls (suc n) (suc m) = let e : m - n ≡ suc m - suc n = omega arith in drop-nuls n m ∙ ap nuls e

nonzero_of_bool : (v : Bool) → is_nonzero (int_of_bool v) ≡ v
nonzero_of_bool true = refl
nonzero_of_bool false = refl

module _ {S H F : Type 0} (api : Api S H F) (name : Text) (honest : IsHonest api name) where
  opens_lem : (s : S) → open_section api s name ≡ ok honest.handle
  unfolding open_section checked
  opens_lem s = rw (honest.opens s, open_section) refl

  -- Over a core that does what it documents, the wrappers are a configuration in which the section
  -- opens and is saved, numbers, switches and texts of fewer than 128 characters are read back as they
  -- were set, texts filled up with NULs, and a number does not disturb the texts and the other numbers.
  pub section_config-Works : Works (section_config api name)
  unfolding section_config save_section set_int set_bool set_string get_int get_bool get_string
      checked checked_change padded
  section_config-Works = record {
    opens = λ s. rw (opens_lem s) refl;
    saves = λ s. rw (honest.saves s) refl;
    sets_int = λ s k i.
        let (s', put, got, kept, others) = honest.keeps_int s k i in
        (
          s',
          rw (opens_lem s) (rw (put, set_int) refl),
          rw (opens_lem s') (rw (got, get_int) refl),
          λ j.
              rw (opens_lem s')
                (rw (opens_lem s) (rw (kept j (nuls string_buf_len), get_string) refl)),
          λ j other. rw (opens_lem s') (rw (opens_lem s) (rw (others j other, get_int) refl)),
        );
    sets_bool = λ s k v.
        let (s', put, got) = honest.keeps_bool s k (int_of_bool v) in
        (
          s',
          rw (opens_lem s) (rw (put, set_bool) refl),
          rw (opens_lem s') (rw (got, get_bool) (rw (nonzero_of_bool v) refl)),
        );
    sets_string = λ s k t short.
        let (s', put, got) = honest.keeps_string s k t (nuls string_buf_len) (omega arith) in
        (
          s',
          rw (opens_lem s) (rw (put, set_string) refl),
          rw (opens_lem s') (rw (got, get_string) (rw (drop-nuls (length t) 128) refl)),
        );
  }

-- What a core keeps that may fail at any call: a section has one handle, and a parameter that was set is
-- read, if it can be read, with its value, where a text of less than the length of the buffer is copied to
-- its front.
pub record Remembers {S H F : Type 0} (api : Api S H F) (name : Text) : Type 0 where
  pub one_handle :
      (s s' : S) (h h' : H)
      → api.config_open_section s name ≡ (success, h)
      → api.config_open_section s' name ≡ (success, h')
      → h ≡ h'
  pub keeps_int :
      (s s' : S) (h : H) (k : Text) (i v : ℤ)
      → api.config_set_int s h k i ≡ (success, s')
      → api.config_get_int s' h k ≡ (success, v)
      → v ≡ i
  pub keeps_bool :
      (s s' : S) (h : H) (k : Text) (i v : ℤ)
      → api.config_set_bool s h k i ≡ (success, s')
      → api.config_get_bool s' h k ≡ (success, v)
      → v ≡ i
  pub keeps_string :
      (s s' : S) (h : H) (k t v buffer : Text)
      → length t < length buffer
      → api.config_set_string s h k t ≡ (success, s')
      → api.config_get_string s' h k buffer ≡ (success, v)
      → v ≡ t ++ drop (length t) buffer

-- The configuration of a section says that a call was done only if the core has done it, and returns the
-- values that were set.
pub record Trusted {S H F : Type 0} (api : Api S H F) (name : Text) (config : Config S)
    : Type 0 where
  pub opened : (s : S) → config.open_section s ≡ true → (api.config_open_section s name).0 ≡ success
  pub saved : (s : S) → config.save s ≡ true → (api.config_save_section s name).0 ≡ success
  pub int_back :
      (s s' : S) (k : Text) (i v : ℤ)
      → config.set_int s k i ≡ some s'
      → config.get_int s' k ≡ some v
      → v ≡ i
  pub bool_back :
      (s s' : S) (k : Text) (i v : Bool)
      → config.set_bool s k i ≡ some s'
      → config.get_bool s' k ≡ some v
      → v ≡ i
  pub string_back :
      (s s' : S) (k t v : Text)
      → length t < 128
      → config.set_string s k t ≡ some s'
      → config.get_string s' k ≡ some v
      → v ≡ padded t

checked-ok :
    {A : Type 0} (e : Error) (a b : A) → value_of (checked e a) ≡ some b → (e ≡ success) × (a ≡ b)
unfolding checked
checked-ok success a b h = (refl, cc)
checked-ok e a b h = cc

checked-is_ok : {A : Type 0} (e : Error) (a : A) → is_ok (checked e a) ≡ true → e ≡ success
unfolding checked
checked-is_ok success a h = refl
checked-is_ok e a h = cc

change-ok :
    {S : Type 0} (r : Error × S) (s : S) → state_of (checked_change r) ≡ some s → r ≡ (success, s)
unfolding checked checked_change
change-ok (success, s') s h = let same : s' ≡ s = cc in ap (λ x. (success, x)) same
change-ok (e, s') s h = cc

changed_in-some :
    {S H : Type 0} (r : Result H) (f : H → Result (Unit {0}) × S) (s : S)
    → changed_in r f ≡ some s
    → (h : H) × (r ≡ ok h) × (state_of (f h) ≡ some s)
changed_in-some (ok h) f s e = (h, refl, e)
changed_in-some (throws x) f s e = cc
changed_in-some undefined f s e = cc

read_in-some :
    {H A : Type 0} (r : Result H) (f : H → Result A) (a : A)
    → value_of (r >>= f) ≡ some a
    → (h : H) × (r ≡ ok h) × (value_of (f h) ≡ some a)
read_in-some (ok h) f a e = (h, refl, e)
read_in-some (throws x) f a e = cc
read_in-some undefined f a e = cc

module _ {S H F : Type 0} (api : Api S H F) (name : Text) where
  opened_lem :
      (s : S) (h : H)
      → open_section api s name ≡ ok h
      → api.config_open_section s name ≡ (success, h)
  unfolding open_section
  opened_lem s h e =
      let (code, handle) =
        checked-ok (api.config_open_section s name).0 (api.config_open_section s name).1 h
          (ap value_of e) in
      (λ i. (code i, handle i))

  set_in :
      (s s' : S) (call : H → Error × S)
      → changed_in (open_section api s name) (λ h. checked_change (call h)) ≡ some s'
      → (h : H) × (api.config_open_section s name ≡ (success, h)) × (call h ≡ (success, s'))
  set_in s s' call e =
      let (h, at, done) =
        changed_in-some (open_section api s name) (λ h. checked_change (call h)) s' e in
      (h, opened_lem s h at, change-ok (call h) s' done)

  get_in :
      {A B : Type 0} (s : S) (call : H → Error × A) (f : A → B) (v : B)
      → value_of (open_section api s name >>= λ h. checked (call h).0 (f (call h).1)) ≡ some v
      → (h : H) × (a : A) × (api.config_open_section s name ≡ (success, h))
        × (call h ≡ (success, a))
        × (f a ≡ v)
  get_in s call f v e =
      let (h, at, value) =
        read_in-some (open_section api s name) (λ h. checked (call h).0 (f (call h).1)) v e in
      let (code, same) = checked-ok (call h).0 (f (call h).1) v value in
      (h, (call h).1, opened_lem s h at, (λ i. (code i, (call h).1)), same)

  -- Over a core that may fail at any call, and keeps what it has set, the wrappers report no failure as a
  -- success: the section opens and is saved only if the core says so, and if a number, a switch or a text
  -- of fewer than 128 characters is set and then read, the value is that which was set, texts filled up
  -- with NULs.
  pub section_config-Trusted : Remembers api name → Trusted api name (section_config api name)
  unfolding section_config save_section open_section set_int set_bool set_string get_int get_bool
      get_string checked_change padded
  section_config-Trusted core = record {
    opened = λ s e. checked-is_ok (api.config_open_section s name).0 _ e;
    saved = λ s e. checked-is_ok (api.config_save_section s name).0 _ e;
    int_back = λ s s' k i v put got.
        let (h, at, done) = set_in s s' (λ h. api.config_set_int s h k i) put in
        let (h', a, at', read, same) = get_in s' (λ h. api.config_get_int s' h k) (λ a. a) v got in
        let one : h' ≡ h = core.one_handle s' s h' h at' at in
        sym same ∙ core.keeps_int s s' h k i a done (rw one at read);
    bool_back = λ s s' k i v put got.
        let (h, at, done) = set_in s s' (λ h. api.config_set_bool s h k (int_of_bool i)) put in
        let (h', a, at', read, same) =
          get_in s' (λ h. api.config_get_bool s' h k) is_nonzero v got in
        let one : h' ≡ h = core.one_handle s' s h' h at' at in
        sym same
        ∙ ap is_nonzero (core.keeps_bool s s' h k (int_of_bool i) a done (rw one at read))
        ∙ nonzero_of_bool i;
    string_back = λ s s' k t v short put got.
        let (h, at, done) = set_in s s' (λ h. api.config_set_string s h k t) put in
        let (h', a, at', read, same) =
          get_in s' (λ h. api.config_get_string s' h k (nuls string_buf_len)) (λ a. a) v got in
        let one : h' ≡ h = core.one_handle s' s h' h at' at in
        sym same
        ∙ core.keeps_string s s' h k t a (nuls string_buf_len) (omega arith) done (rw one at read)
        ∙ ap (λ l. t ++ l) (drop-nuls (length t) 128);
  }
