-- ===== src/Client/LogLines.antt =====
-- What the game's logger logs, and which messages a handler receives.
use net64_coop.Prelude.{
  append_assoc, ℕ, zero, suc, ◌≤◌, ◌<◌, ◌≡◌, ◌↔◌, refl, sym, true, false, none, List, [], ◌∷◌, ◌++◌,
  arith, ◌==◌, if◌then◌else◌, length, get_elem?, set, Option-cases, inl, inr, Bool-cases, map,
  get_elem?-set_self, get_elem?-set_ne,
}
use net64_coop.Emulator.Error.{ok, undefined}
use net64_coop.Net.{Text}
use net64_coop.MsgQueue.{Message}
use net64_coop.Client.{Client, logs}
use net64_coop.Client.GameLogger.{
  Subscriptions, log_append, log_end, message_count, subscribe, unsubscribe, is_subscribed, text_of,
  log_message, push_message, logger_subscriptions,
}
use net64_coop.Client.Ticking.{on_game_message, on_game_messages}

get_elem?-none : (s : Subscriptions) (i : ℕ) → get_elem? s i ≡ none → length s ≤ i
get_elem?-none [] i e = omega arith
get_elem?-none (b ∷ s) zero e = cc
get_elem?-none (b ∷ s) (suc i) e = omega (arith, get_elem?-none s i e)

get_elem?-behind : (s : Subscriptions) (i : ℕ) → length s ≤ i → get_elem? s i ≡ none
get_elem?-behind [] i h = refl
get_elem?-behind (b ∷ s) zero h = absurd (omega (arith, h))
get_elem?-behind (b ∷ s) (suc i) h = get_elem?-behind s i (omega (arith, h))

-- The logger's test of a message is undefined exactly on the message types from `COUNT` on, which the
-- game is free to write.
pub push_message-eq-undefined :
    (text_buf : Text) (msg : Message)
    → (push_message logger_subscriptions text_buf msg ≡ undefined) ↔ (message_count ≤ msg.msg_type)
unfolding push_message is_subscribed
push_message-eq-undefined text_buf msg = (
  λ e. elim (Option-cases (get_elem? logger_subscriptions msg.msg_type)) [
    | inl behind ↦ get_elem?-none logger_subscriptions msg.msg_type behind
    | inr (b, there) ↦ ground arith
  ],
  λ h. rw (get_elem?-behind logger_subscriptions msg.msg_type h) refl,
)

-- Subscribing to a message type that exists changes the answer for that type and for no other, and
-- so does unsubscribing.
pub subscribe-is_subscribed :
    (s : Subscriptions) (i : ℕ)
    → i < length s
    → (s1 : Subscriptions) × (s2 : Subscriptions) × (subscribe s i ≡ ok s1)
      × (unsubscribe s i ≡ ok s2)
      × ((j : ℕ) → is_subscribed s1 j ≡ (if i == j then ok true else is_subscribed s j))
      × ((j : ℕ) → is_subscribed s2 j ≡ (if i == j then ok false else is_subscribed s j))
unfolding subscribe unsubscribe is_subscribed
subscribe-is_subscribed s i h = elim (Option-cases (get_elem? s i)) [
  | inl behind ↦ absurd (omega (arith, get_elem?-none s i behind, h))
  | inr (old, there) ↦ (
    set s i true,
    set s i false,
    ground arith,
    ground arith,
    λ j. elim (Bool-cases (i == j)) [
      | inl same ↦ ground (arith, get_elem?-set_self s i true h)
      | inr other ↦ ground (arith, get_elem?-set_ne s i j true)
    ],
    λ j. elim (Bool-cases (i == j)) [
      | inl same ↦ ground (arith, get_elem?-set_self s i false h)
      | inr other ↦ ground (arith, get_elem?-set_ne s i j false)
    ],
  )
]

abbrev pub append_of : List ℕ → Message
append_of bytes = record { msg_type = log_append; msg_data = bytes }

abbrev pub end_of : List ℕ → Message
end_of bytes = record { msg_type = log_end; msg_data = bytes }

-- The parts of a line, each up to its first zero byte, one after the other.
abbrev pub join : List (List ℕ) → Text
join [] = []
join (p ∷ ps) = text_of p ++ join ps

-- LOG_APPEND messages followed by LOG_END log one line, the texts of all of them behind what was in
-- the buffer, and leave the buffer empty.
pub line_is_logged :
    (parts : List (List ℕ)) (last : List ℕ) (c : Client)
    → on_game_messages c (map append_of parts ++ (end_of last ∷ [])) ≡ (
      ok tt,
      record c {
        text_buf = [];
        effects = c.effects ++ (logs (c.text_buf ++ (join parts ++ text_of last)) ∷ []);
      },
    )
unfolding on_game_messages on_game_message push_message is_subscribed log_message
line_is_logged [] last c = refl
line_is_logged (p ∷ parts) last c =
    rw
      (
        append_assoc (text_of p) (join parts) (text_of last),
        sym (append_assoc c.text_buf (text_of p) (join parts ++ text_of last)),
      )
      (line_is_logged parts last (record c { text_buf = c.text_buf ++ text_of p }))
