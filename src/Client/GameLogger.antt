-- ===== src/Client/GameLogger.antt =====
-- src/net64/client/message_handler.hpp and .cpp, and game_logger.cpp: which game messages a handler
-- receives, and the logger. An index behind the end of the bitset is undefined.
use net64_coop.Prelude.{
  ℕ, suc, Bool, true, false, Option, none, some, List, [], ◌∷◌, ◌++◌, ◌==◌, if◌then◌else◌,
  get_elem?, set, take, replicate,
}
use net64_coop.Emulator.Error.{Result, ok, undefined, ◌>>=◌}
use net64_coop.Net.{Text}
use net64_coop.MsgQueue.{Message}

abbrev pub log_append : ℕ
log_append = 1

abbrev pub log_end : ℕ
log_end = 2

-- `Game::Message::COUNT`
abbrev pub message_count : ℕ
message_count = 3

abbrev pub Subscriptions : Type 0
Subscriptions = List Bool

no_messages : Subscriptions
no_messages = replicate message_count false

-- `subscribed_messages_[message] = v`
assign : Subscriptions → ℕ → Bool → Result Subscriptions
assign s message v = elim (get_elem? s message) [
  | none ↦ undefined
  | some old ↦ ok (set s message v)
]

unfoldable pub subscribe : Subscriptions → ℕ → Result Subscriptions
unfolding assign
subscribe s message = assign s message true

unfoldable pub unsubscribe : Subscriptions → ℕ → Result Subscriptions
unfolding assign
unsubscribe s message = assign s message false

unfoldable pub is_subscribed : Subscriptions → ℕ → Result Bool
is_subscribed s message = elim (get_elem? s message) [ none ↦ undefined | some b ↦ ok b ]

subscribe_all : Subscriptions → List ℕ → Result Subscriptions
unfolding subscribe
subscribe_all s [] = ok s
subscribe_all s (message ∷ messages) = subscribe s message >>= λ s'. subscribe_all s' messages

-- the constructor and `set_subsribed_messages`
unfoldable pub set_subscribed_messages : List ℕ → Result Subscriptions
unfolding subscribe_all no_messages
set_subscribed_messages messages = subscribe_all no_messages messages

-- `strnlen` on the bytes of a message, and the string that is made of them
unfoldable pub strnlen : List ℕ → ℕ
strnlen [] = 0
strnlen (b ∷ bs) = let rest = strnlen bs in if b == 0 then 0 else suc rest

unfoldable pub text_of : List ℕ → Text
unfolding strnlen
text_of bytes = take (strnlen bytes) bytes

-- `Logger::handle_message`: the buffer, and the line that is logged
unfoldable pub log_message : Text → Message → Text × Option Text
unfolding text_of
log_message text_buf msg =
    if msg.msg_type == log_append
    then (text_buf ++ text_of msg.msg_data, none)
    else if msg.msg_type == log_end
    then ([], some (text_buf ++ text_of msg.msg_data))
    else (text_buf, none)

-- `MessageHandler::push_message` of the logger
unfoldable pub push_message : Subscriptions → Text → Message → Result (Text × Option Text)
unfolding is_subscribed log_message
push_message s text_buf msg = is_subscribed s msg.msg_type >>= λ wanted.
    ok (if wanted then log_message text_buf msg else (text_buf, none))

-- the logger's subscriptions
abbrev pub logger_subscriptions : Subscriptions
logger_subscriptions = false ∷ true ∷ true ∷ []
