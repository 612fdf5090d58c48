-- ===== src/Client/Tests.antt =====
-- Small clients, and the theorems at them.
use net64_coop.Prelude.{
  ℕ, ◌≤◌, ◌≡◌, refl, true, false, Option, none, some, List, [], ◌∷◌, arith, ◌==◌, if◌then◌else◌,
}
use net64_coop.Emulator.Error.{Result, ok, undefined}
use net64_coop.Emulator.Memory.{Machine}
use net64_coop.MemHandle.{read}
use net64_coop.MsgQueue.{Message, SharedState, RawAccess}
use net64_coop.Net.{NetMessage}
use net64_coop.Client.{Client, peer_connecting, peer_disconnecting, Answers, hook, make_client}
use net64_coop.Client.GameLogger.{push_message, logger_subscriptions}
use net64_coop.Client.Ticking.{
  Game, try_hook, lost, check_timeouts, on_game_messages, World, poll_game, tick,
}
use net64_coop.Client.Invariant.{IsSound}
use net64_coop.Client.{incompatible_game, RemotePlayer}
use net64_coop.Client.Hook.{try_hook_reports, Reported, finished, poll_game_drains}
use net64_coop.Client.Sessions.{
  made, hooking, ticked, Reaches-IsSound, no_late_peer, ConnectsInTime, DisconnectsInTime,
}
use net64_coop.Client.LogLines.{push_message-eq-undefined}
use net64_coop.Client.GameLogger.{message_count}
use net64_coop.MsgQueue.{poll}
use net64_coop.MsgQueue.Valid.{IsValid}
use net64_coop.MsgQueue.Drain.{in_use, last_answer}
use net64_coop.Prelude.{length, ◌+◌, ◌↔◌}
use net64_coop.Emulator.Memory.{Ram, read32, read8, locate}

-- The game's RAM, with the magic number and a pointer to the start of the RAM at its end.
abbrev ram : Ram
ram a =
    if a == 0x7FFFF8
    then 0x50
    else if a == 0x7FFFF9
    then 0x30
    else if a == 0x7FFFFA
    then 0x30
    else if a == 0x7FFFFB
    then 0x43
    else if a == 0x7FFFFF
    then 0x80
    else 0

abbrev machine : Machine
machine = record { ram = some ram }

abbrev blank_machine : Machine
blank_machine = record { ram = some (λ a. 0) }

abbrev game : Game
game = record {
  is_valid = λ o. elim o [ none ↦ false | some a ↦ true ];
  receive_queue = λ m a. ok 0x80000010;
  send_queue = λ m a. ok 0x80000040;
  compat_version = λ m a. ok 1;
  version = λ m a. ok 1;
}

abbrev hooker : Client
hooker = record make_client { mem_hdl = true; hooking = true }

abbrev direct : RawAccess
direct = record { read_raw = λ bytes. ok bytes; write_raw = λ bytes. ok bytes }

abbrev hi : Message
hi = record { msg_type = 2; msg_data = 72 ∷ 105 ∷ 0 ∷ [] }

abbrev waiting : SharedState
waiting = record {
  game_index = 0;
  client_index = 1;
  size = 2;
  descriptor_array = 0 ∷ 1 ∷ [];
  msg_array = hi ∷ hi ∷ [];
}

waiting-IsValid : IsValid waiting
waiting-IsValid = record {
  small = omega arith;
  in_range = omega arith;
  descriptors = refl;
  messages = refl;
}

abbrev hooked_client : Client
hooked_client = record make_client {
  mem_hdl = true;
  header = some 0x80000000;
  rcv_queue = true;
  snd_queue = true;
}

try_hook_reports_example :
    Reported 0x80000000 [] (ok (some incompatible_game)) (try_hook game machine hooker)
unfolding read read32 read8 locate
try_hook_reports_example = try_hook_reports game machine hooker 0x80000000 refl refl refl

poll_game_drains_example :
    (hooked_client.rcv_queue ≡ false
      → poll_game game direct hooked_client waiting ≡ ((undefined, hooked_client), waiting))
    × (hooked_client.rcv_queue ≡ true
        → (msgs : List Message) × (end : Result (Unit {0})) × (q' : SharedState) × (length msgs
              + in_use q'
            ≡ in_use waiting)
          × (poll direct q' ≡ (last_answer end, q'))
          × (poll_game game direct hooked_client waiting ≡ (
            (
              finished (on_game_messages hooked_client msgs).0 end,
              (on_game_messages hooked_client msgs).1,
            ),
            q',
          )))
poll_game_drains_example = poll_game_drains game direct hooked_client waiting refl waiting-IsValid

abbrev parse_none : List ℕ → Option NetMessage
parse_none bytes = none

abbrev world : World
world = record { machine = blank_machine; queue = waiting; events = lost ∷ []; now = 9 }

Reaches-IsSound_example :
    IsSound (tick game direct peer_disconnecting [] parse_none (hook make_client) world).0.1
Reaches-IsSound_example =
    Reaches-IsSound (ticked (hook make_client) world (hooking make_client made))

abbrev answers : Answers
answers = record { host_made = true; resolved = true; peer_made = true; new_peer = peer_connecting }

-- After `connect` as "A" with a timeout of 5 at time 1.
abbrev trying : Client
trying = record make_client {
  connect_callback = true;
  disconnect_callback = true;
  connect_timeout = 5;
  username = 65 ∷ [];
  host = true;
  peer = some peer_connecting;
  connection_start_time = 1;
}

no_late_peer_example :
    ConnectsInTime 9 (check_timeouts peer_disconnecting trying 9)
    × DisconnectsInTime 9 (check_timeouts peer_disconnecting trying 9)
no_late_peer_example = no_late_peer peer_disconnecting trying 9

-- A client with a chat callback that knows player 3.
abbrev bob : RemotePlayer
bob = record { id = 3; name = 66 ∷ [] }

abbrev chatter : Client
chatter = record make_client { chat_callback = true; remote_players = (3, bob) ∷ [] }

abbrev again : Client
again = record chatter {
  connect_callback = true;
  disconnect_callback = true;
  connect_timeout = 5;
  username = 65 ∷ [];
  host = true;
  peer = some peer_connecting;
  connection_start_time = 1;
}

push_message-eq-undefined_example :
    (push_message logger_subscriptions [] (record { msg_type = 7; msg_data = [] }) ≡ undefined)
    ↔ (message_count ≤ 7)
push_message-eq-undefined_example =
    push_message-eq-undefined [] (record { msg_type = 7; msg_data = [] })
