-- ===== src/Client/Ticking.antt =====
-- `Client::tick` and `Client::try_hook` of src/net64/client.cpp. The header that the game points to and
-- the queue in it are read through Mem64 pointers, which are outside the repository: `Game` has what
-- the client reads through them, each of which may throw, and `is_valid` is `Mem64::Ptr::valid`.
use net64_coop.Prelude.{
  ℕ, suc, ◌-◌, ◌*◌, Bool, true, false, not, ◌&&◌, Option, none, some, List, [], ◌∷◌, ltb, ◌==◌,
  if◌then◌else◌,
}
use net64_coop.Emulator.Error.{Result, ok, throws, undefined}
use net64_coop.Emulator.Memory.{Machine}
use net64_coop.MemHandle.{read, u32}
use net64_coop.MsgQueue.{Message, SharedState, RawAccess, drain}
use net64_coop.Net.{Text, NetMessage}
use net64_coop.Client.{
  Client, PeerState, hooked_called, connect_called, disconnect_called, incompatible_game, logs,
  resets_peer, emit, connecting, disconnecting, disconnect,
}
use net64_coop.Client.Handlers.{on_connect, on_disconnect, on_net_message}
use net64_coop.Client.GameLogger.{push_message, logger_subscriptions}

abbrev pub magic_number : ℕ
magic_number = 0x43303050

abbrev pub magic_number_addr : ℕ
magic_number_addr = 0x807FFFF8

abbrev pub header_ptr_addr : ℕ
header_ptr_addr = 0x807FFFFC

abbrev pub client_compat_ver : ℕ
client_compat_ver = 0

pub record Game : Type 0 where
  pub is_valid : Option ℕ → Bool
  pub receive_queue : Machine → ℕ → Result ℕ
  pub send_queue : Machine → ℕ → Result ℕ
  pub compat_version : Machine → ℕ → Result ℕ
  pub version : Machine → ℕ → Result ℕ

-- What the handling of events, and a tick, come to: `thrown` has what left `tick` early.
abbrev pub Outcome : Type 0
Outcome = Result (Unit {0}) × Client

-- The version is read for the log before the callback is called.
unfoldable pub log_version : Client → Result ℕ → Outcome
log_version c (ok version) = (ok tt, emit c (hooked_called none))
log_version c (throws e) = (throws e, c)
log_version c undefined = (undefined, c)

unfoldable pub check_version : Client → Result ℕ → Result ℕ → Outcome
unfolding log_version
check_version c (ok compat) version =
    if not (compat == client_compat_ver)
    then (ok tt, emit c (hooked_called (some incompatible_game)))
    else log_version c version
check_version c (throws e) version = (throws e, c)
check_version c undefined version = (undefined, c)

-- `Client::hooked`
abbrev pub hooked : Game → Client → Bool
hooked game c = game.is_valid c.header

module _ (game : Game) (m : Machine) where
  unfoldable pub make_sender : ℕ → Client → Result ℕ → Outcome
  unfolding check_version
  make_sender header c (ok queue) =
      check_version (record c { snd_queue = true }) (game.compat_version m header)
        (game.version m header)
  make_sender header c (throws e) = (throws e, c)
  make_sender header c undefined = (undefined, c)

  unfoldable pub make_receiver : ℕ → Client → Result ℕ → Outcome
  unfolding make_sender
  make_receiver header c (ok queue) =
      make_sender header (record c { rcv_queue = true }) (game.send_queue m header)
  make_receiver header c (throws e) = (throws e, c)
  make_receiver header c undefined = (undefined, c)

  -- The header is set before the queues are read through it.
  unfoldable pub read_header : Client → Result ℕ → Outcome
  unfolding make_receiver
  read_header c (ok header) =
      make_receiver header (record c { header = some header }) (game.receive_queue m header)
  read_header c (throws e) = (throws e, c)
  read_header c undefined = (undefined, c)

  unfoldable pub find_game : Client → Result ℕ → Outcome
  unfolding read_header
  find_game c (ok magic) =
      if not (magic == magic_number)
      then (ok tt, c)
      else read_header (record c { hooking = false }) (read u32 m header_ptr_addr)
  find_game c (throws e) = (throws e, c)
  find_game c undefined = (undefined, c)

  unfoldable pub try_hook : Client → Outcome
  unfolding find_game
  try_hook c = if c.mem_hdl then find_game c (read u32 m magic_number_addr) else (undefined, c)

pub data Event : Type 0 where
  -- with the state in which ENet leaves the peer
  established : PeerState → Event
  lost : Event
  received : List ℕ → Event

abbrev pub nanoseconds : ℕ → ℕ
nanoseconds seconds = seconds * 1000000000

unfoldable pub disconnect_times_out : Client → ℕ → Client
disconnect_times_out c now =
    if disconnecting c && ltb c.disconnect_timeout (now - c.disconnection_start_time)
    then emit (emit (record (on_disconnect c) { peer = none; host = false }) resets_peer)
        disconnect_called
    else c

module _ (asked : PeerState) where
  unfoldable pub connect_times_out : Client → ℕ → Client
  connect_times_out c now =
      if connecting c && ltb c.connect_timeout (now - c.connection_start_time)
      then disconnect asked c 0 now
      else c

  -- the two timeouts at the start of `tick`
  unfoldable pub check_timeouts : Client → ℕ → Client
  unfolding connect_times_out disconnect_times_out
  check_timeouts c now = disconnect_times_out (connect_times_out c now) now

unfoldable pub on_lost : Client → Client
on_lost c = record (on_disconnect (if c.disconnect_callback then emit c disconnect_called else c)) {
  peer = none;
  host = false;
}

unfoldable pub on_established : Text → Client → PeerState → Client
on_established git_desc c state =
    let c1 = record c { peer = elim c.peer [ none ↦ none | some old ↦ some state ] } in
    on_connect git_desc (if c.connect_callback then emit c1 (connect_called none) else c1)

module _ (git_desc : Text) (parse : List ℕ → Option NetMessage) where
  -- the loop over the events of the host; `true`: the connection was lost, and `tick` returns
  unfoldable pub serve : Client → List Event → Bool × Client
  unfolding on_established on_lost
  serve c [] = (false, c)
  serve c (established state ∷ events) = serve (on_established git_desc c state) events
  serve c (lost ∷ events) = (true, on_lost c)
  serve c (received packet ∷ events) = serve (on_net_message parse c packet) events

-- `Client::on_game_message`, whose only handler is the logger
unfoldable pub log_result : Client → Result (Text × Option Text) → Outcome
log_result c (ok (text_buf, none)) = (ok tt, record c { text_buf = text_buf })
log_result c (ok (text_buf, some line)) =
    (ok tt, emit (record c { text_buf = text_buf }) (logs line))
log_result c (throws e) = (throws e, c)
log_result c undefined = (undefined, c)

unfoldable pub on_game_message : Client → Message → Outcome
unfolding log_result
on_game_message c msg = log_result c (push_message logger_subscriptions c.text_buf msg)

unfoldable pub on_game_messages : Client → List Message → Outcome
unfolding on_game_message
on_game_messages c [] = (ok tt, c)
on_game_messages c (msg ∷ msgs) =
    let (done, c') = on_game_message c msg in
    elim done [
      | ok u ↦ on_game_messages c' msgs
      | throws e ↦ (throws e, c')
      | undefined ↦ (undefined, c')
    ]

-- What `tick` meets: the memory, the queue in it, the events of ENet, the time.
pub record World : Type 0 where
  pub machine : Machine
  pub queue : SharedState
  pub events : List Event
  pub now : ℕ

-- A poll does not depend on what the client does with the messages, so they are handled after all
-- polls; an exception of `poll` leaves after them.
unfoldable pub drained :
    Client
    → Option (List Message × Result (Unit {0}) × SharedState)
    → SharedState
    → Outcome × SharedState
drained c none q = ((undefined, c), q)
drained c (some (msgs, end, q')) q =
    let (done, c') = on_game_messages c msgs in
    ((elim done [ ok u ↦ end | throws e ↦ throws e | undefined ↦ undefined ], c'), q')

module _ (game : Game) (raw : RawAccess) where
  -- the last part of `tick`, with one more unit of fuel than there are slots
  unfoldable pub poll_game : Client → SharedState → Outcome × SharedState
  unfolding drained
  poll_game c q =
      if hooked game c
      then if c.rcv_queue then drained c (drain raw (suc q.size) q) q else ((undefined, c), q)
      else ((ok tt, c), q)

module _ (git_desc : Text) (parse : List ℕ → Option NetMessage) where
  -- the events, if there is a host
  unfoldable pub service : Client → List Event → Bool × Client
  service c events = if c.host then serve git_desc parse c events else (false, c)

module _ (game : Game) (raw : RawAccess) (asked : PeerState) (git_desc : Text)
    (parse : List ℕ → Option NetMessage) where
  unfoldable pub tick : Client → World → Outcome × SharedState
  tick c w =
      if c.hooking
      then (try_hook game w.machine c, w.queue)
      else let served = service git_desc parse (check_timeouts asked c w.now) w.events in
        if served.0 then ((ok tt, served.1), w.queue) else poll_game game raw served.1 w.queue
