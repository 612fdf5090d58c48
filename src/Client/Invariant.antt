-- ===== src/Client/Invariant.antt =====
-- The client's invariant, and that every call of its user and every message of the server keep it.
use net64_coop.Prelude.{
  find, ℕ, ◌≡◌, ◌≢◌, refl, Bool, true, false, Option, none, some, List, arith, ◌==◌, Option-cases,
  inl, inr, Bool-cases,
}
use net64_coop.Net.{
  Text, NetMessage, s_chat_message, s_handshake, s_player_list, s_client_disconnected,
  s_client_connected,
}
use net64_coop.Client.{
  Client, LocalPlayer, RemoteMap, PeerState, Effect, emit, connecting, is_connected, disconnect,
  connect, Answers, hook, unhook, set_chat_callback, send, send_chat_message, make_client,
  abort_connecting,
}
use net64_coop.Client.Handlers.{
  on_net_message, handle_message, chat_client, local_player_manager, player_list_manager,
}

abbrev pub is_some : {A : Type 0} → Option A → Bool
is_some none = false
is_some (some a) = true

-- A client that looks for the game or has a header has a memory handle, one that has a sender has a
-- receiver, one that has a receiver has a header, and one that has a peer has a host and the callbacks of
-- `connect`.
pub record IsSound (c : Client) : Type 0 where
  pub handle : c.hooking ≡ true → c.mem_hdl ≡ true
  pub pointed : c.header ≢ none → c.mem_hdl ≡ true
  pub sender : c.snd_queue ≡ true → c.rcv_queue ≡ true
  pub receiver : c.rcv_queue ≡ true → is_some c.header ≡ true
  pub hosted : c.peer ≢ none → c.host ≡ true
  pub callbacks : c.peer ≢ none → (c.connect_callback ≡ true) × (c.disconnect_callback ≡ true)

pub make_client-IsSound : IsSound make_client
make_client-IsSound = record {
  handle = λ h. ground arith;
  pointed = λ h. absurd (h refl);
  sender = λ h. ground arith;
  receiver = λ h. ground arith;
  hosted = λ h. absurd (h refl);
  callbacks = λ h. absurd (h refl);
}

pub emit-IsSound : {c : Client} (e : Effect) → IsSound c → IsSound (emit c e)
emit-IsSound e v = record {
  handle = v.handle;
  pointed = v.pointed;
  sender = v.sender;
  receiver = v.receiver;
  hosted = v.hosted;
  callbacks = v.callbacks;
}

-- A client without a peer.
pub ended :
    {c : Client} → IsSound c → (host : Bool) → IsSound (record c { peer = none; host = host })
ended v host = record {
  handle = v.handle;
  pointed = v.pointed;
  sender = v.sender;
  receiver = v.receiver;
  hosted = λ h. absurd (h refl);
  callbacks = λ h. absurd (h refl);
}

pub hook-IsSound : {c : Client} → IsSound c → IsSound (hook c)
unfolding hook
hook-IsSound v = record {
  handle = λ h. refl;
  pointed = λ h. refl;
  sender = v.sender;
  receiver = v.receiver;
  hosted = v.hosted;
  callbacks = v.callbacks;
}

pub disconnect-IsSound :
    {c : Client} (asked : PeerState) (timeout now : ℕ)
    → IsSound c
    → IsSound (disconnect asked c timeout now)
unfolding disconnect abort_connecting
disconnect-IsSound {c} asked timeout now v = elim (Bool-cases (connecting c)) [
  | inl trying ↦ rw trying (emit-IsSound _ (emit-IsSound _ (emit-IsSound _ (ended v false))))
  | inr settled ↦ elim (Bool-cases (is_connected c)) [
    | inl there ↦
        let some_peer : c.peer ≢ none = λ e. ground arith in
        rw (settled, there)
          (record {
            handle = v.handle;
            pointed = v.pointed;
            sender = v.sender;
            receiver = v.receiver;
            hosted = λ h. v.hosted some_peer;
            callbacks = λ h. v.callbacks some_peer;
          })
    | inr away ↦ rw (settled, away) v
  ]
]

pub unhook-IsSound :
    {c : Client} (asked : PeerState) (now : ℕ) → IsSound c → IsSound (unhook asked c now)
unfolding unhook
unhook-IsSound asked now v = disconnect-IsSound asked _ now (record {
  handle = λ h. ground arith;
  pointed = λ h. absurd (h refl);
  sender = λ h. ground arith;
  receiver = λ h. ground arith;
  hosted = v.hosted;
  callbacks = v.callbacks;
})

pub connect-IsSound :
    {c c' : Client} (answers : Answers) (username : Text) (timeout now : ℕ)
    → IsSound c
    → connect c answers username timeout now ≡ some c'
    → IsSound c'
unfolding connect
connect-IsSound answers username timeout now v e = record {
  handle = λ h. ground (arith, v.handle);
  pointed = λ h. ground (arith, v.pointed);
  sender = λ h. ground (arith, v.sender);
  receiver = λ h. ground (arith, v.receiver);
  hosted = λ h. ground arith;
  callbacks = λ h. ground arith;
}

-- What no part of the invariant is about may change.
pub kept :
    {c : Client} (callback : Bool) (x : LocalPlayer) (ps : RemoteMap) (username text_buf : Text)
    (es : List Effect)
    → IsSound c
    → IsSound (record c {
      chat_callback = callback;
      player = x;
      remote_players = ps;
      username = username;
      text_buf = text_buf;
      effects = es;
    })
kept callback x ps username text_buf es v = record {
  handle = v.handle;
  pointed = v.pointed;
  sender = v.sender;
  receiver = v.receiver;
  hosted = v.hosted;
  callbacks = v.callbacks;
}

pub chat_client-IsSound :
    {c : Client} (callback : Bool) (msg : NetMessage)
    → IsSound c
    → IsSound (chat_client callback c msg)
unfolding chat_client
chat_client-IsSound {c} false (s_chat_message id message) v = v
chat_client-IsSound {c} true (s_chat_message id message) v = elim (Bool-cases (id == 0)) [
  | inl server ↦ rw server (emit-IsSound _ v)
  | inr user ↦ elim (Option-cases (find id c.remote_players)) [
    | inl unknown ↦ rw (user, unknown) v
    | inr (p, known) ↦ rw (user, known) (emit-IsSound _ v)
  ]
]
chat_client-IsSound {c} false (s_client_connected id name) v = v
chat_client-IsSound {c} true (s_client_connected id name) v = emit-IsSound _ v
chat_client-IsSound {c} false (s_client_disconnected id code) v = v
chat_client-IsSound {c} true (s_client_disconnected id code) v =
    elim (Option-cases (find id c.remote_players)) [
      | inl unknown ↦ rw unknown v
      | inr (p, known) ↦ rw known (emit-IsSound _ v)
    ]
chat_client-IsSound callback msg v = v

pub local_player_manager-IsSound :
    {c : Client} (msg : NetMessage) → IsSound c → IsSound (local_player_manager c msg)
unfolding local_player_manager
local_player_manager-IsSound (s_handshake id) v = kept _ _ _ _ _ _ v
local_player_manager-IsSound msg v = v

pub player_list_manager-IsSound :
    {c : Client} (msg : NetMessage) → IsSound c → IsSound (player_list_manager c msg)
unfolding player_list_manager
player_list_manager-IsSound (s_client_connected id name) v = kept _ _ _ _ _ _ v
player_list_manager-IsSound (s_client_disconnected id code) v = kept _ _ _ _ _ _ v
player_list_manager-IsSound (s_player_list players) v = kept _ _ _ _ _ _ v
player_list_manager-IsSound msg v = v

pub on_net_message-IsSound :
    {c : Client} (parse : List ℕ → Option NetMessage) (packet : List ℕ)
    → IsSound c
    → IsSound (on_net_message parse c packet)
unfolding on_net_message handle_message
on_net_message-IsSound {c} parse packet v = elim (Option-cases (parse packet)) [
  | inl bad ↦ rw (bad, on_net_message) v
  | inr (msg, good) ↦
      rw (good, on_net_message)
        (chat_client-IsSound false msg (
          player_list_manager-IsSound msg
            (local_player_manager-IsSound msg (chat_client-IsSound c.chat_callback msg v))))
]

pub send-IsSound : {c : Client} (msg : NetMessage) → IsSound c → IsSound (send c msg)
unfolding send
send-IsSound {c} msg v = elim (Option-cases c.peer) [
  | inl gone ↦ rw (gone, send) v
  | inr (p, there) ↦ rw (there, send) (emit-IsSound _ v)
]

-- `set_chat_callback` and `send_chat_message` keep a client sound.
pub calls-IsSound :
    {c : Client} (given : Bool) (message : Text)
    → IsSound c
    → IsSound (set_chat_callback c given) × IsSound (send_chat_message c message)
unfolding set_chat_callback send_chat_message
calls-IsSound given message v = (kept _ _ _ _ _ _ v, send-IsSound _ v)
