-- ===== src/Calls/Methods.antt =====
-- mod_janus.c: the state methods of the channel. The API calls that they make are arguments.
pub mod Counters
pub mod Ttl
use mod_janus.Base.{
  ℕ, suc, ◌+◌, ◌-◌, ◌%◌, ◌^◌, String, Bool, true, false, not, ◌&&◌, ◌||◌, Option, none, some, List,
  [], ◌∷◌, Status, success, failed, notfound, ltb, leb, ◌==◌, if◌then◌else◌, is_success, is_some,
  is_empty, atoi, ℤ, at_least_zero,
}
use mod_janus.Base.Dict.{id_eq, find, insert, delete}
use mod_janus.Hash.{JanusId}
use mod_janus.Servers.{Server, Globals, store}
use mod_janus.Calls.{
  Session, Env, Cause, emit, hangup, hangup_partner, kill_socket, stop_media, media_break,
  api_leave, api_detach, normal_clearing, incompatible_destination, var_true, var_false,
}
use mod_janus.Calls.Gate.{answered_session, participant_session, deadline_check}
use mod_janus.Calls.Media.{accepted_session, trickle_session}
use mod_janus.Calls.Joined.{joined_session, ConfigureArgs}
use mod_janus.Calls.Channel.{World, put_session}

-- The arguments of apiCreateRoom and apiJoin.
pub record RoomArgs : Type 0 where
  pub server_id : JanusId
  pub sender_id : JanusId
  pub room_id : JanusId
  pub description : Option String
  pub record_room : Bool
  pub recording_file : Option String
  pub pin : Option String
  pub allow_ws_participants : Bool
  pub room_id_str : Option String

pub record JoinArgs : Type 0 where
  pub ttl : ℕ
  pub server_id : JanusId
  pub sender_id : JanusId
  pub room_id : JanusId
  pub display : Option String
  pub pin : Option String
  pub token : Option String
  pub call_id : Option String
  pub room_id_str : Option String

abbrev partner_variable : Env → String → Option String
partner_variable e k = elim e.partner [ none ↦ e.variable k | some variable ↦ variable k ]

-- channel_on_init: the id of the call, the partner's if there is one
unfoldable pub choose_call_id : Env → Option String
choose_call_id e = elim (partner_variable e "sip_call_id") [ none ↦ some e.uuid | some v ↦ some v ]

abbrev pub room_args : Env → Session → RoomArgs
room_args e s = record {
  server_id = s.server_id;
  sender_id = s.sender_id;
  room_id = s.room_id;
  description = e.variable "janus-room-description";
  record_room = var_true e "janus-room-record";
  recording_file = e.variable "janus-room-record-file";
  pin = e.variable "janus-room-pin";
  allow_ws_participants = var_true e "janus-room-allow-ws-participants";
  room_id_str = s.room_id_str;
}

-- an unsigned int counter
abbrev pub increment : ℕ → ℕ
increment n = (n + 1) % 2 ^ 32

-- channel_on_init, from the room on: the call is counted
unfoldable pub count_call : Env → World → ℕ → ℕ → World
count_call e w p q =
    let s = w.globals.heap p in
    let counted = record s {
      calls_in_progress = increment s.calls_in_progress;
      total_calls = increment s.total_calls;
      last_activity = if s.dynamic then e.now else s.last_activity;
    } in
    let g = store w.globals p counted in
    let g' = record g {
      calls_in_progress = increment g.calls_in_progress;
      total_calls = increment g.total_calls;
    } in
    put_session (record w { globals = g' }) q (record (w.sessions q) { io = true })

-- a failing step of a state method: the channel is hung up
abbrev give_up : World → ℕ → Session → Status → Status × World
give_up w q s status = (status, put_session w q (emit (hangup incompatible_destination) s))

module _ (get_sender_id : Server → JanusId → Option String → JanusId)
    (create_room : Server → RoomArgs → JanusId) where
  -- channel_on_init from the attached handle on
  unfoldable pub init_attached : Env → World → ℕ → ℕ → Session → Status × World
  unfolding count_call
  init_attached e w p q s =
      if not e.hash_insert_ok
      then give_up w q s failed
      else (let server = w.globals.heap p in
          let known = record server {
            sender_id_lookup = insert server.sender_id_lookup s.sender_id q;
          } in
          let w' = put_session (record w { globals = store w.globals p known }) q s in
          if var_false e "janus-use-existing-room" && create_room known (room_args e s) == 0
          then give_up w' q s failed
          else (success, count_call e w' p q))

  -- channel_on_init
  unfoldable pub on_init : Env → World → ℕ → Status × World
  unfolding init_attached choose_call_id
  on_init e w q =
      let s = record (w.sessions q) { call_id = choose_call_id e } in
      if not s.outbound then give_up w q s failed else elim (find w.globals.by_id s.server_id) [
        | none ↦ give_up w q s notfound
        | some p ↦
            let server = w.globals.heap p in
            let s' = record s { sender_id = get_sender_id server s.server_id s.call_id } in
            if s'.sender_id == 0
            then give_up
                (record w { globals = store w.globals p (record server { server_id = 0 }) }) q s'
                failed
            else init_attached e w p q s'
      ]

-- the lifetime of a signed token: `janus-hmac-token-ttl` within a day, or two hours
abbrev pub call_ttl : ℕ
call_ttl = 7200

unfoldable pub hmac_token_ttl : Option String → ℕ
hmac_token_ttl v =
    let asked : ℕ = elim v [
      | none ↦ 0
      | some t ↦ if is_empty t then 0 else at_least_zero (atoi t)
    ] in
    let capped = if ltb 86400 asked then 86400 else asked in
    if capped == 0 then call_ttl else capped

-- channel_on_routing: a call in the early state is being routed anew, and has joined already
unfoldable pub on_routing : (Server → JoinArgs → Status) → Env → World → ℕ → Status × World
unfolding hmac_token_ttl
on_routing join e w q =
    let s = w.sessions q in
    if e.early then (success, w) else elim (find w.globals.by_id s.server_id) [
      | none ↦ give_up w q s notfound
      | some p ↦
          let server = w.globals.heap p in
          let args : JoinArgs = record {
            ttl =
                if is_some server.hmac_secret
                then hmac_token_ttl (e.variable "janus-hmac-token-ttl")
                else 0;
            server_id = s.server_id;
            sender_id = s.sender_id;
            room_id = s.room_id;
            display = s.display;
            pin = e.variable "janus-room-pin";
            token = e.variable "janus-user-token";
            call_id = s.call_id;
            room_id_str = s.room_id_str;
          } in
          if is_success (join server args) then (success, w) else give_up w q s failed
    ]

-- channel_on_hangup, what it does to the session before the server is looked up
unfoldable pub close_media : Env → Session → Session
close_media e s =
    let s' = emit stop_media (emit kill_socket s) in
    let told = if is_some e.partner then emit (hangup_partner normal_clearing) s' else s' in
    record told { io = false; voice = false }

-- channel_on_hangup, after the server is found: the call is no longer counted
unfoldable pub uncount_call : Env → World → ℕ → ℕ → World
uncount_call e w p q =
    let s = w.sessions q in
    let server = w.globals.heap p in
    let g = store w.globals p (record server {
      sender_id_lookup = delete server.sender_id_lookup s.sender_id;
      calls_in_progress = server.calls_in_progress - 1;
      last_activity = if server.dynamic then e.now else server.last_activity;
    }) in
    let g' = record g { calls_in_progress = g.calls_in_progress - 1 } in
    put_session (record w { globals = g' }) q
      (emit (api_detach s.server_id s.sender_id) (emit (api_leave s.server_id s.sender_id) s))

-- channel_on_hangup
unfoldable pub on_hangup : Env → World → ℕ → Status × World
unfolding close_media uncount_call
on_hangup e w q =
    let w' = put_session w q (close_media e (w.sessions q)) in
    elim (find w.globals.by_id (w.sessions q).server_id) [
      | none ↦ (notfound, w')
      | some p ↦ (success, uncount_call e w' p q)
    ]

-- channel_kill_channel: SWITCH_SIG_KILL, SWITCH_SIG_BREAK, and the signals that do nothing
pub data Signal : Type 0 where
  sig_kill sig_break sig_other : Signal

unfoldable pub kill_channel : Signal → Session → Session
kill_channel sig_kill s = emit kill_socket (record s { io = true })
kill_channel sig_break s = emit media_break (record s { break_flag = true })
kill_channel sig_other s = s
