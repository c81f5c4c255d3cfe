-- ===== src/Threads/Outgoing.antt =====
-- mod_janus.c: channel_outgoing_channel and waitServerActive. `states` gives what the other threads
-- have made of the module's state when it is looked at after each wait.
pub mod Wait
pub mod DialString
pub mod Checked
mod Tests
use Prim.Native.String.{◌++◌}
use mod_janus.Base.{
  ℕ, zero, suc, ◌+◌, ◌/◌, String, Char, code, Bool, true, false, not, Option, none, some, [], ◌==◌,
  if◌then◌else◌, is_empty, take, strtoull,
}
use mod_janus.Base.Dict.{id_eq, find}
use mod_janus.Hash.{JanusId}
use mod_janus.Servers.{Server, Globals}
use mod_janus.Calls.{
  Session, Cause, cause_success, destination_out_of_order, protocol_error, no_route_destination,
  outgoing_call_barred,
}
use mod_janus.Threads.{resolve_server}

-- the server that the session id of the server at `p` leads to
unfoldable pub active : Globals → ℕ → Option ℕ
active g p = let id = (g.heap p).server_id in if id == 0 then none else find g.by_id id

-- the loop of waitServerActive, with the number of its turns: the server, and the state it is found in
unfoldable pub wait_active : ℕ → (ℕ → Globals) → ℕ → Option (ℕ × Globals)
unfolding active
wait_active zero states p = none
wait_active (suc turns) states p =
    let later = wait_active turns (λ i. states (suc i)) p in
    elim (active (states 0) p) [ some q ↦ some (q, states 0) | none ↦ later ]

-- waitServerActive: a turn waits for 100 ms
unfoldable pub wait_server_active : ℕ → (ℕ → Globals) → ℕ → Option (ℕ × Globals)
unfolding wait_active
wait_server_active timeout_ms states p = wait_active ((timeout_ms + 99) / 100) states p

-- strchr, with the character overwritten: the texts before and behind it
unfoldable pub cut : (Char → Bool) → String → Option (String × String)
cut stops String.[] = none
cut stops (String.◌∷◌ c s) =
    let rest = cut stops s in
    if stops c
    then some ("", s)
    else elim rest [ none ↦ none | some (before, behind) ↦ some (String.◌∷◌ c before, behind) ]

abbrev pub is_slash : Char → Bool
is_slash c = code c == b'/'

abbrev pub is_at : Char → Bool
is_at c = code c == b'@'

-- the numeric id of a room, 0 unless the whole text is a number
unfoldable pub room_number : String → JanusId
unfolding strtoull
room_number text = let (n, rest) = strtoull text in if is_empty rest then n else 0

-- What FreeSWITCH answers: whether it gives a session, the destination number of the caller's
-- profile, and whether there is memory for the dial string and for the private object.
pub record Dialled : Type 0 where
  pub session_ok : Bool
  pub destination : Option String
  pub copy_ok : Bool
  pub alloc_ok : Bool

-- The session of the new call: none is left, it has no private object yet, or it is set up.
pub data Leg : Type 0 where
  gone bare : Leg
  made : Session → Leg

pub record Outgoing : Type 0 where
  pub cause : Cause
  pub leg : Leg

-- the name of the channel, in channelName[2048]
abbrev pub channel_name : String → String
channel_name destination = "janus/" ++ take 2041 destination

-- the private object of a new call, all zero but for what the dial string and the server give
abbrev pub new_call : JanusId → String → String → Session
new_call id display room = record {
  server_id = id;
  room_id = room_number room;
  room_id_str = some room;
  display = some display;
  sender_id = 0;
  call_id = none;
  sdp_body = none;
  sdp_candidates = none;
  is_trickle_complete = false;
  participant_id_str = none;
  answer_gate = false;
  remote_ready = false;
  answer_requested = false;
  answer_done = false;
  answer_deadline = 0;
  te = 0;
  io = false;
  voice = false;
  outbound = true;
  break_flag = false;
  trace = [];
}

abbrev pub refuse : Cause → Outgoing
refuse cause = record { cause = cause; leg = gone }

-- channel_outgoing_channel from the server on; `rest` is the dial string behind its name
unfoldable pub dial_room : Bool → Server → String → Outgoing
unfolding cut room_number
dial_room alloc_ok s rest =
    let unread : Outgoing = elim (cut is_at rest) [
      | none ↦ refuse protocol_error
      | some (display, room) ↦ record {
        cause = cause_success;
        leg = made (new_call s.server_id display room);
      }
    ] in
    if not s.enabled
    then (record { cause = outgoing_call_barred; leg = bare })
    else if alloc_ok
    then unread
    else refuse destination_out_of_order

module _ (verify : Bool → Globals → ℕ → Bool × Globals) (refresh : Bool → Globals → Globals)
    (states : Globals → ℕ → Globals) where
  -- resolveServerForDial: up to 10 seconds for a session
  unfoldable pub resolve_for_dial : Globals → String → Option (ℕ × Globals)
  unfolding resolve_server wait_server_active
  resolve_for_dial g name =
      let (found, g') = resolve_server verify refresh g name in
      elim found [ none ↦ none | some p ↦ wait_server_active 10000 (states g') p ]

  unfoldable pub dial : Bool → Globals → String → Outgoing
  unfolding resolve_for_dial dial_room cut
  dial alloc_ok g destination = elim (cut is_slash destination) [
    | none ↦ refuse protocol_error
    | some (name, rest) ↦ elim (resolve_for_dial g name) [
      | none ↦ refuse no_route_destination
      | some (p, g') ↦ dial_room alloc_ok (g'.heap p) rest
    ]
  ]

  -- channel_outgoing_channel
  unfoldable pub outgoing_channel : Dialled → Globals → Outgoing
  unfolding dial
  outgoing_channel d g =
      if not d.session_ok then refuse destination_out_of_order else elim d.destination [
        | none ↦ refuse destination_out_of_order
        | some destination ↦
            if d.copy_ok then dial d.alloc_ok g destination else refuse destination_out_of_order
      ]
