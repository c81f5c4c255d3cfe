-- ===== src/Threads/Loop.antt =====
-- mod_janus.c: server_thread_run, a turn of its outer and of its inner loop.
pub mod Cases
use mod_janus.Base.Dict.{Dict}
use mod_janus.Base.{List, ℕ, Bool, true, false, Status, is_success, ◌==◌, if◌then◌else◌}
use mod_janus.Hash.{JanusId}
use mod_janus.Servers.{Server, Transport}
use mod_janus.Calls.Channel.{World}
use mod_janus.Threads.{Pass, put_server, claim_pass, create_pass, poll_failed}

-- What the outside gives a turn of the outer loop: whether the WebSocket opens, the outcome of the
-- claim, the sessions that hashIterate gives while their calls are hung up, the new session id (0 where there is none), the outcome of hashInsert, and the clock.
pub record Turn : Type 0 where
  pub open_ok : Bool
  pub claim : Status
  pub visits : Dict JanusId ℕ → List ℕ
  pub new_id : JanusId
  pub insert_ok : Bool
  pub now : ℕ

-- the time of the last poll starts anew on a WebSocket
unfoldable pub start_polling : ℕ → ℕ → Pass → Pass
unfolding put_server
start_polling now p r =
    let s = r.world.globals.heap p in
    let polled = record r { world = put_server r.world p (record s { ws_last_poll = now }) } in
    if r.finished then r else elim s.transport [ Transport.http ↦ r | Transport.ws ↦ polled ]

-- the session is claimed or created
unfoldable pub connect_pass : Turn → World → ℕ → JanusId → Pass
unfolding claim_pass create_pass start_polling
connect_pass t w p id = start_polling t.now p (
    if id == 0
    then create_pass t.insert_ok t.now t.new_id w p
    else claim_pass t.visits t.insert_ok t.claim w p id)

-- A WebSocket that has no handle is opened first, which may fail.
pub data Opening : Type 0 where
  as_it_is opens fails : Opening

unfoldable pub opening : Bool → Server → Opening
opening open_ok s = elim s.transport [
  | Transport.http ↦ as_it_is
  | Transport.ws ↦ if s.ws_handle then as_it_is else if open_ok then opens else fails
]

-- a turn of the outer loop, by the thread that holds the session `id`
unfoldable pub outer_turn : Turn → World → ℕ → JanusId → Pass
unfolding opening
outer_turn t w p id = elim (opening t.open_ok (w.globals.heap p)) [
  | as_it_is ↦ connect_pass t w p id
  | opens ↦ connect_pass t (put_server w p (record (w.globals.heap p) { ws_handle = true })) p id
  | fails ↦ record { own_id = id; world = w; finished = false }
]

-- a turn of the inner loop, after apiPoll has left the state `w`
unfoldable pub inner_turn : Status → World → ℕ → JanusId → World
unfolding poll_failed
inner_turn status w p id = if is_success status then w else poll_failed w p id
