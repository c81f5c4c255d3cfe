-- ===== src/Threads/System.antt =====
-- mod_janus.c: the server threads, the calls and the administration of servers as one system, in
-- which their turns interleave.
pub mod Invariant
pub mod Claim
pub mod Connect
pub mod Leave
pub mod Stop
pub mod Calls
pub mod Registry
pub mod Callbacks
pub mod Answers
pub mod Flags
pub mod Reach
mod Tests
use mod_janus.Base.{
  ℕ, String, ◌≡◌, ◌≢◌, not, ◌&&◌, Option, none, some, List, false, Status, Bool, ◌==◌,
  if◌then◌else◌,
}
use mod_janus.Base.Dict.{id_eq, find}
use mod_janus.Hash.{JanusId}
use mod_janus.Json.{JsonLib}
use mod_janus.Servers.{Server, Globals}
use mod_janus.Calls.{Env, Session, answers}
use mod_janus.Calls.Joined.{ConfigureArgs}
use mod_janus.Calls.Channel.{World, put_session}
use mod_janus.Calls.Methods.{RoomArgs, JoinArgs}
use mod_janus.Calls.Callbacks.{Column, Routine, state_handler, io_routine}
use mod_janus.Polling.{handle_events}
use mod_janus.Servers.Refresh.{Endpoint, register, evict}
use mod_janus.Threads.{thread_done, start_server_thread, stop_server_thread, verify_at}
use mod_janus.Threads.Loop.{Turn, outer_turn, inner_turn}
use mod_janus.Threads.Registry.{bound_start}
use mod_janus.Threads.Sound.{IsSound}
use mod_janus.Threads.Stopping.{has_thread}
use mod_janus.Threads.Refinement.{bound_stop}
use mod_janus.Threads.Outgoing.{Leg, made, dial_room}

-- The state of the module, and the session id that the thread of each server holds (0: none).
pub record System : Type 0 where
  pub world : World
  pub own : ℕ → JanusId

-- the thread of a server holds another session id
unfoldable pub hold : System → ℕ → JanusId → World → System
hold s p id w = record { world = w; own = λ q. if p == q then id else s.own q }

-- A session id that no thread holds and that no server has.
pub record IsFresh (s : System) (id : JanusId) : Type 0 where
  pub unheld : (q : ℕ) → s.own q ≢ id
  pub unused : (q : ℕ) → (s.world.globals.heap q).server_id ≢ id

-- No thread holds a session id, the table of ids is empty, that of names is sound, and no call was
-- told to answer.
pub record IsInitial (s : System) : Type 0 where
  pub none_held : (q : ℕ) → s.own q ≡ 0
  pub none_known : (id : JanusId) → find s.world.globals.by_id id ≡ none
  pub sound : IsSound s.world.globals
  pub untold : (q : ℕ) → answers (s.world.sessions q).trace ≡ 0
  pub undone : (q : ℕ) → (s.world.sessions q).answer_done ≡ false

-- A session that no server knows.
pub record IsUnknown (w : World) (q : ℕ) : Type 0 where
  pub unlisted : (p : ℕ) (id : JanusId) → find (w.globals.heap p).sender_id_lookup id ≢ some q

-- the module's state with other servers or tables
abbrev pub with_globals : System → Globals → System
with_globals s g = record s { world = record s.world { globals = g } }

module _ (configure : Server → ConfigureArgs → Status) (envs : ℕ → Env) (c : JsonLib)
    (get_sender_id : Server → JanusId → Option String → JanusId)
    (create_room : Server → RoomArgs → JanusId) (join : Server → JoinArgs → Status) where
  -- What happens next in the module. First the turns of the thread of a server, whose session id
  -- from a Janus server is one that no other has; then its stop and start, the registry's work on a
  -- pod and on a server that is gone, the check of a server before a call; and then what FreeSWITCH
  -- calls for a session, which is new when a call is dialled.
  pub data Step (s : System) : System → Type 0 where
    connects :
        (p : ℕ) (t : Turn)
        → find s.world.globals.by_id (s.own p) ≡ none
        → (t.new_id ≢ 0 → IsFresh s t.new_id)
        → Step s (
            hold s p
              (outer_turn t s.world p (s.own p)).own_id
              (outer_turn t s.world p (s.own p)).world)
    polls :
        (p : ℕ) (status : Status) (events : List c.Node) (w : World)
        → find s.world.globals.by_id (s.own p) ≢ none
        → handle_events configure envs c events s.world ≡ some w
        → Step s (hold s p (s.own p) (inner_turn status w p (s.own p)))
    ends : (p : ℕ) → Step s (hold s p 0 (thread_done s.world p (s.own p)))
    stops :
        (p : ℕ)
        → Step s (
            hold s p
              (if has_thread (s.world.globals.heap p) then 0 else s.own p)
              (record s.world { globals = stop_server_thread (s.own p) s.world.globals p }))
    runs :
        (force : Bool) (p : ℕ)
        → Step s (with_globals s (start_server_thread force s.world.globals p).1)
    registers :
        (now : ℕ) (defaults : Server) (x : Endpoint)
        → Step s (with_globals s (register bound_start now defaults x s.world.globals))
    evicts :
        (p : ℕ)
        → Step s (
            hold s p
              (if has_thread (s.world.globals.heap p) then 0 else s.own p)
              (record s.world { globals = evict (bound_stop s.own) s.world.globals p }))
    verifies :
        (fetch : String → Option c.Node) (now p : ℕ)
        → Step s (with_globals s (verify_at c fetch now s.world.globals p).1)
    dials :
        (p q : ℕ) (alloc_ok : Bool) (rest : String) (t : Session)
        → IsUnknown s.world q
        → (dial_room alloc_ok (s.world.globals.heap p) rest).leg ≡ made t
        → Step s (record s { world = put_session s.world q t })
    calls_back :
        (e : Env) (read_ready write_ready : Bool) (column : Column) (q : ℕ) (status : Status)
        (w : World)
        → state_handler get_sender_id create_room join e read_ready write_ready column s.world q
          ≡ some (status, w)
        → Step s (record s { world = w })
    debugs : (on : Bool) → Step s (with_globals s (record s.world.globals { debug = on }))
    does_io :
        (e : Env) (routine : Routine) (q : ℕ)
        → Step s (record s { world = io_routine e routine s.world q })

  -- The states that the system reaches from an initial one.
  pub data Reachable : System → Type 0 where
    starts : (s : System) → IsInitial s → Reachable s
    goes_on : (s s' : System) → Reachable s → Step s s' → Reachable s'
