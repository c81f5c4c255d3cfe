-- ===== src/Threads.antt =====
-- mod_janus.c: the thread of a server, its start and stop, and the choice of the server for a call.
-- `insert_ok` is the outcome of hashInsert, `now` what the clock says.
pub mod Sessions
pub mod Dial
pub mod Registry
pub mod Refinement
pub mod Loop
pub mod Stopping
pub mod Sound
pub mod System
pub mod Outgoing
mod Tests
use mod_janus.Base.{
  ℕ, String, Bool, true, false, not, ◌&&◌, ◌||◌, Option, none, some, List, [], ◌∷◌, ◌==◌,
  if◌then◌else◌, zstr, Status, success, sockerr,
}
use mod_janus.Base.Dict.{Dict, id_eq, name_eq, find, insert, delete}
use mod_janus.Hash.{JanusId}
use mod_janus.Json.{JsonLib}
use mod_janus.Servers.{Server, Globals, Transport, store}
use mod_janus.Servers.Pods.{
  record_connect_failure, reset_connect_failures, evictable, remove_from_lookup, verify_identity,
}
use mod_janus.Calls.{Session, emit, hangup, destination_out_of_order}
use mod_janus.Calls.Channel.{World, put_session}

-- Where the thread stands after a pass: its own session id, the state of the module, and whether it
-- goes to `thread_done`.
pub record Pass : Type 0 where
  pub own_id : JanusId
  pub world : World
  pub finished : Bool

unfoldable pub put_server : World → ℕ → Server → World
unfolding store
put_server w p s = record w { globals = store w.globals p s }

-- janus_ws_server_close, for a server on a WebSocket that has a handle
abbrev pub closed : Server → Server
closed s = elim s.transport [ Transport.http ↦ s | Transport.ws ↦ record s { ws_handle = false } ]

-- the server goes into serverIdLookup; where that fails it has no session
unfoldable pub publish : Bool → World → ℕ → JanusId → Server → Pass
unfolding put_server
publish insert_ok w p id s =
    if insert_ok
    then (record {
      own_id = id;
      world = record w {
        globals = record (store w.globals p s) { by_id = insert w.globals.by_id id p };
      };
      finished = false;
    })
    else (record {
      own_id = 0;
      world = put_server w p (record s { server_id = 0 });
      finished = false;
    })

-- the loop that hangs up the calls of a lost session, and takes each out of the server's table; the
-- list is of the sessions that hashIterate gives
unfoldable pub hang_up_all : List ℕ → World → ℕ → World
unfolding put_server put_session
hang_up_all [] w p = w
hang_up_all (q ∷ calls) w p =
    let t = w.sessions q in
    let s = w.globals.heap p in
    let told = put_session w q (emit (hangup destination_out_of_order) t) in
    hang_up_all calls
      (put_server told p (record s { sender_id_lookup = delete s.sender_id_lookup t.sender_id })) p

-- server_thread_run with a session: what comes of the claim. `visits` gives the sessions that
-- hashIterate gives for a table: the loop deletes the entry that it stands at before it asks for the
-- next, and FreeSWITCH does not say which entry that is.
unfoldable pub claim_pass : (Dict JanusId ℕ → List ℕ) → Bool → Status → World → ℕ → JanusId → Pass
unfolding publish hang_up_all
claim_pass visits insert_ok status w p id =
    let s = w.globals.heap p in
    elim status [
      | success ↦ publish insert_ok w p id (record s { server_id = id })
      | sockerr ↦ record { own_id = id; world = put_server w p (closed s); finished = false }
      | _ ↦ record {
        own_id = 0;
        world = hang_up_all (visits s.sender_id_lookup) w p;
        finished = false;
      }
    ]

-- server_thread_run without a session: what comes of the new id, which is 0 where there is none
unfoldable pub create_pass : Bool → ℕ → JanusId → World → ℕ → Pass
unfolding publish evictable record_connect_failure reset_connect_failures
create_pass insert_ok now id w p =
    let s = w.globals.heap p in
    let failing = record_connect_failure (closed s) in
    let known = if s.dynamic then reset_connect_failures now s else s in
    if id == 0
    then (if s.dynamic
        then (if evictable w.globals failing
            then (record {
              own_id = 0;
              world = put_server w p (record failing { evicted = true });
              finished = true;
            })
            else (record { own_id = 0; world = put_server w p failing; finished = false }))
        else (record { own_id = 0; world = put_server w p (closed s); finished = false }))
    else publish insert_ok w p id
        (record known { started = now; server_id = id; calls_in_progress = 0 })

-- server_thread_run when apiPoll has failed
unfoldable pub poll_failed : World → ℕ → JanusId → World
unfolding store
poll_failed w p id =
    let g = store w.globals p (record (w.globals.heap p) { server_id = 0 }) in
    record w { globals = record g { by_id = delete g.by_id id } }

-- server_thread_run from `thread_done` on, by the thread that holds the session `id`
unfoldable pub thread_end : Globals → ℕ → JanusId → Globals
unfolding store remove_from_lookup
thread_end g p id =
    let s = record (closed (g.heap p)) { sender_id_lookup = [] } in
    let g' = store g p s in
    let g'' = record g' { by_id = delete g'.by_id id } in
    if s.evicted then remove_from_lookup g'' p else g''

unfoldable pub thread_done : World → ℕ → JanusId → World
unfolding thread_end
thread_done w p id = record w { globals = thread_end w.globals p id }

-- startServerThread: true if a thread is created
unfoldable pub start_server_thread : Bool → Globals → ℕ → Bool × Globals
unfolding store
start_server_thread force g p =
    let s = g.heap p in
    if force || not s.enabled
    then (true, store g p (record s { enabled = true; thread = true }))
    else (false, g)

-- stopServerThread. The thread is met at the test of one of its loops, which it leaves once
-- `terminating` is set; `own_id` is the session id that it holds. The mark, the join and the clearing
-- of the flags are one step here.
unfoldable pub stop_server_thread : JanusId → Globals → ℕ → Globals
unfolding store thread_end remove_from_lookup
stop_server_thread own_id g p =
    let s = g.heap p in
    let joined = thread_end (store g p (record s { terminating = true })) p own_id in
    let stopped = record (joined.heap p) { thread = false; terminating = false; enabled = false } in
    let dropped = if s.evicted then remove_from_lookup g p else g in
    if s.enabled && not s.terminating && s.thread then store joined p stopped else dropped

-- the outcome of the identity check of a dynamic server
abbrev pub confirm : ℕ → Bool × Globals → Option ℕ × Globals
confirm p (true, g) = (some p, g)
confirm p (false, g) = (none, g)

-- `verify` and `refresh` are told whether they belong to the second attempt.
module _ (verify : Bool → Globals → ℕ → Bool × Globals) (refresh : Bool → Globals → Globals) where
  -- the lookup of a name, after a refresh if it is unknown and there is a headless service
  unfoldable pub find_or_refresh : Globals → String → Option ℕ × Globals
  find_or_refresh g name = elim (find g.by_name name) [
    | some p ↦ (some p, g)
    | none ↦
        if zstr g.headless_service_url
        then (none, g)
        else (find (refresh false g).by_name name, refresh false g)
  ]

  -- a static server, or a dynamic one whose identity is confirmed
  unfoldable pub trusted : Bool → Globals → ℕ → Option ℕ × Globals
  trusted second g p = if (g.heap p).dynamic then confirm p (verify second g p) else (some p, g)

  -- the second attempt, when the identity check has failed
  unfoldable pub retry : Globals → ℕ → String → Option ℕ × Globals
  unfolding trusted
  retry g p name =
      if zstr g.headless_service_url
      then trusted true g p
      else elim (find (refresh true g).by_name name) [
        | none ↦ (none, refresh true g)
        | some q ↦ trusted true (refresh true g) q
      ]

  -- resolveServerForDial, up to the wait for the session
  unfoldable pub resolve_server : Globals → String → Option ℕ × Globals
  unfolding find_or_refresh trusted retry
  resolve_server g name =
      let (found, g1) = find_or_refresh g name in
      elim found [
        | none ↦ (none, g1)
        | some p ↦
            let (ok, g2) = trusted false g1 p in
            elim ok [ some q ↦ (some q, g2) | none ↦ retry g2 p name ]
      ]

-- serversVerifyDynamicIdentity of the server at a place
unfoldable pub verify_at :
    (c : JsonLib) → (String → Option c.Node) → ℕ → Globals → ℕ → Bool × Globals
unfolding store verify_identity
verify_at c fetch now g p =
    let (ok, s) = verify_identity c fetch now (g.heap p) in (ok, store g p s)
