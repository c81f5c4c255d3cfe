-- ===== src/Ws/Pump.antt =====
-- janus_ws.c: janus_ws_pump_once, the poll for events, with the requests of other threads that run
-- while it gives the lock up. The list of its slices ends at the deadline.
pub mod Arrivals
pub mod Lossless
use mod_janus.Base.{
  ℕ, ◌-◌, ◌*◌, ◌/◌, String, Bool, true, false, not, ◌&&◌, Option, none, some, List, [], ◌∷◌, ◌++◌,
  if◌then◌else◌, ltb, ◌==◌, is_success, or_else, Status, success, failed, decimal,
}
use mod_janus.Json.{JsonLib}
use mod_janus.Hash.{JanusId}
use mod_janus.Ws.{Ctx, Wait, poll_error, slice_over, readable, drain, flush_deferred, rpc_json}

-- JANUS_WS_PUMP_SLICE_MS
abbrev pub pump_slice_ms : ℕ
pump_slice_ms = 200

-- how long a slice waits, for the time that remains
unfoldable pub slice_ms : ℕ → ℕ
slice_ms remain_us =
    let ms = if ltb remain_us (pump_slice_ms * 1000) then remain_us / 1000 else pump_slice_ms in
    if ms == 0 then 1 else ms

-- A request of another thread: its transaction, whether it is written, and what it then meets.
pub record Request (c : JsonLib) : Type 0 where
  pub txn : String
  pub written : Bool
  pub turns : List (Wait c)

-- A slice: the time that remains, the requests that get the lock before it, the outcome of its poll
-- for each length of the wait, and the clock after it has read.
pub record Slice (c : JsonLib) : Type 0 where
  pub remain_us : ℕ
  pub others : List (Request c)
  pub poll : ℕ → Wait c
  pub after : ℕ

-- What a poll leaves: its result, the context, the events dispatched, `*last_activity_ref`.
pub record Pumped (c : JsonLib) : Type 0 where
  pub status : Status
  pub ctx : Ctx c
  pub dispatched : List c.Node
  pub last_activity : ℕ

module _ (c : JsonLib) where
  unfoldable pub run_requests : Ctx c → List (Request c) → Ctx c
  unfolding rpc_json
  run_requests ctx [] = ctx
  run_requests ctx (r ∷ rs) = run_requests (rpc_json c ctx r.txn r.written r.turns).1 rs

  -- the loop over the slices
  unfoldable pub pump_slices : Ctx c → ℕ → List (Slice c) → Pumped c
  unfolding run_requests flush_deferred drain slice_ms
  pump_slices ctx last [] = record {
    status = success;
    ctx = ctx;
    dispatched = [];
    last_activity = last;
  }
  pump_slices ctx last (t ∷ ts) =
      let (flushed, early) = flush_deferred c (run_requests ctx t.others) in
      let later = pump_slices flushed last ts in
      if t.remain_us == 0
      then (record { status = success; ctx = ctx; dispatched = []; last_activity = last })
      else elim (t.poll (slice_ms t.remain_us)) [
        | poll_error ↦ record {
          status = failed;
          ctx = flushed;
          dispatched = early;
          last_activity = last;
        }
        | slice_over ↦ record later { dispatched = early ++ later.dispatched }
        | readable frames ↦
            let (status, (ctx', now)) = drain c true flushed frames in
            record {
              status = status;
              ctx = ctx';
              dispatched = early ++ now;
              last_activity = if is_success status then t.after else last;
            }
      ]

  -- the keepalive request; a failed addition is ignored
  unfoldable pub keepalive : Option String → JanusId → String → Option c.Node
  keepalive secret session_id txn =
      let put = λ (n : c.Node) (k : String) (v : c.Node). or_else (c.add_item n k v) n in
      elim c.create_object [
        | none ↦ none
        | some n ↦
            let typed = put n "janus" (c.string_node "keepalive") in
            let for_session = put typed "session_id" (c.raw_node (decimal session_id)) in
            let named = put for_session "transaction" (c.string_node txn) in
            elim secret [
              | none ↦ some named
              | some text ↦ some (put named "apisecret" (c.string_node text))
            ]
      ]

  -- a keepalive is due: there is a session, and nothing has come for longer than the interval
  unfoldable pub keepalive_due : ℕ → JanusId → ℕ → ℕ → Bool
  keepalive_due interval session_id last now =
      ltb 0 interval && not (session_id == 0) && ltb 0 last && ltb interval (now - last)

  -- the keepalive of a poll that starts at `now`; `exchange` says whether the request is written and
  -- what it then meets, `after` is the clock after it
  unfoldable pub keep_alive :
      (c.Node → Request c) → Option c.Node → ℕ → Bool → Ctx c → ℕ → Ctx c × ℕ
  unfolding rpc_json
  keep_alive exchange message after due ctx last = elim message [
    | none ↦ (ctx, last)
    | some root ↦
        let r = exchange root in
        if due then ((rpc_json c ctx r.txn r.written r.turns).1, after) else (ctx, last)
  ]

  -- janus_ws_pump_once; `none` is a server without a WebSocket
  unfoldable pub pump_once :
      (c.Node → Request c)
      → Option String
      → ℕ
      → JanusId
      → String
      → ℕ
      → ℕ
      → List (Slice c)
      → ℕ
      → Option (Ctx c)
      → Option (Pumped c)
  unfolding keepalive keepalive_due keep_alive pump_slices
  pump_once exchange secret interval session_id txn now after slices last none = none
  pump_once exchange secret interval session_id txn now after slices last (some ctx) =
      let due = keepalive_due interval session_id last now in
      let (ctx', last') =
        keep_alive exchange (keepalive secret session_id txn) after due ctx last in
      some (pump_slices ctx' last' slices)
