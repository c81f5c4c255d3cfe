-- ===== src/Ws.antt =====
-- janus_ws.c: the frames of a WebSocket while a request waits for its response and while events are
-- polled. What the socket gives is an argument: `Incoming` for each turn of the loop of the drain,
-- `Wait` for each turn of the loop of a request until its deadline.
pub mod Order
pub mod Reply
pub mod Pump
pub mod Libks
mod Tests
use mod_janus.Base.{
  String, Bool, true, false, Option, none, some, List, [], ◌∷◌, ◌++◌, if◌then◌else◌, str_eq, ◌||◌,
  ◌&&◌, is_some, is_success, Status, success, failed,
}
use mod_janus.Json.{JsonLib}
use mod_janus.Api.{text_of, is_text}

-- janus_ws_ctx_t: the request that waits, its response, and the deferred events, oldest first
pub record Ctx (c : JsonLib) : Type 0 where
  pub rpc_txn : Option String
  pub rpc_result : Option c.Node
  pub deferred : List c.Node

-- A turn of the drain: the socket fails, it has nothing more, there is a frame that is no text or no
-- JSON, there is no memory for the text, or there is a document, with whether there is memory to
-- defer it.
pub data Incoming (c : JsonLib) : Type 0 where
  broken idle skipped no_memory : Incoming c
  document : c.Node → Bool → Incoming c

module _ (c : JsonLib) where
  -- the test of janus_ws_match_rpc_reply
  unfoldable pub is_reply : Option String → c.Node → Bool
  is_reply none root = false
  is_reply (some txn) root = elim (text_of c (c.get_item root "janus")) [
    | none ↦ false
    | some type ↦
        is_text (text_of c (c.get_item root "transaction")) txn
        && (str_eq type "success" || str_eq type "ack" || str_eq type "error")
  ]

  -- janus_ws_defer_event
  unfoldable pub defer_event : Ctx c → c.Node → Bool → Ctx c
  defer_event ctx root room =
      if room then record ctx { deferred = ctx.deferred ++ (root ∷ []) } else ctx

  -- a document in janus_ws_drain, with the events that are dispatched at once if `live` is set
  unfoldable pub receive : Bool → Ctx c → c.Node → Bool → Ctx c × List c.Node
  unfolding is_reply defer_event
  receive live ctx root room =
      if is_reply ctx.rpc_txn root
      then (record ctx { rpc_result = some root }, [])
      else if live
      then (ctx, root ∷ [])
      else (defer_event ctx root room, [])

  -- janus_ws_drain
  unfoldable pub drain : Bool → Ctx c → List (Incoming c) → Status × (Ctx c × List c.Node)
  drain live ctx [] = (success, (ctx, []))
  drain live ctx (broken ∷ more) = (failed, (ctx, []))
  drain live ctx (idle ∷ more) = (success, (ctx, []))
  drain live ctx (skipped ∷ more) = drain live ctx more
  drain live ctx (no_memory ∷ more) = (failed, (ctx, []))
  drain live ctx (document root room ∷ more) =
      let (ctx', now) = receive live ctx root room in
      let (status, (last, later)) = drain live ctx' more in (status, (last, now ++ later))

  -- janus_ws_flush_deferred: what is dispatched
  unfoldable pub flush_deferred : Ctx c → Ctx c × List c.Node
  flush_deferred ctx = (record ctx { deferred = [] }, ctx.deferred)

-- A turn of the wait for a response: the poll fails, the slice passes, or there is something to read.
pub data Wait (c : JsonLib) : Type 0 where
  poll_error slice_over : Wait c
  readable : List (Incoming c) → Wait c

module _ (c : JsonLib) where
  -- the loop of janus_ws_rpc_json; the deadline is the end of the list
  unfoldable pub wait_reply : Ctx c → List (Wait c) → Ctx c
  unfolding drain
  wait_reply ctx [] = ctx
  wait_reply ctx (poll_error ∷ turns) = ctx
  wait_reply ctx (slice_over ∷ turns) =
      let later = wait_reply ctx turns in if is_some ctx.rpc_result then ctx else later
  wait_reply ctx (readable frames ∷ turns) =
      let (status, (ctx', out)) = drain c false ctx frames in
      let later = wait_reply ctx' turns in
      if is_some ctx.rpc_result then ctx else if is_success status then later else ctx'

  -- janus_ws_rpc_json, from a request whose text was made, with the outcome of writing it
  unfoldable pub rpc_json : Ctx c → String → Bool → List (Wait c) → Option c.Node × Ctx c
  unfolding wait_reply
  rpc_json ctx txn written turns =
      let last = wait_reply (record ctx { rpc_txn = some txn; rpc_result = none }) turns in
      if written
      then (last.rpc_result, record last { rpc_txn = none; rpc_result = none })
      else (none, ctx)
