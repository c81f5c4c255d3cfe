-- ===== src/Ws/Pump/Arrivals.antt =====
-- janus_ws.c: the events that a request reads before its response.
use mathlib.Core.List.{append_assoc, append-nil}
use mod_janus.Base.{
  String, ◌≡◌, refl, sym, ap, ◌∙◌, Bool, true, false, ◌&&◌, none, some, List, [], ◌∷◌, ◌++◌,
  if◌then◌else◌, arith, Bool-cases, inl, inr, is_some, is_success, not, ◌||◌,
}
use mod_janus.Json.{JsonLib}
use mod_janus.Ws.{
  Ctx, Incoming, broken, idle, skipped, no_memory, document, is_reply, receive, defer_event, Wait,
  poll_error, slice_over, readable, drain, wait_reply, rpc_json,
}
use mod_janus.Ws.Order.{events, has_room, drain-deferred}
use mod_janus.Ws.Pump.{Request, run_requests}

module _ (c : JsonLib) where
  -- a reply to the request is among the frames that a drain reads
  unfoldable pub replied : String → List (Incoming c) → Bool
  unfolding is_reply
  replied txn [] = false
  replied txn (broken ∷ more) = false
  replied txn (idle ∷ more) = false
  replied txn (skipped ∷ more) = replied txn more
  replied txn (no_memory ∷ more) = false
  replied txn (document root room ∷ more) = is_reply c (some txn) root || replied txn more

  -- a drain ends without an error
  unfoldable pub ends_well : List (Incoming c) → Bool
  ends_well [] = true
  ends_well (broken ∷ more) = false
  ends_well (idle ∷ more) = true
  ends_well (skipped ∷ more) = ends_well more
  ends_well (no_memory ∷ more) = false
  ends_well (document root room ∷ more) = ends_well more

  -- the events that a request reads until it ends
  unfoldable pub waited : String → List (Wait c) → List c.Node
  unfolding events replied ends_well
  waited txn [] = []
  waited txn (poll_error ∷ turns) = []
  waited txn (slice_over ∷ turns) = waited txn turns
  waited txn (readable frames ∷ turns) =
      let later = waited txn turns in
      events c (some txn) frames
      ++ (if replied txn frames || not (ends_well frames) then [] else later)

  -- there is memory to defer every event of a request
  unfoldable pub roomy : List (Wait c) → Bool
  unfolding has_room
  roomy [] = true
  roomy (poll_error ∷ turns) = roomy turns
  roomy (slice_over ∷ turns) = roomy turns
  roomy (readable frames ∷ turns) = has_room c frames && roomy turns

  drain-replied :
      (txn : String) (ctx : Ctx c) (frames : List (Incoming c))
      → ctx.rpc_txn ≡ some txn
      → let (status, (ctx', out)) = drain c false ctx frames in
        (is_success status ≡ ends_well frames)
        × (ctx'.rpc_txn ≡ some txn)
        × (is_some ctx'.rpc_result ≡ (is_some ctx.rpc_result || replied txn frames))
  unfolding drain receive replied ends_well defer_event
  drain-replied txn ctx [] h = ground (arith, h)
  drain-replied txn ctx (broken ∷ more) h = ground (arith, h)
  drain-replied txn ctx (idle ∷ more) h = ground (arith, h)
  drain-replied txn ctx (skipped ∷ more) h = drain-replied txn ctx more h
  drain-replied txn ctx (no_memory ∷ more) h = ground (arith, h)
  drain-replied txn ctx (document root room ∷ more) h =
      elim (Bool-cases (is_reply c (some txn) root)) [
        | inl e ↦
            ground (arith, h, e, drain-replied txn (record ctx { rpc_result = some root }) more h)
        | inr e ↦ ground (
          arith,
          h,
          e,
          drain-replied txn ctx more h,
          drain-replied txn (record ctx { deferred = ctx.deferred ++ (root ∷ []) }) more h,
        )
      ]

  wait_reply-done :
      (ctx : Ctx c) (turns : List (Wait c))
      → is_some ctx.rpc_result ≡ true
      → wait_reply c ctx turns ≡ ctx
  unfolding wait_reply
  wait_reply-done ctx [] h = refl
  wait_reply-done ctx (poll_error ∷ turns) h = refl
  wait_reply-done ctx (slice_over ∷ turns) h = ground (arith, h)
  wait_reply-done ctx (readable frames ∷ turns) h = ground (arith, h)

  wait_reply-waited :
      (txn : String) (ctx : Ctx c) (turns : List (Wait c))
      → ctx.rpc_txn ≡ some txn
      → is_some ctx.rpc_result ≡ false
      → roomy turns ≡ true
      → (wait_reply c ctx turns).deferred ≡ ctx.deferred ++ waited txn turns
  unfolding wait_reply waited roomy
  wait_reply-waited txn ctx [] own free h = sym (append-nil ctx.deferred)
  wait_reply-waited txn ctx (poll_error ∷ turns) own free h = sym (append-nil ctx.deferred)
  wait_reply-waited txn ctx (slice_over ∷ turns) own free h =
      rw free (wait_reply-waited txn ctx turns own free h)
  wait_reply-waited txn ctx (readable frames ∷ turns) own free h =
      let (status, (ctx', out)) = drain c false ctx frames in
      let (ends, same, held) = drain-replied txn ctx frames own in
      let kept = drain-deferred c ctx frames (ground (arith, h)) in
      elim (Bool-cases (ends_well frames)) [
        | inr e ↦ ground (arith, free, ends, e, kept, own, append-nil (events c (some txn) frames))
        | inl e ↦ elim (Bool-cases (replied txn frames)) [
          | inl a ↦ ground (
            arith,
            free,
            ends,
            e,
            a,
            kept,
            own,
            append-nil (events c (some txn) frames),
            wait_reply-done ctx' turns (ground (arith, held, a)),
          )
          | inr a ↦ ground (
            arith,
            free,
            ends,
            e,
            a,
            kept,
            own,
            append_assoc ctx.deferred (events c (some txn) frames) (waited txn turns),
            wait_reply-waited txn ctx' turns same (ground (arith, held, free, a))
                (ground (arith, h)),
          )
        ]
      ]

  -- the events that requests of other threads read, one after the other
  unfoldable pub requested : List (Request c) → List c.Node
  unfolding waited
  requested [] = []
  requested (r ∷ rs) = (if r.written then waited r.txn r.turns else []) ++ requested rs

  unfoldable pub all_roomy : List (Request c) → Bool
  unfolding roomy
  all_roomy [] = true
  all_roomy (r ∷ rs) = roomy r.turns && all_roomy rs

  pub rpc_json-waited :
      (ctx : Ctx c) (r : Request c)
      → roomy r.turns ≡ true
      → ctx.rpc_txn ≡ none
      → let ctx' = (rpc_json c ctx r.txn r.written r.turns).1 in
        (ctx'.deferred ≡ ctx.deferred ++ (if r.written then waited r.txn r.turns else []))
        × (ctx'.rpc_txn ≡ none)
  unfolding rpc_json
  rpc_json-waited ctx r h free =
      let start : Ctx c = record ctx { rpc_txn = some r.txn; rpc_result = none } in
      ground
        (arith, free, append-nil ctx.deferred, wait_reply-waited r.txn start r.turns refl refl h)

  pub run_requests-requested :
      (ctx : Ctx c) (rs : List (Request c))
      → all_roomy rs ≡ true
      → ctx.rpc_txn ≡ none
      → ((run_requests c ctx rs).deferred ≡ ctx.deferred ++ requested rs)
        × ((run_requests c ctx rs).rpc_txn ≡ none)
  unfolding run_requests requested all_roomy
  run_requests-requested ctx [] h free = (sym (append-nil ctx.deferred), free)
  run_requests-requested ctx (r ∷ rs) h free =
      let ctx' = (rpc_json c ctx r.txn r.written r.turns).1 in
      let (own, idle_again) = rpc_json-waited ctx r (ground (arith, h)) free in
      let (rest, last) = run_requests-requested ctx' rs (ground (arith, h)) idle_again in
      let read = if r.written then waited r.txn r.turns else [] in
      (
        rest ∙ (ap (λ t. t ++ requested rs) own ∙ append_assoc ctx.deferred read (requested rs)),
        last,
      )
