-- ===== src/Ws/Reply.antt =====
-- janus_ws.c: which response a request takes.
use mod_janus.Base.{
  String, ◌≡◌, refl, ◌∙◌, ap, ◌⊎◌, inl, inr, Bool, true, false, Option, none, some, List, [], ◌∷◌,
  arith, eq_iff, Option-cases,
}
use mod_janus.Api.{text_of, is_text}
use mod_janus.Json.{JsonLib}
use mod_janus.Ws.{
  Ctx, Incoming, broken, idle, skipped, no_memory, document, is_reply, defer_event, receive, drain,
  Wait, poll_error, slice_over, readable, wait_reply, rpc_json,
}

module _ (c : JsonLib) where
  -- A document with the transaction of a request, which is a success, an ack or an error.
  pub record AnswersTo (txn : String) (root : c.Node) : Type 0 where
    pub transaction : text_of c (c.get_item root "transaction") ≡ some txn
    pub type :
        (text_of c (c.get_item root "janus") ≡ some "success")
        ⊎ (text_of c (c.get_item root "janus") ≡ some "ack")
        ⊎ (text_of c (c.get_item root "janus") ≡ some "error")

  -- the response that is held, if any, is one to the request that waits
  unfoldable pub holds_reply : Ctx c → Bool
  holds_reply ctx = elim ctx.rpc_result [ none ↦ true | some root ↦ is_reply c ctx.rpc_txn root ]

  receive-holds_reply :
      (ctx : Ctx c) (root : c.Node) (room : Bool)
      → holds_reply ctx ≡ true
      → let ctx' = (receive c false ctx root room).0 in
        (holds_reply ctx' ≡ true) × (ctx'.rpc_txn ≡ ctx.rpc_txn)
  unfolding receive defer_event holds_reply
  receive-holds_reply ctx root room h = ground (arith, h)

  drain-holds_reply :
      (ctx : Ctx c) (frames : List (Incoming c))
      → holds_reply ctx ≡ true
      → let ctx' = (drain c false ctx frames).1.0 in
        (holds_reply ctx' ≡ true) × (ctx'.rpc_txn ≡ ctx.rpc_txn)
  unfolding drain
  drain-holds_reply ctx [] h = (h, refl)
  drain-holds_reply ctx (broken ∷ more) h = (h, refl)
  drain-holds_reply ctx (idle ∷ more) h = (h, refl)
  drain-holds_reply ctx (skipped ∷ more) h = drain-holds_reply ctx more h
  drain-holds_reply ctx (no_memory ∷ more) h = (h, refl)
  drain-holds_reply ctx (document root room ∷ more) h =
      let (kept, same) = receive-holds_reply ctx root room h in
      let (last, equal) = drain-holds_reply (receive c false ctx root room).0 more kept in
      (last, equal ∙ same)

  wait_reply-holds_reply :
      (ctx : Ctx c) (turns : List (Wait c))
      → holds_reply ctx ≡ true
      → (holds_reply (wait_reply c ctx turns) ≡ true)
        × ((wait_reply c ctx turns).rpc_txn ≡ ctx.rpc_txn)
  unfolding wait_reply
  wait_reply-holds_reply ctx [] h = (h, refl)
  wait_reply-holds_reply ctx (poll_error ∷ turns) h = (h, refl)
  wait_reply-holds_reply ctx (slice_over ∷ turns) h =
      ground (arith, h, wait_reply-holds_reply ctx turns h)
  wait_reply-holds_reply ctx (readable frames ∷ turns) h =
      let ctx' = (drain c false ctx frames).1.0 in
      let (kept, same) = drain-holds_reply ctx frames h in
      ground (arith, h, kept, same, wait_reply-holds_reply ctx' turns kept)

  is_text-some : (t : Option String) (s : String) → is_text t s ≡ true → t ≡ some s
  is_text-some none s h = absurd (ground arith)
  is_text-some (some t) s h = ap some ((eq_iff t s).0 h)

  is_reply-AnswersTo :
      (txn : String) (root : c.Node) → is_reply c (some txn) root ≡ true → AnswersTo txn root
  unfolding is_reply
  is_reply-AnswersTo txn root h = elim (Option-cases (text_of c (c.get_item root "janus"))) [
    | inl e ↦ absurd (ground (arith, h, e))
    | inr (t, e) ↦ record {
      transaction =
          is_text-some (text_of c (c.get_item root "transaction")) txn (ground (arith, h, e));
      type = ground (arith, h, e, eq_iff t "success", eq_iff t "ack", eq_iff t "error");
    }
  ]

  -- If a request over the WebSocket returns a document, that document has the transaction of the
  -- request and is a success, an ack or an error, and no request waits afterwards.
  pub rpc_json-is_reply :
      (ctx : Ctx c) (txn : String) (written : Bool) (turns : List (Wait c)) (root : c.Node)
      → (rpc_json c ctx txn written turns).0 ≡ some root
      → AnswersTo txn root × ((rpc_json c ctx txn written turns).1.rpc_txn ≡ none)
  unfolding rpc_json holds_reply
  rpc_json-is_reply ctx txn written turns root h =
      let start : Ctx c = record ctx { rpc_txn = some txn; rpc_result = none } in
      let (kept, same) = wait_reply-holds_reply start turns refl in
      let reply : is_reply c (some txn) root ≡ true = ground (arith, h, kept, same) in
      (is_reply-AnswersTo txn root reply, ground (arith, h, kept, same))
