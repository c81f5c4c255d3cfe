-- ===== src/Ws/Order.antt =====
-- janus_ws.c: events that arrive during a request are kept, in their order.
use mathlib.Core.List.{append_assoc, append-nil}
use mod_janus.Base.{
  String, ◌≡◌, refl, sym, ap, ◌∙◌, Bool, true, false, ◌&&◌, Option, none, some, List, [], ◌∷◌, ◌++◌,
  if◌then◌else◌, arith, Bool-cases, inl, inr,
}
use mod_janus.Json.{JsonLib}
use mod_janus.Ws.{
  Ctx, Incoming, broken, idle, skipped, no_memory, document, is_reply, defer_event, receive, drain,
  flush_deferred,
}

module _ (c : JsonLib) where
  -- the events among the frames that a drain reads, for the request that waits
  unfoldable pub events : Option String → List (Incoming c) → List c.Node
  events txn [] = []
  events txn (broken ∷ more) = []
  events txn (idle ∷ more) = []
  events txn (skipped ∷ more) = events txn more
  events txn (no_memory ∷ more) = []
  events txn (document root room ∷ more) =
      let rest = events txn more in if is_reply c txn root then rest else root ∷ rest

  -- there is memory to defer every event
  unfoldable pub has_room : List (Incoming c) → Bool
  has_room [] = true
  has_room (document root room ∷ more) = room && has_room more
  has_room (x ∷ more) = has_room more

  pub drain-live :
      (ctx : Ctx c) (frames : List (Incoming c))
      → ((drain c true ctx frames).1.1 ≡ events ctx.rpc_txn frames)
        × ((drain c true ctx frames).1.0.deferred ≡ ctx.deferred)
  unfolding drain receive events
  drain-live ctx [] = (refl, refl)
  drain-live ctx (broken ∷ more) = (refl, refl)
  drain-live ctx (idle ∷ more) = (refl, refl)
  drain-live ctx (skipped ∷ more) = drain-live ctx more
  drain-live ctx (no_memory ∷ more) = (refl, refl)
  drain-live ctx (document root room ∷ more) = elim (Bool-cases (is_reply c ctx.rpc_txn root)) [
    | inl e ↦ rw e (drain-live (record ctx { rpc_result = some root }) more)
    | inr e ↦ let (all, kept) = drain-live ctx more in rw e (ap (λ t. root ∷ t) all, kept)
  ]

  pub drain-deferred :
      (ctx : Ctx c) (frames : List (Incoming c))
      → has_room frames ≡ true
      → (drain c false ctx frames).1.0.deferred ≡ ctx.deferred ++ events ctx.rpc_txn frames
  unfolding drain receive events defer_event has_room
  drain-deferred ctx [] h = sym (append-nil ctx.deferred)
  drain-deferred ctx (broken ∷ more) h = sym (append-nil ctx.deferred)
  drain-deferred ctx (idle ∷ more) h = sym (append-nil ctx.deferred)
  drain-deferred ctx (skipped ∷ more) h = drain-deferred ctx more h
  drain-deferred ctx (no_memory ∷ more) h = sym (append-nil ctx.deferred)
  drain-deferred ctx (document root room ∷ more) h =
      elim (Bool-cases (is_reply c ctx.rpc_txn root)) [
        | inl e ↦
            rw e (drain-deferred (record ctx { rpc_result = some root }) more (ground (arith, h)))
        | inr e ↦
            let place : room ≡ true = ground (arith, h) in
            rw (e, place)
              (drain-deferred (record ctx { deferred = ctx.deferred ++ (root ∷ []) }) more
                  (ground (arith, h))
                ∙ append_assoc ctx.deferred (root ∷ []) (events ctx.rpc_txn more))
      ]

  -- With memory to defer each event that is read while a request waits, the flush and a later drain
  -- dispatch the events deferred before, those read during the request and those read by the drain,
  -- each once and in the order in which they came.
  pub flush-drain :
      (ctx : Ctx c) (during after : List (Incoming c))
      → has_room during ≡ true
      → let waited = (drain c false ctx during).1.0 in
        let (flushed, early) = flush_deferred c waited in
        early ++ (drain c true (record flushed { rpc_txn = none; rpc_result = none }) after).1.1
        ≡ ctx.deferred ++ (events ctx.rpc_txn during ++ events none after)
  unfolding flush_deferred
  flush-drain ctx during after h =
      let waited = (drain c false ctx during).1.0 in
      rw
        (
          (drain-live (record waited { deferred = []; rpc_txn = none; rpc_result = none }) after).0,
          drain-deferred ctx during h,
        )
        (append_assoc ctx.deferred (events ctx.rpc_txn during) (events none after))
