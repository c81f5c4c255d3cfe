-- ===== src/Ws/Pump/Lossless.antt =====
-- janus_ws.c: no event that is read is lost.
use mathlib.Core.List.{append_assoc, append-nil}
use mod_janus.Base.{
  ℕ, ◌≤◌, ◌*◌, ◌≡◌, refl, sym, Bool, true, false, ◌&&◌, Option, none, some, List, [], ◌∷◌, ◌++◌,
  if◌then◌else◌, arith, Bool-cases, inl, inr, ◌==◌, not, ◌⊎◌,
}
use mod_janus.Json.{JsonLib}
use mod_janus.Ws.{Ctx, Incoming, Wait, poll_error, slice_over, readable, flush_deferred}
use mod_janus.Ws.Order.{events, drain-live}
use mod_janus.Ws.Pump.Arrivals.{requested, all_roomy, run_requests-requested}
use mod_janus.Ws.Pump.{Request, Slice, slice_ms, run_requests, pump_slices}

Wait-cases :
    {c : JsonLib} (t : Wait c)
    → (t ≡ poll_error) ⊎ (t ≡ slice_over) ⊎ ((frames : List (Incoming c)) × (t ≡ readable frames))
Wait-cases poll_error = inl refl
Wait-cases slice_over = inr (inl refl)
Wait-cases (readable frames) = inr (inr (frames, refl))

module _ (c : JsonLib) where
  -- the events that come while the slices of a poll run, in the order in which they are read
  unfoldable pub arrived : List (Slice c) → List c.Node
  unfolding requested events slice_ms
  arrived [] = []
  arrived (t ∷ ts) =
      let later = arrived ts in
      if t.remain_us == 0
      then []
      else requested c t.others ++ elim (t.poll (slice_ms t.remain_us)) [
        | poll_error ↦ []
        | slice_over ↦ later
        | readable frames ↦ events c none frames
      ]

  unfoldable pub slices_roomy : List (Slice c) → Bool
  unfolding all_roomy
  slices_roomy [] = true
  slices_roomy (t ∷ ts) = all_roomy c t.others && slices_roomy ts

  -- a slice runs
  unfoldable pub has_slice : List (Slice c) → Bool
  has_slice [] = false
  has_slice (t ∷ ts) = not (t.remain_us == 0)

  slice-arrived :
      (ctx : Ctx c) (t : Slice c)
      → all_roomy c t.others ≡ true
      → ctx.rpc_txn ≡ none
      → let (flushed, early) = flush_deferred c (run_requests c ctx t.others) in
        (early ≡ ctx.deferred ++ requested c t.others)
        × (flushed.deferred ≡ [])
        × (flushed.rpc_txn ≡ none)
  unfolding flush_deferred
  slice-arrived ctx t h free =
      let (all, idle_again) = run_requests-requested c ctx t.others h free in
      (all, refl, idle_again)

  -- Nothing that was deferred or is read is lost, dispatched twice or out of its order.
  pump_slices-arrived :
      (ctx : Ctx c) (last : ℕ) (ts : List (Slice c))
      → slices_roomy ts ≡ true
      → ctx.rpc_txn ≡ none
      → let r = pump_slices c ctx last ts in
        r.dispatched ++ r.ctx.deferred ≡ ctx.deferred ++ arrived ts
  unfolding pump_slices arrived slices_roomy
  pump_slices-arrived ctx last [] h free = sym (append-nil ctx.deferred)
  pump_slices-arrived ctx last (t ∷ ts) h free =
      let (flushed, early) = flush_deferred c (run_requests c ctx t.others) in
      let (sent, left, idle_again) = slice-arrived ctx t (ground (arith, h)) free in
      elim (Bool-cases (t.remain_us == 0)) [
        | inl e ↦ ground (arith, e, append-nil ctx.deferred)
        | inr e ↦ elim (Wait-cases (t.poll (slice_ms t.remain_us))) [
          | inl p ↦ ground (arith, e, p, sent, append-nil early, append-nil (requested c t.others))
          | inr (inl p) ↦
              let rest = pump_slices-arrived flushed last ts (ground (arith, h)) idle_again in
              let r = pump_slices c flushed last ts in
              ground (
                arith,
                e,
                p,
                sent,
                rest,
                append_assoc early r.dispatched r.ctx.deferred,
                append_assoc ctx.deferred (requested c t.others) (arrived ts),
              )
          | inr (inr (frames, p)) ↦
              let read = drain-live c flushed frames in
              ground (
                arith,
                e,
                p,
                sent,
                read,
                idle_again,
                append-nil (early ++ events c none frames),
                append_assoc ctx.deferred (requested c t.others) (events c none frames),
              )
        ]
      ]

  pump_slices-empties :
      (ctx : Ctx c) (last : ℕ) (ts : List (Slice c))
      → (ctx.deferred ≡ []) ⊎ (has_slice ts ≡ true)
      → (pump_slices c ctx last ts).ctx.deferred ≡ []
  unfolding pump_slices has_slice flush_deferred
  pump_slices-empties ctx last [] (inl e) = e
  pump_slices-empties ctx last [] (inr h) = absurd (ground (arith, h))
  pump_slices-empties ctx last (t ∷ ts) h =
      let flushed = (flush_deferred c (run_requests c ctx t.others)).0 in
      elim (Bool-cases (t.remain_us == 0)) [
        | inl e ↦ elim h [ inl g ↦ ground (arith, e, g) | inr g ↦ absurd (ground (arith, e, g)) ]
        | inr e ↦ elim (Wait-cases (t.poll (slice_ms t.remain_us))) [
          | inl p ↦ ground (arith, e, p)
          | inr (inl p) ↦ ground (arith, e, p, pump_slices-empties flushed last ts (inl refl))
          | inr (inr (frames, p)) ↦ ground (arith, e, p, drain-live c flushed frames)
        ]
      ]

  -- what a poll dispatches
  pub pump_slices-dispatched :
      (ctx : Ctx c) (last : ℕ) (ts : List (Slice c))
      → slices_roomy ts ≡ true
      → has_slice ts ≡ true
      → ctx.rpc_txn ≡ none
      → let r = pump_slices c ctx last ts in
        (r.dispatched ≡ ctx.deferred ++ arrived ts) × (r.ctx.deferred ≡ [])
  pump_slices-dispatched ctx last ts h runs free =
      let r = pump_slices c ctx last ts in
      let none_left = pump_slices-empties ctx last ts (inr runs) in
      (
        ground (arith, none_left, append-nil r.dispatched, pump_slices-arrived ctx last ts h free),
        none_left,
      )

  -- the keepalive of a poll as a request, if one is sent
  abbrev pub kept_alive : (c.Node → Request c) → Option c.Node → Bool → List (Request c)
  kept_alive exchange none due = []
  kept_alive exchange (some root) due = if due then exchange root ∷ [] else []

  -- A slice of a poll waits between 1 and 200 ms, and no longer than the time that remains unless
  -- that is under a millisecond.
  pub slice_ms_bounds :
      (remain_us : ℕ)
      → (1 ≤ slice_ms remain_us)
        × (slice_ms remain_us ≤ 200)
        × (1000 ≤ remain_us → slice_ms remain_us * 1000 ≤ remain_us)
  unfolding slice_ms
  slice_ms_bounds remain_us = ground arith
