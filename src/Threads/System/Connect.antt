-- ===== src/Threads/System/Connect.antt =====
-- mod_janus.c: a turn of the outer loop keeps the session ids consistent.
use mathlib.Core.Path.{subst}
use mod_janus.Base.{
  sym, ℕ, ◌≡◌, ◌≢◌, ◌⊎◌, inl, inr, refl, true, false, none, arith, ◌==◌, ==_iff, if◌then◌else◌,
  Bool-cases,
}
use mod_janus.Base.Dict.{id_eq, find}
use mod_janus.Hash.{JanusId}
use mod_janus.Servers.{store}
use mod_janus.Calls.Channel.{World}
use mod_janus.Threads.{Pass, put_server, create_pass, claim_pass}
use mod_janus.Threads.Loop.{
  Turn, start_polling, connect_pass, Opening, as_it_is, opens, fails, opening, outer_turn,
}
use mod_janus.Threads.System.{System, hold, IsFresh}
use mod_janus.Threads.System.Invariant.{IsConsistent, IsQuiet-IsConsistent}
use mod_janus.Threads.System.Claim.{
  passed, create-IsConsistent, keep-IsConsistent, claim-IsConsistent,
}

start_polling-IsConsistent :
    (now : ℕ) (s : System) (p : ℕ) (r : Pass)
    → IsConsistent (passed s p r)
    → IsConsistent (passed s p (start_polling now p r))
unfolding start_polling put_server store hold
start_polling-IsConsistent now s p r k =
    IsQuiet-IsConsistent (passed s p r) (passed s p (start_polling now p r))
      (record {
        own = λ q. ground arith;
        table = λ j. ground arith;
        ids = λ q. ground (arith, ==_iff p q);
      })
      k

connect-IsConsistent :
    (t : Turn) (s : System) (p : ℕ)
    → find s.world.globals.by_id (s.own p) ≡ none
    → (t.new_id ≢ 0 → IsFresh s t.new_id)
    → IsConsistent s
    → IsConsistent (passed s p (connect_pass t s.world p (s.own p)))
unfolding connect_pass
connect-IsConsistent t s p lost fresh k =
    let r =
      if s.own p == 0
      then create_pass t.insert_ok t.now t.new_id s.world p
      else claim_pass t.visits t.insert_ok t.claim s.world p (s.own p) in
    start_polling-IsConsistent t.now s p r (elim (Bool-cases (s.own p == 0)) [
      | inl e ↦
          rw e
            (create-IsConsistent t.insert_ok t.now t.new_id s p ((==_iff (s.own p) 0).0 e) fresh k)
      | inr e ↦
          rw e
            (claim-IsConsistent t.visits t.insert_ok t.claim s p (λ z. ground (arith, e, z)) lost k)
    ])

-- the state with an open WebSocket
abbrev opened : World → ℕ → World
opened w p = put_server w p (record (w.globals.heap p) { ws_handle = true })

abbrev unopened : World → JanusId → Pass
unopened w id = record { own_id = id; world = w; finished = false }

Opening-cases : (o : Opening) → (o ≡ as_it_is) ⊎ (o ≡ opens) ⊎ (o ≡ fails)
Opening-cases as_it_is = inl refl
Opening-cases opens = inr (inl refl)
Opening-cases fails = inr (inr refl)

outer_turn-cases :
    (t : Turn) (w : World) (p : ℕ) (id : JanusId)
    → (outer_turn t w p id ≡ connect_pass t w p id)
      ⊎ (outer_turn t w p id ≡ connect_pass t (opened w p) p id)
      ⊎ (outer_turn t w p id ≡ unopened w id)
unfolding outer_turn connect_pass
outer_turn-cases t w p id = elim (Opening-cases (opening t.open_ok (w.globals.heap p))) [
  | inl e ↦ inl (rw (outer_turn, e) refl)
  | inr (inl e) ↦ inr (inl (rw (outer_turn, e) refl))
  | inr (inr e) ↦ inr (inr (rw (outer_turn, e) refl))
]

-- A turn of the outer loop, whether a WebSocket opens or not.
pub outer-IsConsistent :
    (t : Turn) (s : System) (p : ℕ)
    → find s.world.globals.by_id (s.own p) ≡ none
    → (t.new_id ≢ 0 → IsFresh s t.new_id)
    → IsConsistent s
    → IsConsistent (passed s p (outer_turn t s.world p (s.own p)))
unfolding put_server store hold
outer-IsConsistent t s p lost fresh k =
    let s' = record s { world = opened s.world p } in
    let consistent : IsConsistent s' =
      IsQuiet-IsConsistent s s'
        (record { own = λ q. refl; table = λ j. refl; ids = λ q. ground (arith, ==_iff p q) }) k in
    let still_fresh : t.new_id ≢ 0 → IsFresh s' t.new_id = λ z. record {
      unheld = (fresh z).unheld;
      unused = λ q h. (fresh z).unused q (ground (arith, h, ==_iff p q));
    } in
    let at : (r : Pass)
        → outer_turn t s.world p (s.own p) ≡ r
        → IsConsistent (passed s p r)
        → IsConsistent (passed s p (outer_turn t s.world p (s.own p))) =
      λ r e h. subst (λ x. IsConsistent (passed s p x)) (sym e) h in
    elim (outer_turn-cases t s.world p (s.own p)) [
      | inl e ↦ at _ e (connect-IsConsistent t s p lost fresh k)
      | inr (inl e) ↦ at _ e (connect-IsConsistent t s' p lost still_fresh consistent)
      | inr (inr e) ↦ at _ e (
          keep-IsConsistent s p (unopened s.world (s.own p)) refl
            (record { table = λ id. refl; ids = λ q. inl refl }) k)
    ]
