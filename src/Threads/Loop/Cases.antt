-- ===== src/Threads/Loop/Cases.antt =====
-- mod_janus.c: the cases of a turn of the outer loop.
use mod_janus.Base.{ℕ, ◌≡◌, ◌⊎◌, inl, inr, refl, ap, true, false, Bool-cases, ◌==◌, if◌then◌else◌}
use mod_janus.Hash.{JanusId}
use mod_janus.Calls.Channel.{World}
use mod_janus.Threads.{put_server, claim_pass, create_pass}
use mod_janus.Threads.Loop.{
  Turn, Opening, as_it_is, opens, fails, opening, outer_turn, connect_pass, start_polling,
}

Opening-cases : (o : Opening) → (o ≡ as_it_is) ⊎ ((o ≡ opens) ⊎ (o ≡ fails))
Opening-cases as_it_is = inl refl
Opening-cases opens = inr (inl refl)
Opening-cases fails = inr (inr refl)

-- The session is created or claimed, and polling starts.
pub connect-cases :
    (t : Turn) (w : World) (p : ℕ) (id : JanusId)
    → (connect_pass t w p id ≡ start_polling t.now p (create_pass t.insert_ok t.now t.new_id w p))
      ⊎ (connect_pass t w p id
          ≡ start_polling t.now p (claim_pass t.visits t.insert_ok t.claim w p id))
unfolding connect_pass
connect-cases t w p id =
    let made = create_pass t.insert_ok t.now t.new_id w p in
    let claimed = claim_pass t.visits t.insert_ok t.claim w p id in
    elim (Bool-cases (id == 0)) [
      | inl z ↦ inl (ap (λ b. start_polling t.now p (if b then made else claimed)) z)
      | inr z ↦ inr (ap (λ b. start_polling t.now p (if b then made else claimed)) z)
    ]

-- the state with the handle of a WebSocket that was opened
abbrev pub opened : World → ℕ → World
opened w p = put_server w p (record (w.globals.heap p) { ws_handle = true })

-- The turn connects, opens the WebSocket first, or changes nothing.
pub outer-cases :
    (t : Turn) (w : World) (p : ℕ) (id : JanusId)
    → (outer_turn t w p id ≡ connect_pass t w p id)
      ⊎ ((outer_turn t w p id ≡ connect_pass t (opened w p) p id)
          ⊎ (outer_turn t w p id ≡ record { own_id = id; world = w; finished = false }))
unfolding outer_turn
outer-cases t w p id = elim (Opening-cases (opening t.open_ok (w.globals.heap p))) [
  | inl e ↦ inl (rw (e, outer_turn) refl)
  | inr (inl e) ↦ inr (inl (rw (e, outer_turn) refl))
  | inr (inr e) ↦ inr (inr (rw (e, outer_turn) refl))
]
