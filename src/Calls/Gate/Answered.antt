-- ===== src/Calls/Gate/Answered.antt =====
-- mod_janus.c: when a call is answered, over any sequence of the events that bear on it.
use mod_janus.Base.{
  ℕ, ◌+◌, ◌<◌, String, ◌≡◌, ◌⊎◌, inl, inr, refl, Bool, true, false, not, ◌&&◌, ◌||◌, Option, some,
  List, [], ◌∷◌, leb, if◌then◌else◌, arith,
}
use mod_janus.Calls.{Session, Env, answers}
use mod_janus.Calls.Gate.{answered_session, participant_session, deadline_check, same_id}

-- Janus asks for the answer, reports a participant, or a frame is read at a time.
pub data GateEvent : Type 0 where
  requested : GateEvent
  participant : Option String → Bool → Bool → GateEvent
  frame : ℕ → GateEvent

abbrev pub gate_step : Env → GateEvent → Session → Session
gate_step e requested s = (answered_session e s).1
gate_step e (participant id is_self setup) s = (participant_session e id is_self setup s).1
gate_step e (frame t) s = deadline_check (record e { now = t }) s

unfoldable pub gate_run : Env → List GateEvent → Session → Session
gate_run e [] s = s
gate_run e (x ∷ es) s = gate_run e es (gate_step e x s)

abbrev count : Bool → ℕ
count true = 1
count false = 0

answers-step :
    (e : Env) (x : GateEvent) (s : Session)
    → answers (gate_step e x s).trace + count s.answer_done
      ≡ answers s.trace + count (gate_step e x s).answer_done
unfolding answered_session participant_session deadline_check answers
answers-step e requested s = ground arith
answers-step e (participant id is_self setup) s = ground arith
answers-step e (frame t) s = ground arith

-- Over any sequence of events, the number of times that the channel is told to answer grows by one
-- if the events turn `answer_done` from false to true, and not at all otherwise.
pub answers-run :
    (e : Env) (es : List GateEvent) (s : Session)
    → answers (gate_run e es s).trace + count s.answer_done
      ≡ answers s.trace + count (gate_run e es s).answer_done
unfolding gate_run
answers-run e [] s = refl
answers-run e (x ∷ es) s = omega (arith, answers-step e x s, answers-run e es (gate_step e x s))

-- The three things that the answer depends on, read off the events.
abbrev pub is_request : GateEvent → Bool
is_request requested = true
is_request _ = false

-- another participant than `own` has reached setup:true
abbrev pub is_ready : String → GateEvent → Bool
is_ready own (participant id false true) = not (same_id id (some own))
is_ready own _ = false

abbrev pub is_late : ℕ → GateEvent → Bool
is_late deadline (frame t) = leb deadline t
is_late deadline _ = false

unfoldable pub any : (GateEvent → Bool) → List GateEvent → Bool
any p [] = false
any p (x ∷ es) = p x || any p es

-- a frame is read past the deadline after a request
unfoldable pub late_after_request : ℕ → List GateEvent → Bool
unfolding any
late_after_request d [] = false
late_after_request d (x ∷ es) = if is_request x then any (is_late d) es else late_after_request d es

-- A session whose gate is closed and that is not answered yet.
pub record IsGated (own : String) (deadline : ℕ) (s : Session) : Type 0 where
  pub gated : s.answer_gate ≡ true
  pub own_id : s.participant_id_str ≡ some own
  pub due : s.answer_deadline ≡ deadline
  pub not_done : s.answer_done ≡ false
  pub not_both : (s.answer_requested && s.remote_ready) ≡ false

abbrev expected : String → ℕ → Bool → Bool → List GateEvent → Bool
expected own d r q es =
    ((r || any is_request es) && (q || any (is_ready own) es))
    || (if r then any (is_late d) es else late_after_request d es)

done-run :
    (e : Env) (es : List GateEvent) (s : Session)
    → s.answer_done ≡ true
    → (gate_run e es s).answer_done ≡ true
unfolding gate_run answered_session participant_session deadline_check
done-run e [] s h = h
done-run e (requested ∷ es) s h = done-run e es _ (ground arith)
done-run e (participant id is_self setup ∷ es) s h = done-run e es _ (ground arith)
done-run e (frame t ∷ es) s h = done-run e es _ (ground arith)

-- What one event does to a session that waits: it answers, or goes on waiting.
abbrev Waits : String → ℕ → Session → Bool → Bool → Type 0
Waits own d s r q = IsGated own d s × (s.answer_requested ≡ r) × (s.remote_ready ≡ q)

module _ (e : Env) (own : String) (d : ℕ) (s : Session) (g : IsGated own d s) where
  requested-Waits :
      (((answered_session e s).1.answer_done ≡ true) × (s.remote_ready ≡ true))
      ⊎ (Waits own d (answered_session e s).1 true false × (s.remote_ready ≡ false))
  unfolding answered_session
  requested-Waits = ground arith

  participant-Waits :
      (id : Option String) (is_self setup : Bool)
      → let x = participant id is_self setup in
        (((gate_step e x s).answer_done ≡ true)
          × (s.answer_requested ≡ true)
          × (is_ready own x ≡ true))
        ⊎ (Waits own d (gate_step e x s) s.answer_requested (s.remote_ready || is_ready own x)
            × ((s.answer_requested && is_ready own x) ≡ false))
  unfolding participant_session answered_session
  participant-Waits id true setup = ground arith
  participant-Waits id false true = ground arith
  participant-Waits id false false = ground arith

  frame-Waits :
      (t : ℕ)
      → 0 < d
      → (((gate_step e (frame t) s).answer_done ≡ true)
          × (s.answer_requested ≡ true)
          × (leb d t ≡ true))
        ⊎ (Waits own d (gate_step e (frame t) s) s.answer_requested s.remote_ready
            × ((s.answer_requested && leb d t) ≡ false))
  unfolding deadline_check answered_session
  frame-Waits t pos = ground arith

answered-general :
    (e : Env) (own : String) (d : ℕ) (es : List GateEvent) (s : Session)
    → 0 < d
    → IsGated own d s
    → (gate_run e es s).answer_done ≡ expected own d s.answer_requested s.remote_ready es
unfolding gate_run any late_after_request
answered-general e own d [] s pos g = ground arith
answered-general e own d (requested ∷ es) s pos g = elim (requested-Waits e own d s g) [
  | inl (dn, q) ↦ ground (arith, done-run e es (gate_step e requested s) dn, q)
  | inr ((g', r', q'), q) ↦
      ground (arith, answered-general e own d es (gate_step e requested s) pos g', r', q', q)
]
answered-general e own d (participant id self setup ∷ es) s pos g =
    elim (participant-Waits e own d s g id self setup) [
      | inl (dn, r, y) ↦
          ground (arith, done-run e es (gate_step e (participant id self setup) s) dn, r, y)
      | inr ((g', r', q'), n) ↦ ground (
        arith,
        answered-general e own d es (gate_step e (participant id self setup) s) pos g',
        r',
        q',
        n,
      )
    ]
answered-general e own d (frame t ∷ es) s pos g = elim (frame-Waits e own d s g t pos) [
  | inl (dn, r, y) ↦ ground (arith, done-run e es (gate_step e (frame t) s) dn, r, y)
  | inr ((g', r', q'), n) ↦
      ground (arith, answered-general e own d es (gate_step e (frame t) s) pos g', r', q', n)
]

-- A call whose gate is closed with a deadline, whose own participant id is known, that is not
-- answered, not asked for and without a ready participant, ends up answered exactly if Janus has
-- asked for the answer and another participant is ready, in either order, or a frame was read past
-- the deadline after Janus had asked.
pub answered_iff :
    (e : Env) (own : String) (d : ℕ) (es : List GateEvent) (s : Session)
    → 0 < d
    → IsGated own d s
    → s.answer_requested ≡ false
    → s.remote_ready ≡ false
    → (gate_run e es s).answer_done
      ≡ ((any is_request es && any (is_ready own) es) || late_after_request d es)
answered_iff e own d es s pos g r q = ground (arith, answered-general e own d es s pos g, r, q)
