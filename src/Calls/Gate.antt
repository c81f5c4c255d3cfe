-- ===== src/Calls/Gate.antt =====
-- mod_janus.c: the answer of a call and the gate that holds it back (`janus-answer-on-participant-
-- ready`), on the session that the two lookups have found. `answered`, `participant` and the
-- deadline test of channel_read_frame run whole: each decides under flag_mutex.
pub mod Answered
use mod_janus.Base.{
  ℕ, ◌+◌, ◌*◌, String, ◌≡◌, Bool, true, false, not, ◌&&◌, ◌||◌, Option, none, some, Status, success,
  failed, leb, ltb, ◌==◌, if◌then◌else◌, is_some, str_eq, atoi, at_least_zero,
}
use mod_janus.Calls.{Session, Env, var_true, emit, answer, mark_answered}

abbrev pub default_timeout_ms : ℕ
default_timeout_ms = 10000

-- atoi of `janus-answer-participant-timeout-ms`; the default where that is not positive
unfoldable pub answer_timeout_ms : Option String → ℕ
answer_timeout_ms none = default_timeout_ms
answer_timeout_ms (some v) =
    let ms = at_least_zero (atoi v) in if ms == 0 then default_timeout_ms else ms

-- The first part of `joined`: closes the gate if the channel asks for it.
unfoldable pub arm_gate : Env → Session → Session
unfolding answer_timeout_ms
arm_gate e s =
    if var_true e "janus-answer-on-participant-ready"
    then (record s {
      answer_gate = true;
      answer_deadline =
          e.now + answer_timeout_ms (e.variable "janus-answer-participant-timeout-ms") * 1000;
    })
    else s

-- answered, after the lookups
unfoldable pub answered_session : Env → Session → Status × Session
answered_session e s =
    if s.answer_done
    then (success, s)
    else if s.answer_gate && not s.remote_ready
    then (success, record s { answer_requested = true })
    else if e.answer_ok
    then (success, emit mark_answered (emit answer (record s { answer_done = true })))
    else (failed, emit answer (record s { answer_done = true }))

-- strcmp of two pointers that may be NULL, where NULL is never the same
unfoldable pub same_id : Option String → Option String → Bool
same_id none b = false
same_id (some a) none = false
same_id (some a) (some b) = str_eq a b

-- participant, after the lookups
unfoldable pub participant_session : Env → Option String → Bool → Bool → Session → Status × Session
unfolding answered_session same_id
participant_session e id is_self setup s =
    if is_self
    then (
      success,
      (if not (is_some s.participant_id_str) && is_some id
          then record s { participant_id_str = id }
          else s),
    )
    else if not s.answer_gate || s.answer_done
    then (success, s)
    else if same_id id s.participant_id_str
    then (success, s)
    else if not setup
    then (success, s)
    else if s.answer_requested
    then answered_session e (record s { remote_ready = true })
    else (success, record s { remote_ready = true })

-- channel_read_frame: Janus has asked for the answer, and the deadline has passed
unfoldable pub is_due : Env → Session → Bool
is_due e s =
    s.answer_gate
    && s.answer_requested
    && not s.answer_done
    && ltb 0 s.answer_deadline
    && leb s.answer_deadline e.now

-- channel_read_frame before it reads, for a session that the lookups of `answered` find; `read_frame`
-- of Calls.Channel makes those lookups, and answers nothing where they fail
unfoldable pub deadline_check : Env → Session → Session
unfolding is_due answered_session
deadline_check e s =
    if is_due e s then (answered_session e (record s { remote_ready = true })).1 else s
