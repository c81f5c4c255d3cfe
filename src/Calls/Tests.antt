-- ===== src/Calls/Tests.antt =====
-- The theorems of the calls at concrete sessions.
use mod_janus.Base.{
  String, ◌≡◌, refl, true, false, none, some, List, [], ◌∷◌, ◌≤◌, arith, has_substring,
}
use Prim.Native.String.{◌++◌}
use mod_janus.Base.Dict.{id_eq, find}
use mod_janus.Servers.{Globals, zeroed, store}
use mod_janus.Calls.{Session, answers}
use mod_janus.Calls.Samples.{quiet, idle, no_servers}
use mod_janus.Calls.Gate.{same_id, answered_session, participant_session, deadline_check}
use mod_janus.Calls.Gate.Answered.{
  GateEvent, requested, participant, gate_run, answers-run, answered_iff, any, late_after_request,
}
use mod_janus.Calls.Media.{build_sdp, accepted_session, end_candidates}
use mod_janus.Calls.Media.Order.{trickles, body_position}
use mod_janus.Calls.Media.Buffer.{overrun_iff}
use mod_janus.Calls.Channel.{World, find_session, put_session}
use mod_janus.Calls.Methods.{hmac_token_ttl, on_init}
use mod_janus.Calls.Methods.Ttl.{hmac_token_ttl_bounds}
use mod_janus.Calls.Methods.Counters.{calls_at, hung_up, init-hangup, refused-hangup}

abbrev gated : Session
gated = record idle { answer_gate = true; participant_id_str = some "me"; answer_deadline = 10000 }

abbrev ready_late : List GateEvent
ready_late =
    requested ∷ participant (some "me") false true ∷ participant (some "you") false true ∷ []

answers-run_example : answers (gate_run quiet ready_late gated).trace ≡ 1
unfolding gate_run answered_session participant_session deadline_check answers
answers-run_example = answers-run quiet ready_late gated

answered_iff_example : (gate_run quiet ready_late gated).answer_done ≡ true
unfolding any late_after_request same_id
answered_iff_example =
    answered_iff quiet "me" 10000 ready_late gated (omega arith)
      (record { gated = refl; own_id = refl; due = refl; not_done = refl; not_both = refl }) refl
      refl

body_position_example :
    (end_candidates quiet (
      trickles quiet
        ("b" ∷ [])
        (accepted_session quiet "v=0" (trickles quiet ("a" ∷ []) idle)).1)).1
    ≡ (accepted_session quiet "v=0"
        (end_candidates quiet (trickles quiet ("a" ∷ "b" ∷ []) idle)).1).1
unfolding has_substring
body_position_example =
    body_position quiet "v=0" refl ("a" ∷ []) ("b" ∷ []) idle (refl, _) (refl, _)
      (record { no_body = refl; not_complete = refl })

abbrev twice : String → String
twice s = s ++ s

-- 2048 characters
abbrev half : String
half = twice (twice (twice (twice (twice (twice (twice (twice "12345678")))))))

overrun_iff_example : build_sdp half (some half) ≡ none
overrun_iff_example = (overrun_iff half half).1 (omega arith)

hmac_token_ttl_bounds_example :
    (1 ≤ hmac_token_ttl (some "-5")) × (hmac_token_ttl (some "-5") ≤ 86400)
hmac_token_ttl_bounds_example = hmac_token_ttl_bounds (some "-5")

abbrev one_server : Globals
one_server = record no_servers {
  heap = λ p. record zeroed { server_id = 7; calls_in_progress = 2 };
  next = 1;
  by_id = (7, 0) ∷ [];
  calls_in_progress = 2;
}

abbrev world : World
world = record { globals = one_server; sessions = λ q. idle }

server_7 : find world.globals.by_id (world.sessions 3).server_id ≡ some 0
unfolding find
server_7 = refl

init-hangup_example :
    (calls_at (hung_up (λ s i c. 55) (λ s r. 66) quiet quiet world 3 0 server_7) 0 ≡ 2)
    × (find_session (hung_up (λ s i c. 55) (λ s r. 66) quiet quiet world 3 0 server_7) 7 55 ≡ none)
unfolding on_init put_session store find
init-hangup_example =
    init-hangup (λ s i c. 55) (λ s r. 66) quiet quiet world 3 0 server_7 (omega arith) refl

refused-hangup_example :
    calls_at (hung_up (λ s i c. 0) (λ s r. 66) quiet quiet world 3 0 server_7) 0 ≡ 1
unfolding on_init put_session store find
refused-hangup_example =
    refused-hangup (λ s i c. 0) (λ s r. 66) quiet quiet world 3 0 server_7 (λ h. cc)
