-- ===== src/Calls/Media.antt =====
-- mod_janus.c: joined, accepted, trickle and proceed, on the session that the lookups have found.
pub mod Order
pub mod Buffer
use Prim.Native.String.{◌++◌}
use mod_janus.Base.{
  ℕ, ◌+◌, String, Bool, true, false, not, ◌&&◌, ◌||◌, Option, none, some, List, [], ◌∷◌, Status,
  success, failed, ltb, if◌then◌else◌, is_success, strlen, is_empty, take, has_substring, or_else,
}
use mod_janus.Hash.{JanusId}
use mod_janus.Servers.{Server}
use mod_janus.Calls.{
  Session, Env, Effect, var_true, emit, hangup, negotiate, activate_rtp, pre_answer,
  mark_pre_answered, mark_ring_ready, overrun, set_variable, set_audio, pass_rfc2833,
  prepare_codecs, set_ice, add_ice_acl, choose_ports, gen_local_sdp, network_out_of_order,
  media_timeout,
}
use mod_janus.Calls.Gate.{arm_gate}

-- char sdp[4096]
abbrev pub sdp_size : ℕ
sdp_size = 4096

-- strncat(buf, src, n) into a buffer of `sdp_size`: `none` where it writes behind the end
unfoldable pub strncat : String → String → ℕ → Option String
strncat buf src n =
    let out = buf ++ take n src in if ltb (strlen out) sdp_size then some out else none

-- The text that `proceed` puts together.
unfoldable pub build_sdp : String → Option String → Option String
unfolding strncat
build_sdp body none = strncat "" body 4095
build_sdp body (some candidates) = elim (strncat "" body 4095) [
  | none ↦ none
  | some sdp ↦ strncat sdp candidates 4095
]

-- proceed from the pre-answer on
unfoldable pub pre_answer_session : Env → Session → Status × Session
pre_answer_session e s =
    if e.pre_answer_ok
    then (success, record (emit mark_pre_answered (emit pre_answer s)) { voice = true })
    else (failed, emit pre_answer s)

-- proceed from the negotiation on
unfoldable pub negotiate_session : Env → String → Session → Status × Session
unfolding pre_answer_session
negotiate_session e sdp s =
    if e.negotiate_ok sdp
    then (if e.activate_ok
        then pre_answer_session e (emit activate_rtp (emit (negotiate sdp) s))
        else (
          failed,
          emit (hangup network_out_of_order) (emit activate_rtp (emit (negotiate sdp) s)),
        ))
    else pre_answer_session e (emit (hangup media_timeout) (emit (negotiate sdp) s))

-- proceed. Where the buffer is too small the call goes no further in this model.
unfoldable pub proceed : Env → Session → Status × Session
unfolding negotiate_session build_sdp
proceed e s = elim s.sdp_body [
  | none ↦ (failed, emit (hangup network_out_of_order) s)
  | some body ↦ elim (build_sdp body s.sdp_candidates) [
    | none ↦ (failed, emit overrun s)
    | some sdp ↦ negotiate_session e sdp s
  ]
]

-- accepted, after the lookups
unfoldable pub accepted_session : Env → String → Session → Status × Session
unfolding proceed
accepted_session e sdp s =
    let s' = record s { sdp_body = some sdp } in
    if has_substring "a=candidate:" sdp || s.is_trickle_complete
    then proceed e s'
    else (success, s')

-- trickle where the candidate ends the list: the body may be there already
unfoldable pub end_candidates : Env → Session → Status × Session
unfolding proceed
end_candidates e s =
    let s' = record s {
      is_trickle_complete = true;
      sdp_candidates = some (or_else s.sdp_candidates "" ++ "a=end-of-candidates\r\n");
    } in
    elim s.sdp_body [ none ↦ (success, s') | some body ↦ proceed e s' ]

-- trickle, after the lookups. A candidate that is NULL or empty ends the list.
unfoldable pub trickle_session : Env → Option String → Session → Status × Session
unfolding end_candidates
trickle_session e none s = end_candidates e s
trickle_session e (some c) s =
    let more = record s {
      sdp_candidates = some (or_else s.sdp_candidates "" ++ ("a=" ++ (c ++ "\r\n")));
    } in
    if is_empty c then end_candidates e s else (success, more)
