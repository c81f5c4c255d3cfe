-- ===== src/Polling/Once.antt =====
-- api.c and mod_janus.c: a call is told to answer at most once, whatever Janus sends.
use Prim.Native.String.{◌++◌}
use mathlib.Core.Path.{subst}
use mod_janus.Base.{
  sym, ℕ, ◌+◌, String, ◌≡◌, refl, Bool, true, false, Option, none, some, List, [], ◌∷◌, arith,
  Status, ==_iff, Option-cases, inl, inr, or_else,
}
use mod_janus.Json.{JsonLib}
use mod_janus.Servers.{Server}
use mod_janus.Calls.{
  Env, Session, answers, emit, hangup, normal_clearing, add_ice_acl, set_audio, set_variable,
  set_ice, prepare_codecs,
}
use mod_janus.Calls.Gate.{arm_gate, answered_session, participant_session}
use mod_janus.Calls.Media.{
  build_sdp, pre_answer_session, negotiate_session, proceed, accepted_session, end_candidates,
  trickle_session,
}
use mod_janus.Calls.Joined.{ConfigureArgs, codec_setup, add_acls, prepare, joined_session}
use mod_janus.Calls.Channel.{
  World, find_session, put_session, on_session, joined, accepted, trickle, answered, participant,
  hungup, answer_on_webrtcup,
}
use mod_janus.Api.Dispatch.{
  Action, on_joined, on_accepted, on_trickle, on_answered, on_hungup, on_participant, Dispatched,
  calls, null_type, dispatch_poll_event,
}
use mod_janus.Polling.{env_for, perform, perform_all, handle_event, handle_events}

-- The count of answers grows with `answer_done`, which is never reset.
abbrev pub count : Bool → ℕ
count true = 1
count false = 0

abbrev pub Fair : Session → Session → Type 0
Fair s t = answers t.trace + count s.answer_done ≡ answers s.trace + count t.answer_done

pub Fair-trans : (s t u : Session) → Fair s t → Fair t u → Fair s u
Fair-trans s t u h k = omega (arith, h, k)

pub answered-Fair : (e : Env) (s : Session) → Fair s (answered_session e s).1
unfolding answered_session answers
answered-Fair e s = ground arith

participant-Fair :
    (e : Env) (id : Option String) (is_self setup : Bool) (s : Session)
    → Fair s (participant_session e id is_self setup s).1
unfolding participant_session answered_session answers
participant-Fair e id is_self setup s = ground arith

negotiate-Fair : (e : Env) (sdp : String) (s : Session) → Fair s (negotiate_session e sdp s).1
unfolding negotiate_session pre_answer_session answers
negotiate-Fair e sdp s = ground arith

proceed-Fair : (e : Env) (s : Session) → Fair s (proceed e s).1
unfolding proceed answers
proceed-Fair e s = elim (Option-cases s.sdp_body) [
  | inl h ↦ rw (h, proceed) (ground arith)
  | inr (body, h) ↦ elim (Option-cases (build_sdp body s.sdp_candidates)) [
    | inl k ↦ rw (h, proceed, k) (ground arith)
    | inr (sdp, k) ↦ rw (h, proceed, k) (negotiate-Fair e sdp s)
  ]
]

add_acls-Fair : (acls : List String) (s : Session) → Fair s (add_acls acls s)
unfolding add_acls answers
add_acls-Fair [] s = refl
add_acls-Fair (acl ∷ acls) s = add_acls-Fair acls (emit (add_ice_acl acl) s)

accepted-Fair : (e : Env) (sdp : String) (s : Session) → Fair s (accepted_session e sdp s).1
unfolding accepted_session
accepted-Fair e sdp s = ground (arith, proceed-Fair e (record s { sdp_body = some sdp }))

end_candidates-Fair : (e : Env) (s : Session) → Fair s (end_candidates e s).1
unfolding end_candidates
end_candidates-Fair e s =
    let ended : Session = record s {
      is_trickle_complete = true;
      sdp_candidates = some (or_else s.sdp_candidates "" ++ "a=end-of-candidates\r\n");
    } in
    ground (arith, proceed-Fair e ended)

trickle-Fair : (e : Env) (c : Option String) (s : Session) → Fair s (trickle_session e c s).1
unfolding trickle_session
trickle-Fair e none s = end_candidates-Fair e s
trickle-Fair e (some c) s = ground (arith, end_candidates-Fair e s)

arm-Fair : (e : Env) (s : Session) → Fair s (arm_gate e s)
unfolding arm_gate
arm-Fair e s = ground arith

codec-Fair : (e : Env) (server : Server) (s : Session) → Fair s (codec_setup e server s)
unfolding codec_setup answers
codec-Fair e server s = ground arith

prepare-Fair : (e : Env) (server : Server) (s : Session) → Fair s (prepare e server s)
unfolding prepare answers
prepare-Fair e server s =
    let armed = arm_gate e s in
    let s2 = emit set_audio (emit (set_variable "media_webrtc" (some "true")) armed) in
    let s3 = codec_setup e server s2 in
    let s4 = emit set_ice (emit prepare_codecs s3) in
    omega (arith, arm-Fair e s, codec-Fair e server s2, add_acls-Fair server.cand_acl s4)

joined-Fair :
    (configure : Server → ConfigureArgs → Status) (e : Env) (server : Server) (s : Session)
    → Fair s (joined_session configure e server s).1
unfolding joined_session answers
joined-Fair configure e server s = ground (arith, prepare-Fair e server s)

hungup-Fair : (s : Session) → Fair s (emit (hangup normal_clearing) s)
unfolding answers
hungup-Fair s = refl

-- The same for every session of the module.
abbrev pub AllFair : World → World → Type 0
AllFair w w' = (q : ℕ) → Fair (w.sessions q) (w'.sessions q)

pub AllFair-trans : (w v u : World) → AllFair w v → AllFair v u → AllFair w u
AllFair-trans w v u h k q = Fair-trans (w.sessions q) (v.sessions q) (u.sessions q) (h q) (k q)

pub put-AllFair :
    (w : World) (q : ℕ) (t : Session) → Fair (w.sessions q) t → AllFair w (put_session w q t)
unfolding put_session
put-AllFair w q t fair r = ground (arith, fair, ==_iff q r)

-- the sessions are those of a world that is fair
pub fair_of : (w v u : World) → u.sessions ≡ v.sessions → AllFair w v → AllFair w u
fair_of w v u same fair = subst (λ f. (q : ℕ) → Fair (w.sessions q) (f q)) (sym same) fair

pub on_session-AllFair :
    (w : World) (s x : ℕ) (f : Server → Session → Status × Session)
    → ((server : Server) (t : Session) → Fair t (f server t).1)
    → AllFair w (on_session w s x f).1
unfolding on_session put_session
on_session-AllFair w s x f fair q = elim (Option-cases (find_session w s x)) [
  | inl e ↦ rw (e, on_session) refl
  | inr ((p, r), e) ↦
      rw (e, on_session) (ground (arith, fair (w.globals.heap p) (w.sessions r), ==_iff r q))
]

module _ (configure : Server → ConfigureArgs → Status) (envs : ℕ → Env) where
  perform-AllFair : (a : Action) (w : World) → AllFair w (perform configure envs a w)
  unfolding perform joined accepted trickle answered participant hungup
  perform-AllFair (on_joined s x room id) w =
      on_session-AllFair w s x _ (joined-Fair configure (env_for envs w s x))
  perform-AllFair (on_accepted s x sdp) w =
      on_session-AllFair w s x _ (λ server. accepted-Fair (env_for envs w s x) sdp)
  perform-AllFair (on_trickle s x candidate) w =
      on_session-AllFair w s x _ (λ server. trickle-Fair (env_for envs w s x) candidate)
  perform-AllFair (on_answered s x) w =
      on_session-AllFair w s x _ (λ server. answered-Fair (env_for envs w s x))
  perform-AllFair (on_hungup s x reason) w = on_session-AllFair w s x _ (λ server. hungup-Fair)
  perform-AllFair (on_participant s x id is_self setup) w =
      on_session-AllFair w s x _
        (λ server. participant-Fair (env_for envs w s x) (some id) is_self setup)

  perform_all-AllFair :
      (actions : List Action) (w : World) → AllFair w (perform_all configure envs actions w)
  unfolding perform_all
  perform_all-AllFair [] w = λ q. refl
  perform_all-AllFair (a ∷ rest) w =
      let v = perform configure envs a w in
      AllFair-trans w v (perform_all configure envs rest v) (perform-AllFair a w)
        (perform_all-AllFair rest v)

  dispatched-AllFair :
      (d : Dispatched) (w w' : World)
      → elim d [ calls actions ↦ some (perform_all configure envs actions w) | null_type ↦ none ]
        ≡ some w'
      → AllFair w w'
  dispatched-AllFair (calls actions) w w' h =
      let last : perform_all configure envs actions w ≡ w' = ground (arith, h) in
      rw (← last) (perform_all-AllFair actions w)
  dispatched-AllFair null_type w w' h = absurd (ground (arith, h))

  handle_event-AllFair :
      (c : JsonLib) (event : c.Node) (w w' : World)
      → handle_event configure envs c event w ≡ some w'
      → AllFair w w'
  unfolding handle_event
  handle_event-AllFair c event w w' h =
      dispatched-AllFair
        (dispatch_poll_event c (λ s x. answer_on_webrtcup (env_for envs w s x) w s x) event) w w' h

  pub handle_events-AllFair :
      (c : JsonLib) (events : List c.Node) (w w' : World)
      → handle_events configure envs c events w ≡ some w'
      → AllFair w w'
  unfolding handle_events
  handle_events-AllFair c [] w w' h =
      let same : w ≡ w' = ground (arith, h) in rw (← same) (λ q. refl)
  handle_events-AllFair c (event ∷ more) w w' h =
      elim (Option-cases (handle_event configure envs c event w)) [
        | inl e ↦ absurd (ground (arith, h, e))
        | inr (v, e) ↦
            AllFair-trans w v w' (handle_event-AllFair c event w v e)
              (handle_events-AllFair c more v w' (ground (arith, h, e)))
      ]

  -- Whatever events Janus sends, in one response or over several, and whatever FreeSWITCH answers: a
  -- session that was not told to answer before is told so at most once, and exactly if its
  -- `answer_done` is set at the end.
  pub handle_events-answers :
      (c : JsonLib) (events : List c.Node) (w w' : World) (q : ℕ)
      → handle_events configure envs c events w ≡ some w'
      → answers (w.sessions q).trace ≡ 0
      → (w.sessions q).answer_done ≡ false
      → answers (w'.sessions q).trace ≡ count (w'.sessions q).answer_done
  handle_events-answers c events w w' q h quiet fresh =
      ground (arith, handle_events-AllFair c events w w' h q, quiet, fresh)
