-- ===== src/Polling/Isolation.antt =====
-- api.c and mod_janus.c: an event reaches the session that its two ids name, and no other.
use mod_janus.Base.{
  sym, ℕ, ◌≡◌, ◌≢◌, refl, ◌∙◌, ap, Bool, true, none, some, List, [], ◌∷◌, arith, Status, ==_iff,
  Option-cases, inl, inr,
}
use mod_janus.Base.Dict.{id_eq}
use mod_janus.Hash.{JanusId}
use mod_janus.Json.{JsonLib}
use mod_janus.Servers.{Server}
use mod_janus.Calls.{Env, Session}
use mod_janus.Calls.Joined.{ConfigureArgs}
use mod_janus.Calls.Channel.{
  World, find_session, put_session, on_session, joined, accepted, trickle, answered, participant,
  hungup, answer_on_webrtcup,
}
use mod_janus.Api.{Message}
use mod_janus.Api.Decode.{decode}
use mod_janus.Api.Dispatch.{
  Action, on_joined, on_accepted, on_trickle, on_answered, on_hungup, on_participant, Dispatched,
  calls, null_type, dispatch_poll_event, dispatch_type,
}
use mod_janus.Api.Dispatch.Rules.{ids, all_for, dispatch_type-all_for}
use mod_janus.Polling.{env_for, perform, perform_all, handle_event, handle_events}

-- A session that two ids do not name.
abbrev pub IsOther : World → JanusId → JanusId → ℕ → Type 0
IsOther w s x q = (p : ℕ) → find_session w s x ≢ some (p, q)

-- What a handler leaves alone: the servers and tables, and the session `q`.
abbrev pub Same : ℕ → World → World → Type 0
Same q w w' = (w'.globals ≡ w.globals) × (w'.sessions q ≡ w.sessions q)

on_session-Same :
    (w : World) (s x : JanusId) (f : Server → Session → Status × Session) (q : ℕ)
    → IsOther w s x q
    → Same q w (on_session w s x f).1
unfolding on_session put_session
on_session-Same w s x f q other = elim (Option-cases (find_session w s x)) [
  | inl e ↦ rw (e, on_session) (refl, refl)
  | inr ((p, r), e) ↦ rw (e, on_session) (refl, ground (arith, e, other p, ==_iff r q))
]

-- the session that the ids of an action name is another
abbrev IsApart : World → Action → ℕ → Type 0
IsApart w a q = IsOther w (ids a).0 (ids a).1 q

module _ (configure : Server → ConfigureArgs → Status) (envs : ℕ → Env) where
  perform-Same :
      (a : Action) (w : World) (q : ℕ) → IsApart w a q → Same q w (perform configure envs a w)
  unfolding perform joined accepted trickle answered participant hungup
  perform-Same (on_joined s x room id) w q h = on_session-Same w s x _ q h
  perform-Same (on_accepted s x sdp) w q h = on_session-Same w s x _ q h
  perform-Same (on_trickle s x candidate) w q h = on_session-Same w s x _ q h
  perform-Same (on_answered s x) w q h = on_session-Same w s x _ q h
  perform-Same (on_hungup s x reason) w q h = on_session-Same w s x _ q h
  perform-Same (on_participant s x id is_self setup) w q h = on_session-Same w s x _ q h

  -- the lookups read the tables alone
  find_session-Same :
      (w w' : World) (s x : JanusId)
      → w'.globals ≡ w.globals
      → find_session w' s x ≡ find_session w s x
  unfolding find_session
  find_session-Same w w' s x h = rw h refl

  perform_all-Same :
      (actions : List Action) (w : World) (s x : JanusId) (q : ℕ)
      → all_for s x actions ≡ true
      → IsOther w s x q
      → Same q w (perform_all configure envs actions w)
  unfolding perform_all all_for
  perform_all-Same [] w s x q h other = (refl, refl)
  perform_all-Same (a ∷ rest) w s x q h other =
      let first : (ids a).0 ≡ s = (==_iff (ids a).0 s).0 (ground (arith, h)) in
      let second : (ids a).1 ≡ x = (==_iff (ids a).1 x).0 (ground (arith, h)) in
      let w' = perform configure envs a w in
      let (tables, session) = perform-Same a w q (rw (first, second) other) in
      let (tables', session') =
        perform_all-Same rest w' s x q (ground (arith, h))
          (λ p. rw (find_session-Same w w' s x tables) (other p)) in
      (tables' ∙ tables, session' ∙ session)

  handled :
      (d : Dispatched) (w w' : World)
      → elim d [ calls actions ↦ some (perform_all configure envs actions w) | null_type ↦ none ]
        ≡ some w'
      → (actions : List Action) × (d ≡ calls actions) × (perform_all configure envs actions w ≡ w')
  handled (calls actions) w w' h = (actions, refl, ground (arith, h))
  handled null_type w w' h = absurd (ground (arith, h))

  dispatch_poll_event-all_for :
      (c : JsonLib) (wait : JanusId → JanusId → Bool) (event : c.Node) (m : Message c)
      (actions : List Action)
      → decode c (some event) ≡ some m
      → dispatch_poll_event c wait event ≡ calls actions
      → all_for m.server_id m.sender_id actions ≡ true
  unfolding dispatch_poll_event
  dispatch_poll_event-all_for c wait event m actions read h = elim (Option-cases m.type) [
    | inl e ↦ absurd (ground (arith, read, h, e))
    | inr (type, e) ↦
        let same : dispatch_type c wait event m type ≡ actions = ground (arith, read, h, e) in
        rw (← same) (dispatch_type-all_for c wait event m type)
  ]

  -- An event from Janus changes at most the session that its `session_id` and `sender` name: every
  -- other session stays as it is, and so do the servers and the tables.
  pub handle_event-Same :
      (c : JsonLib) (event : c.Node) (m : Message c) (w w' : World) (q : ℕ)
      → decode c (some event) ≡ some m
      → IsOther w m.server_id m.sender_id q
      → handle_event configure envs c event w ≡ some w'
      → Same q w w'
  unfolding handle_event
  handle_event-Same c event m w w' q read other h =
      let wait : JanusId → JanusId → Bool = λ s x. answer_on_webrtcup (env_for envs w s x) w s x in
      let (actions, d, last) = handled (dispatch_poll_event c wait event) w w' h in
      rw (← last) (
        perform_all-Same actions w m.server_id m.sender_id q
          (dispatch_poll_event-all_for c wait event m actions read d) other)

  on_session-globals :
      (w : World) (s x : JanusId) (f : Server → Session → Status × Session)
      → (on_session w s x f).1.globals ≡ w.globals
  unfolding on_session put_session
  on_session-globals w s x f = elim (Option-cases (find_session w s x)) [
    | inl e ↦ rw (e, on_session) refl
    | inr ((p, r), e) ↦ rw (e, on_session) refl
  ]

  perform-globals : (a : Action) (w : World) → (perform configure envs a w).globals ≡ w.globals
  unfolding perform joined accepted trickle answered participant hungup
  perform-globals (on_joined s x room id) w = on_session-globals w s x _
  perform-globals (on_accepted s x sdp) w = on_session-globals w s x _
  perform-globals (on_trickle s x candidate) w = on_session-globals w s x _
  perform-globals (on_answered s x) w = on_session-globals w s x _
  perform-globals (on_hungup s x reason) w = on_session-globals w s x _
  perform-globals (on_participant s x id is_self setup) w = on_session-globals w s x _

  perform_all-globals :
      (actions : List Action) (w : World)
      → (perform_all configure envs actions w).globals ≡ w.globals
  unfolding perform_all
  perform_all-globals [] w = refl
  perform_all-globals (a ∷ rest) w =
      perform_all-globals rest (perform configure envs a w) ∙ perform-globals a w

  -- Events change neither the servers nor the tables.
  pub handle_events-globals :
      (c : JsonLib) (events : List c.Node) (w w' : World)
      → handle_events configure envs c events w ≡ some w'
      → w'.globals ≡ w.globals
  unfolding handle_events handle_event
  handle_events-globals c [] w w' h = ground (arith, h)
  handle_events-globals c (event ∷ more) w w' h =
      elim (Option-cases (handle_event configure envs c event w)) [
        | inl e ↦ absurd (ground (arith, h, e))
        | inr (v, e) ↦
            let wait : JanusId → JanusId → Bool =
              λ s x. answer_on_webrtcup (env_for envs w s x) w s x in
            let (actions, d, last) = handled (dispatch_poll_event c wait event) w v e in
            handle_events-globals c more v w' (ground (arith, h, e))
            ∙ (ap (λ x. x.globals) (sym last) ∙ perform_all-globals actions w)
      ]
