-- ===== src/Polling.antt =====
-- api.c and mod_janus.c together: apiPoll over HTTP, and the events that it dispatches to the
-- handlers. `envs` gives what FreeSWITCH answers for the channel of each session, and `configure` is
-- apiConfigure. What a handler returns is only logged.
pub mod Isolation
pub mod Once
pub mod Callbacks
pub mod Samples
mod Tests
use Prim.Native.String.{◌++◌}
use mod_janus.Base.{
  ℕ, String, Bool, true, false, Option, none, some, List, [], ◌∷◌, if◌then◌else◌, Status, success,
  failed, strlen, take, decimal, or_else, pos,
}
use mod_janus.Hash.{JanusId}
use mod_janus.Json.{JsonLib}
use mod_janus.Auth.{AuthLib, sign_token}
use mod_janus.Servers.{Server}
use mod_janus.Calls.{Env}
use mod_janus.Calls.Joined.{ConfigureArgs}
use mod_janus.Calls.Channel.{
  World, find_session, joined, accepted, trickle, answered, participant, hungup, answer_on_webrtcup,
}
use mod_janus.Api.{janus_plugin}
use mod_janus.Api.Encode.{lifecycle_ttl}
use mod_janus.Api.Dispatch.{
  Action, on_joined, on_accepted, on_trickle, on_answered, on_hungup, on_participant, Dispatched,
  calls, null_type, dispatch_poll_event,
}

-- the channel's answers for the session that two ids name; without one the handlers ask nothing
abbrev pub env_for : (ℕ → Env) → World → JanusId → JanusId → Env
env_for envs w server_id sender_id = elim (find_session w server_id sender_id) [
  | none ↦ envs 0
  | some (p, q) ↦ envs q
]

module _ (configure : Server → ConfigureArgs → Status) (envs : ℕ → Env) where
  -- a call of a handler through its function pointer
  unfoldable pub perform : Action → World → World
  perform (on_joined s x room id) w = (joined configure (env_for envs w s x) w s x).1
  perform (on_accepted s x sdp) w = (accepted (env_for envs w s x) w s x sdp).1
  perform (on_trickle s x candidate) w = (trickle (env_for envs w s x) w s x candidate).1
  perform (on_answered s x) w = (answered (env_for envs w s x) w s x).1
  perform (on_hungup s x reason) w = (hungup w s x).1
  perform (on_participant s x id is_self setup) w =
      (participant (env_for envs w s x) w s x (some id) is_self setup).1

  unfoldable pub perform_all : List Action → World → World
  unfolding perform
  perform_all [] w = w
  perform_all (a ∷ rest) w = perform_all rest (perform a w)

  -- api_dispatch_poll_event with the module's handlers; `none` where strcmp is given NULL
  unfoldable pub handle_event : (c : JsonLib) → c.Node → World → Option World
  unfolding perform_all
  handle_event c event w =
      elim (dispatch_poll_event c (λ s x. answer_on_webrtcup (env_for envs w s x) w s x) event) [
        | calls actions ↦ some (perform_all actions w)
        | null_type ↦ none
      ]

  -- the loop over the events of a response
  unfoldable pub handle_events : (c : JsonLib) → List c.Node → World → Option World
  unfolding handle_event
  handle_events c [] w = some w
  handle_events c (event ∷ more) w = elim (handle_event c event w) [
    | none ↦ none
    | some w' ↦ handle_events c more w'
  ]

-- snprintf behind the text in url[1024]: what does not fit is cut, which is not tested for
abbrev pub append_url : String → String → String
append_url url more = take 1023 (url ++ more)

-- the URL of a poll, with MAX_POLL_EVENTS (10), or `none` where no token can be signed
unfoldable pub poll_url : AuthLib → ℕ → Server → JanusId → Option String
poll_url auth now server server_id =
    let base =
      append_url "" (or_else server.url "" ++ ("/" ++ (decimal server_id ++ "?maxev=10"))) in
    let keyed : String = elim server.secret [
      | none ↦ base
      | some secret ↦ append_url base ("&apisecret=" ++ secret)
    ] in
    elim server.hmac_secret [
      | some secret ↦
          elim (sign_token auth now (some secret) (pos lifecycle_ttl) (some janus_plugin ∷ [])) [
            | none ↦ none
            | some token ↦ some (append_url keyed ("&token=" ++ token))
          ]
      | none ↦ elim server.auth_token [
        | none ↦ some keyed
        | some token ↦ some (append_url keyed ("&token=" ++ token))
      ]
    ]

-- apiPoll over HTTP. `fetch` is httpGet; the outer option is that of `handle_event`.
unfoldable pub poll_http :
    (Server → ConfigureArgs → Status)
    → (ℕ → Env)
    → (c : JsonLib) → AuthLib
    → (String → Option c.Node)
    → ℕ
    → Server
    → JanusId
    → World
    → Option (Status × World)
unfolding poll_url handle_events
poll_http configure envs c auth fetch now server server_id w =
    elim (poll_url auth now server server_id) [
      | none ↦ some (failed, w)
      | some url ↦ elim (fetch url) [
        | none ↦ some (failed, w)
        | some response ↦ elim (handle_events configure envs c (c.children response) w) [
          | none ↦ none
          | some w' ↦ some (success, w')
        ]
      ]
    ]
