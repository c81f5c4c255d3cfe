-- ===== src/Calls/Channel.antt =====
-- mod_janus.c: the handlers of Janus events from the lookups on, over the module's state and the
-- sessions. A `switch_core_session_t *` is a number.
use mod_janus.Base.{
  ℕ, String, Bool, true, false, Option, none, some, Status, success, notfound, ◌==◌, if◌then◌else◌,
}
use mod_janus.Base.Dict.{id_eq, find}
use mod_janus.Hash.{JanusId}
use mod_janus.Servers.{Server, Globals}
use mod_janus.Calls.{Session, Env, emit, hangup, normal_clearing, var_true, read_audio}
use mod_janus.Calls.Gate.{answered_session, participant_session, is_due}
use mod_janus.Calls.Media.{accepted_session, trickle_session}
use mod_janus.Calls.Joined.{joined_session, ConfigureArgs}

pub record World : Type 0 where
  pub globals : Globals
  pub sessions : ℕ → Session

-- A write through a session's private pointer.
unfoldable pub put_session : World → ℕ → Session → World
put_session w p s = record w { sessions = λ q. if p == q then s else w.sessions q }

-- hashFind of serverIdLookup, then of the server's senderIdLookup, with which each handler begins
unfoldable pub find_session : World → JanusId → JanusId → Option (ℕ × ℕ)
find_session w server_id sender_id = elim (find w.globals.by_id server_id) [
  | none ↦ none
  | some p ↦ elim (find (w.globals.heap p).sender_id_lookup sender_id) [
    | none ↦ none
    | some q ↦ some (p, q)
  ]
]

abbrev handle : World → Option (ℕ × ℕ) → (Server → Session → Status × Session) → Status × World
handle w none f = (notfound, w)
handle w (some (p, q)) f =
    let (status, s) = f (w.globals.heap p) (w.sessions q) in (status, put_session w q s)

-- A handler of the session that the two ids name.
unfoldable pub on_session :
    World → JanusId → JanusId → (Server → Session → Status × Session) → Status × World
unfolding find_session
on_session w server_id sender_id f = handle w (find_session w server_id sender_id) f

module _ (configure : Server → ConfigureArgs → Status) where
  -- joined: the room and participant ids are not used
  unfoldable pub joined : Env → World → JanusId → JanusId → Status × World
  unfolding on_session
  joined e w server_id sender_id =
      on_session w server_id sender_id (λ server s. joined_session configure e server s)

-- accepted
unfoldable pub accepted : Env → World → JanusId → JanusId → String → Status × World
unfolding on_session
accepted e w server_id sender_id sdp =
    on_session w server_id sender_id (λ server s. accepted_session e sdp s)

-- trickle
unfoldable pub trickle : Env → World → JanusId → JanusId → Option String → Status × World
unfolding on_session
trickle e w server_id sender_id candidate =
    on_session w server_id sender_id (λ server s. trickle_session e candidate s)

-- answered
unfoldable pub answered : Env → World → JanusId → JanusId → Status × World
unfolding on_session
answered e w server_id sender_id =
    on_session w server_id sender_id (λ server s. answered_session e s)

-- participant
unfoldable pub participant :
    Env → World → JanusId → JanusId → Option String → Bool → Bool → Status × World
unfolding on_session
participant e w server_id sender_id id is_self setup =
    on_session w server_id sender_id (λ server s. participant_session e id is_self setup s)

-- hungup: the reason is only logged
unfoldable pub hungup : World → JanusId → JanusId → Status × World
unfolding on_session
hungup w server_id sender_id =
    on_session w server_id sender_id (λ server s. (success, emit (hangup normal_clearing) s))

-- answer_on_webrtcup
unfoldable pub answer_on_webrtcup : Env → World → JanusId → JanusId → Bool
unfolding find_session
answer_on_webrtcup e w server_id sender_id = elim (find_session w server_id sender_id) [
  | none ↦ false
  | some x ↦ var_true e "answer_on_webrtcup"
]

-- channel_read_frame: past the deadline it answers, by the two ids of its session, and it reads
unfoldable pub read_frame : Env → World → ℕ → World
unfolding is_due answered
read_frame e w q =
    let s = w.sessions q in
    let ready = put_session w q (record s { remote_ready = true }) in
    let w' = if is_due e s then (answered e ready s.server_id s.sender_id).1 else w in
    put_session w' q (emit read_audio (w'.sessions q))
