-- ===== src/Api/Dispatch/Rules.antt =====
-- api.c: what the events of Janus may make the module do.
use mod_janus.Base.{
  String, ◌≡◌, refl, Bool, true, false, not, ◌&&◌, ◌||◌, Option, none, some, List, [], ◌∷◌,
  if◌then◌else◌, arith, str_eq, ◌==◌, ==_iff, eq_iff, Bool-cases, inl, inr,
}
use mod_janus.Hash.{JanusId}
use mod_janus.Json.{JsonLib}
use mod_janus.Api.{Message, item}
use mod_janus.Api.Dispatch.{
  Action, on_joined, on_accepted, on_trickle, on_answered, on_hungup, on_participant,
  participant_calls, dispatch_participants, self_joined, dispatch_joined, dispatch_result,
  dispatch_error, dispatch_other, dispatch_audiobridge_event, dispatch_plugin_event, dispatch_type,
}

-- The two ids that a handler is given.
abbrev pub ids : Action → JanusId × JanusId
ids (on_joined s x room participant) = (s, x)
ids (on_accepted s x sdp) = (s, x)
ids (on_trickle s x candidate) = (s, x)
ids (on_answered s x) = (s, x)
ids (on_hungup s x reason) = (s, x)
ids (on_participant s x id is_self setup) = (s, x)

-- Every action is for the session with these ids.
unfoldable pub all_for : JanusId → JanusId → List Action → Bool
all_for s x [] = true
all_for s x (a ∷ rest) = ((ids a).0 == s) && ((ids a).1 == x) && all_for s x rest

abbrev pub is_answered : Action → Bool
is_answered (on_answered s x) = true
is_answered a = false

abbrev pub is_accepted : Action → Bool
is_accepted (on_accepted s x sdp) = true
is_accepted a = false

unfoldable pub has : (Action → Bool) → List Action → Bool
has p [] = false
has p (a ∷ rest) = p a || has p rest

-- a text that is one literal is not another
other : (t a b : String) → str_eq a b ≡ false → str_eq t b ≡ true → str_eq t a ≡ false
other t a b h e = ground (arith, eq_iff t a, eq_iff t b, eq_iff a b)

module _ (c : JsonLib) where
  participant_calls-all_for :
      (m : Message c) (ps : List c.Node)
      → all_for m.server_id m.sender_id (participant_calls c m ps) ≡ true
  unfolding participant_calls all_for
  participant_calls-all_for m [] = refl
  participant_calls-all_for m (p ∷ ps) = ground (
    arith,
    participant_calls-all_for m ps,
    ==_iff m.server_id m.server_id,
    ==_iff m.sender_id m.sender_id,
  )

  dispatch_participants-all_for :
      (m : Message c) (ps : Option c.Node)
      → all_for m.server_id m.sender_id (dispatch_participants c m ps) ≡ true
  unfolding dispatch_participants all_for
  dispatch_participants-all_for m none = refl
  dispatch_participants-all_for m (some ps) =
      ground (arith, participant_calls-all_for m (c.children ps))

  participant_calls-has :
      (m : Message c) (ps : List c.Node)
      → (has is_answered (participant_calls c m ps) ≡ false)
        × (has is_accepted (participant_calls c m ps) ≡ false)
  unfolding participant_calls has
  participant_calls-has m [] = (refl, refl)
  participant_calls-has m (p ∷ ps) = ground (arith, participant_calls-has m ps)

  dispatch_participants-has :
      (m : Message c) (ps : Option c.Node)
      → (has is_answered (dispatch_participants c m ps) ≡ false)
        × (has is_accepted (dispatch_participants c m ps) ≡ false)
  unfolding dispatch_participants has
  dispatch_participants-has m none = (refl, refl)
  dispatch_participants-has m (some ps) = ground (arith, participant_calls-has m (c.children ps))

  dispatch_joined-all_for :
      (m : Message c) → all_for m.server_id m.sender_id (dispatch_joined c m) ≡ true
  unfolding dispatch_joined self_joined all_for
  dispatch_joined-all_for m = ground (
    arith,
    dispatch_participants-all_for m (item c m.body "participants"),
    ==_iff m.server_id m.server_id,
    ==_iff m.sender_id m.sender_id,
  )

  dispatch_joined-has :
      (m : Message c)
      → (has is_answered (dispatch_joined c m) ≡ false)
        × (has is_accepted (dispatch_joined c m) ≡ false)
  unfolding dispatch_joined self_joined has
  dispatch_joined-has m = ground (arith, dispatch_participants-has m (item c m.body "participants"))

module _ (c : JsonLib) (wait : JanusId → JanusId → Bool) where
  dispatch_event-all_for :
      (m : Message c) → all_for m.server_id m.sender_id (dispatch_audiobridge_event c wait m) ≡ true
  unfolding dispatch_audiobridge_event dispatch_result dispatch_other dispatch_error all_for
  dispatch_event-all_for m = ground (
    arith,
    dispatch_participants-all_for c m (item c m.body "participants"),
    ==_iff m.server_id m.server_id,
    ==_iff m.sender_id m.sender_id,
  )

  -- Whatever an event holds, each handler that it makes the module call is given the two ids of
  -- that event.
  pub dispatch_type-all_for :
      (event : c.Node) (m : Message c) (type : String)
      → all_for m.server_id m.sender_id (dispatch_type c wait event m type) ≡ true
  unfolding dispatch_type dispatch_plugin_event all_for
  dispatch_type-all_for event m type = ground (
    arith,
    dispatch_joined-all_for c m,
    dispatch_event-all_for m,
    ==_iff m.server_id m.server_id,
    ==_iff m.sender_id m.sender_id,
  )

  dispatch_event-answered :
      (m : Message c)
      → let acts = dispatch_audiobridge_event c wait m in
        has is_answered acts ≡ (has is_accepted acts && not (wait m.server_id m.sender_id))
  unfolding dispatch_audiobridge_event dispatch_result dispatch_other dispatch_error has
  dispatch_event-answered m =
      ground (arith, dispatch_participants-has c m (item c m.body "participants"))

  dispatch_plugin_event-answered :
      (m : Message c)
      → let acts = dispatch_plugin_event c wait m in
        has is_answered acts ≡ (has is_accepted acts && not (wait m.server_id m.sender_id))
  unfolding dispatch_plugin_event has
  dispatch_plugin_event-answered m =
      ground (arith, dispatch_joined-has c m, dispatch_event-answered m)

  -- The dispatch of an event calls `answered` itself, apart from the calls that the handler
  -- `participant` makes of it, in these cases only: the channel waits for WebRTC and the event is
  -- `webrtcup`, or it does not wait and the dispatch calls `accepted` for the event.
  pub dispatch_type-answered :
      (event : c.Node) (m : Message c) (type : String)
      → let acts = dispatch_type c wait event m type in
        has is_answered acts
        ≡ (if wait m.server_id m.sender_id then str_eq type "webrtcup" else has is_accepted acts)
  unfolding dispatch_type has
  dispatch_type-answered event m type = elim (Bool-cases (str_eq type "webrtcup")) [
    | inl e ↦
        rw
          (
            other type "keepalive" "webrtcup" refl e,
            other type "ack" "webrtcup" refl e,
            other type "hangup" "webrtcup" refl e,
            other type "detached" "webrtcup" refl e,
            e,
          )
          (ground arith)
    | inr e ↦ rw e (ground (arith, dispatch_plugin_event-answered m))
  ]
