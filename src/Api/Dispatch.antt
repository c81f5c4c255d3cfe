-- ===== src/Api/Dispatch.antt =====
-- api.c: api_dispatch_poll_event and api_dispatch_participants. The event is turned into the calls
-- of the handlers, in order; what the handlers return is only logged.
pub mod Rules
use mod_janus.Base.{
  ℕ, String, Bool, true, false, not, ◌&&◌, ◌||◌, Option, none, some, List, [], ◌∷◌, ◌++◌,
  if◌then◌else◌, str_eq, decimal,
}
use mod_janus.Hash.{JanusId}
use mod_janus.Json.{JsonLib}
use mod_janus.Api.{Message, item, text_of, is_text}
use mod_janus.Api.Decode.{decode}

-- A call of one of the handlers of mod_janus.c, with the ids of the session.
pub data Action : Type 0 where
  on_joined : JanusId → JanusId → JanusId → JanusId → Action
  on_accepted : JanusId → JanusId → String → Action
  on_trickle : JanusId → JanusId → Option String → Action
  on_answered : JanusId → JanusId → Action
  on_hungup : JanusId → JanusId → Option String → Action
  on_participant : JanusId → JanusId → String → Bool → Bool → Action

-- An event is handled by some calls, or strcmp is given the NULL type of the response.
pub data Dispatched : Type 0 where
  calls : List Action → Dispatched
  null_type : Dispatched

module _ (c : JsonLib) where
  -- an id that is a text, or a number that is printed; anything else has none
  unfoldable pub id_text : Option c.Node → Option String
  id_text none = none
  id_text (some n) = elim (c.string_value n) [
    | some s ↦ some s
    | none ↦ elim (c.number_value n) [ none ↦ none | some v ↦ some (decimal v.as_id) ]
  ]

  -- an id that is a number, or 0 for a text; anything else is wrong
  unfoldable pub id_number : c.Node → Option JanusId
  id_number n = elim (c.number_value n) [
    | some v ↦ some v.as_id
    | none ↦ elim (c.string_value n) [ none ↦ none | some _ ↦ some 0 ]
  ]

  abbrev is_true_item : Option c.Node → Bool
  is_true_item none = false
  is_true_item (some n) = c.is_true n

  -- the loop of api_dispatch_participants; a participant without a proper id is skipped
  unfoldable pub participant_calls : Message c → List c.Node → List Action
  unfolding id_text
  participant_calls m [] = []
  participant_calls m (p ∷ ps) =
      let rest = participant_calls m ps in
      elim (id_text (c.get_item p "id")) [
        | none ↦ rest
        | some id ↦
            on_participant m.server_id m.sender_id id false (is_true_item (c.get_item p "setup"))
            ∷ rest
      ]

  -- api_dispatch_participants: nothing is done unless the item is an array
  unfoldable pub dispatch_participants : Message c → Option c.Node → List Action
  unfolding participant_calls
  dispatch_participants m none = []
  dispatch_participants m (some ps) =
      if c.is_array ps then participant_calls m (c.children ps) else []

  -- the id of the participant, with which the local leg itself has joined
  unfoldable pub self_joined : Message c → JanusId → c.Node → List Action
  unfolding id_number id_text dispatch_participants
  self_joined m room id = elim (id_number id) [
    | none ↦ []
    | some participant ↦
        on_joined m.server_id m.sender_id room participant ∷ (elim (id_text (some id)) [
          | none ↦ dispatch_participants m (item c m.body "participants")
          | some text ↦
              on_participant m.server_id m.sender_id text true true
              ∷ dispatch_participants m (item c m.body "participants")
        ])
  ]

  -- audiobridge=joined: ourselves if there is an id, and somebody else if not
  unfoldable pub dispatch_joined : Message c → List Action
  unfolding self_joined
  dispatch_joined m = elim (item c m.body "room") [
    | none ↦ []
    | some room ↦ elim (id_number room) [
      | none ↦ []
      | some room_id ↦ elim (item c m.body "id") [
        | none ↦ dispatch_participants m (item c m.body "participants")
        | some id ↦ self_joined m room_id id
      ]
    ]
  ]

module _ (c : JsonLib) (answer_on_webrtcup : JanusId → JanusId → Bool) where
  -- `result` of audiobridge=event: ok with an answer. The call is answered now unless it is to be
  -- answered when WebRTC is up.
  unfoldable pub dispatch_result : Message c → c.Node → List Action
  dispatch_result m result =
      if not (is_text (c.string_value result) "ok")
      then []
      else if not (is_text (text_of c (item c m.jsep "type")) "answer")
      then []
      else elim (text_of c (item c m.jsep "sdp")) [
        | none ↦ []
        | some sdp ↦
            on_accepted m.server_id m.sender_id sdp
            ∷ (if answer_on_webrtcup m.server_id m.sender_id
                then []
                else on_answered m.server_id m.sender_id ∷ [])
      ]

  -- error_code with error: the join has failed
  unfoldable pub dispatch_error : Message c → c.Node → c.Node → List Action
  dispatch_error m code err = elim (c.number_value code) [
    | none ↦ []
    | some _ ↦ elim (c.string_value err) [
      | none ↦ []
      | some reason ↦ on_hungup m.server_id m.sender_id (some reason) ∷ []
    ]
  ]

  -- audiobridge=event without a result or a leaving
  unfoldable pub dispatch_other : Message c → List Action
  unfolding dispatch_error dispatch_participants
  dispatch_other m = elim (item c m.body "error_code") [
    | none ↦ dispatch_participants c m (item c m.body "participants")
    | some code ↦ elim (item c m.body "error") [
      | none ↦ dispatch_participants c m (item c m.body "participants")
      | some err ↦ dispatch_error m code err
    ]
  ]

  -- audiobridge=event
  unfoldable pub dispatch_audiobridge_event : Message c → List Action
  unfolding dispatch_result dispatch_other
  dispatch_audiobridge_event m = elim (item c m.body "result") [
    | some result ↦ dispatch_result m result
    | none ↦ elim (item c m.body "leaving") [ some _ ↦ [] | none ↦ dispatch_other m ]
  ]

  -- janus=event
  unfoldable pub dispatch_plugin_event : Message c → List Action
  unfolding dispatch_joined dispatch_audiobridge_event
  dispatch_plugin_event m = elim (text_of c (item c m.body "audiobridge")) [
    | none ↦ []
    | some kind ↦
        if str_eq kind "joined"
        then dispatch_joined c m
        else if str_eq kind "event"
        then dispatch_audiobridge_event m
        else []
  ]

  -- the cases of the type
  unfoldable pub dispatch_type : c.Node → Message c → String → List Action
  unfolding dispatch_plugin_event
  dispatch_type event m type =
      if str_eq type "keepalive" || str_eq type "ack"
      then []
      else if str_eq type "hangup"
      then elim (text_of c (c.get_item event "reason")) [
        | none ↦ []
        | some reason ↦ on_hungup m.server_id m.sender_id (some reason) ∷ []
      ]
      else if str_eq type "detached"
      then on_hungup m.server_id m.sender_id none ∷ []
      else if str_eq type "webrtcup"
      then (if answer_on_webrtcup m.server_id m.sender_id
          then on_answered m.server_id m.sender_id ∷ []
          else [])
      else if str_eq type "trickle"
      then on_trickle m.server_id m.sender_id m.candidate ∷ []
      else if str_eq type "event"
      then dispatch_plugin_event m
      else []

  -- api_dispatch_poll_event
  unfoldable pub dispatch_poll_event : c.Node → Dispatched
  unfolding dispatch_type
  dispatch_poll_event event = elim (decode c (some event)) [
    | none ↦ calls []
    | some m ↦ elim m.type [ none ↦ null_type | some type ↦ calls (dispatch_type event m type) ]
  ]
