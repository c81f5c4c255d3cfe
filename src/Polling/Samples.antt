-- ===== src/Polling/Samples.antt =====
-- A channel that is answered on `webrtcup`, and such an event, for the concrete runs.
use mod_janus.Base.{some, is_some}
use mod_janus.Json.Small.{Json, text, number, object, entry, end}
use mod_janus.Calls.{Env}
use mod_janus.Calls.Samples.{quiet}

abbrev pub patient : Env
patient = record quiet { variable = λ k. some "true"; switch_true = is_some }

abbrev pub webrtcup : Json
webrtcup = object (
    entry "janus" (text "webrtcup")
      (entry "session_id" (number 7) (entry "sender" (number 88) end)))
