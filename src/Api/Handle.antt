-- ===== src/Api/Handle.antt =====
-- api.c: apiConfigure, apiLeave and apiDetach.
use mod_janus.Base.{
  ℕ, String, false, Option, none, some, if◌then◌else◌, Status, success, failed, ◌>>=◌,
}
use mod_janus.Hash.{JanusId}
use mod_janus.Json.{JsonLib}
use mod_janus.Auth.{AuthLib}
use mod_janus.Servers.{Server}
use mod_janus.Api.Encode.{add_string, add_optional}
use mod_janus.Api.Send.{Link, url_handle}
use mod_janus.Api.Session.{Reply, no_request, no_response, response, ask, request_to, answers_to}
use mod_janus.Api.Join.{acknowledged}
use mod_janus.Calls.Joined.{ConfigureArgs}

-- Where a body cannot be made, the function returns a status at once; the two items about the
-- recording leave the initial SWITCH_STATUS_SUCCESS in place.
pub data Built (c : JsonLib) : Type 0 where
  built : c.Node → Built c
  stopped : Status → Built c

module _ (c : JsonLib) where
  abbrev then_add : Option c.Node → Status → (c.Node → Built c) → Built c
  then_add none status f = stopped status
  then_add (some n) status f = f n

  -- the body of apiConfigure
  unfoldable pub configure_body : ConfigureArgs → Built c
  unfolding add_optional
  configure_body a = then_add c.create_object failed λ empty.
      then_add (add_string c empty "request" "configure") failed λ asked.
        then_add (c.add_item asked "muted" (c.bool_node a.muted)) failed λ muted.
          then_add (c.add_item muted "record" (c.bool_node a.record_call)) success λ recorded.
            then_add (add_optional c recorded "filename" a.recording_file) success
              λ filed. then_add (add_optional c filed "opaque_id" a.call_id) failed built

  -- the jsep of apiConfigure
  unfoldable pub jsep_object : String → String → Option c.Node
  jsep_object type sdp = do
    empty ← c.create_object
    typed ← add_string c empty "type" type
    fixed ← c.add_item typed "trickle" (c.bool_node false)
    add_string c fixed "sdp" sdp

  -- it is there if both the type and the SDP are
  unfoldable pub configure_jsep : Option String → Option String → Option (Option c.Node)
  unfolding jsep_object
  configure_jsep none sdp = some none
  configure_jsep (some type) none = some none
  configure_jsep (some type) (some sdp) = elim (jsep_object type sdp) [
    | none ↦ none
    | some j ↦ some (some j)
  ]

module _ (c : JsonLib) (auth : AuthLib) (link : Link c) where
  -- apiConfigure
  unfoldable pub configure : ℕ → Server → String → ConfigureArgs → Status
  unfolding configure_body configure_jsep ask acknowledged
  configure now server txn a = elim (configure_body c a) [
    | stopped status ↦ status
    | built body ↦ elim (configure_jsep c a.jsep_type a.sdp) [
      | none ↦ failed
      | some jsep ↦
          let m = record (request_to c server "message" txn) {
            server_id = a.server_id;
            body = some body;
            jsep = jsep;
          } in
          acknowledged c txn (ask c auth link now server m txn a.server_id a.sender_id url_handle)
    ]
  ]

  -- the body of apiLeave
  unfoldable pub leave_body : Option String → Option c.Node
  unfolding add_optional
  leave_body call_id = do
    empty ← c.create_object
    asked ← add_string c empty "request" "leave"
    add_optional c asked "opaque_id" call_id

  -- apiLeave
  unfoldable pub leave : ℕ → Server → String → JanusId → JanusId → Option String → Status
  unfolding leave_body ask acknowledged
  leave now server txn server_id sender_id call_id = elim (leave_body call_id) [
    | none ↦ failed
    | some body ↦
        let m = record (request_to c server "message" txn) {
          server_id = server_id;
          body = some body;
        } in
        acknowledged c txn (ask c auth link now server m txn server_id sender_id url_handle)
  ]

  -- apiDetach from the response on: no valid response still counts as success
  unfoldable pub detach_of : String → Reply c → Status
  detach_of txn no_request = failed
  detach_of txn no_response = success
  detach_of txn (response n m) = if answers_to c m "success" txn then success else failed

  -- apiDetach
  unfoldable pub detach : ℕ → Server → String → JanusId → JanusId → Status
  unfolding ask detach_of
  detach now server txn server_id sender_id =
      let m = record (request_to c server "detach" txn) { server_id = server_id } in
      detach_of txn (ask c auth link now server m txn server_id sender_id url_handle)
