-- ===== src/Api/Join.antt =====
-- api.c: apiJoin. In the signed mode the token also names the room, and is sent twice: at the top
-- level by `encode`, and in the body, which is changed in place after it has been attached.
pub mod Token
use Prim.Native.String.{◌++◌}
use mod_janus.Base.{
  ℕ, String, Bool, true, false, Option, none, some, [], ◌∷◌, if◌then◌else◌, Status, success, failed,
  ltb, ◌>>=◌, is_empty, decimal, take,
}
use mod_janus.Hash.{JanusId}
use mod_janus.Json.{JsonLib}
use mod_janus.Auth.{AuthLib}
use mod_janus.Servers.{Server}
use mod_janus.Api.{Message}
use mod_janus.Api.Encode.{add_string, add_optional, encode}
use mod_janus.Api.Send.{Link, url_handle, send_request}
use mod_janus.Api.Session.{
  Reply, no_request, no_response, response, request_to, answers_to, read_reply,
}
use mod_janus.Api.Room.{add_room}
use mod_janus.Calls.Methods.{JoinArgs, call_ttl}

-- char roomDesc[96]: the descriptor of the room, cut at 95 characters
unfoldable pub room_descriptor : Option String → JanusId → String
room_descriptor none room_id = take 95 ("room=" ++ decimal room_id)
room_descriptor (some text) room_id =
    if is_empty text then take 95 ("room=" ++ decimal room_id) else take 95 ("room=" ++ text)

-- The response to a request that Janus only acknowledges (apiJoin, apiConfigure, apiLeave).
unfoldable pub acknowledged : (c : JsonLib) → String → Reply c → Status
acknowledged c txn no_request = failed
acknowledged c txn no_response = failed
acknowledged c txn (response n m) = if answers_to c m "ack" txn then success else failed

module _ (c : JsonLib) where
  -- the body of the request; a server that signs ignores the caller's token
  unfoldable pub join_body : Server → JoinArgs → Option c.Node
  unfolding add_room add_optional
  join_body server a = do
    empty ← c.create_object
    asked ← add_string c empty "request" "join"
    roomed ← add_room c asked a.room_id_str a.room_id
    pinned ← add_optional c roomed "pin" a.pin
    shown ← add_optional c pinned "display" a.display
    tokened ←
        add_optional c shown "token" (elim server.hmac_secret [ none ↦ a.token | some _ ↦ none ])
    add_optional c tokened "opaque_id" a.call_id

  -- the message of the request
  unfoldable pub join_message : Server → String → JoinArgs → c.Node → Message c
  unfolding room_descriptor
  join_message server txn a body = record (request_to c server "message" txn) {
    server_id = a.server_id;
    hmac_token_ttl = if ltb 0 a.ttl then a.ttl else call_ttl;
    extra = elim server.hmac_secret [
      | none ↦ []
      | some _ ↦ some (room_descriptor a.room_id_str a.room_id) ∷ []
    ];
    body = some body;
  }

  -- the signed token is put into the body that the request holds
  unfoldable pub mirror_token : c.Node → c.Node → Option String → Option c.Node
  mirror_token request body none = some request
  mirror_token request body (some token) = do
    marked ← add_string c body "token" token
    some (c.change_item request "body" marked)

  -- the whole request
  unfoldable pub join_request : AuthLib → ℕ → Server → String → JoinArgs → Option c.Node
  unfolding join_body join_message mirror_token
  join_request auth now server txn a = do
    body ← join_body server a
    sent ← encode c auth now (join_message server txn a body)
    mirror_token sent.0 body sent.1

-- apiJoin
unfoldable pub join : (c : JsonLib) → AuthLib → Link c → ℕ → Server → String → JoinArgs → Status
unfolding join_request read_reply acknowledged
join c auth link now server txn a = elim (join_request c auth now server txn a) [
  | none ↦ failed
  | some n ↦
      acknowledged c txn
        (read_reply c (send_request c link server n txn a.server_id a.sender_id url_handle))
]
