-- ===== src/Api/Session.antt =====
-- api.c: apiGetServerId, apiClaimServerId and apiGetSenderId. Each takes the transaction id that
-- generateTransactionId has made, and the time for the token.
pub mod Replies
use mod_janus.Base.{
  ℕ, String, Bool, true, false, not, ◌&&◌, ◌||◌, Option, none, some, if◌then◌else◌, Status, success,
  failed, sockerr, not_initialized, str_eq, or_else,
}
use mod_janus.Hash.{JanusId}
use mod_janus.Json.{JsonLib}
use mod_janus.Auth.{AuthLib}
use mod_janus.Servers.{Server}
use mod_janus.Api.{Message, blank, item, is_text, text_of}
use mod_janus.Api.Encode.{encode}
use mod_janus.Api.Decode.{decode}
use mod_janus.Api.Send.{Link, UrlKind, url_root, url_session, send_request}

-- How far a request has come: it was not made, or it has no valid response, or it has one, with the
-- document that it was read from.
pub data Reply (c : JsonLib) : Type 0 where
  no_request : Reply c
  no_response : Reply c
  response : c.Node → Message c → Reply c

module _ (c : JsonLib) where
  -- the fields that all requests take from the server
  abbrev pub request_to : Server → String → String → Message c
  request_to server type txn = record (blank c) {
    type = some type;
    transaction = some txn;
    secret = server.secret;
    hmac_secret = server.hmac_secret;
  }

  -- the response has the type, and the transaction of the request
  abbrev pub answers_to : Message c → String → String → Bool
  answers_to m type txn = is_text m.type type && is_text m.transaction txn

  -- `id` of the body as a number, or 0
  unfoldable pub id_of : Option c.Node → JanusId
  id_of none = 0
  id_of (some n) = elim (c.number_value n) [ none ↦ 0 | some v ↦ v.as_id ]

  -- A response document, as it is decoded.
  unfoldable pub read_reply : Option c.Node → Reply c
  read_reply none = no_response
  read_reply (some n) = elim (decode c (some n)) [ none ↦ no_response | some m ↦ response n m ]

  -- apiGetServerId from the response on
  unfoldable pub server_id_of : String → Reply c → JanusId
  unfolding id_of
  server_id_of txn no_request = 0
  server_id_of txn no_response = 0
  server_id_of txn (response n m) = elim m.body [
    | none ↦ 0
    | some body ↦ if answers_to m "success" txn then id_of (c.get_item body "id") else 0
  ]

  -- apiClaimServerId, the error block of the response
  unfoldable pub claim_error : c.Node → Status
  claim_error n = elim (c.get_item n "error") [
    | none ↦ failed
    | some err ↦ if not (c.is_object err) then failed else elim (c.get_item err "code") [
      | none ↦ failed
      | some code ↦ elim (c.number_value code) [
        | none ↦ failed
        | some _ ↦ elim (text_of c (c.get_item err "reason")) [
          | none ↦ failed
          | some _ ↦ not_initialized
        ]
      ]
    ]
  ]

  -- apiClaimServerId from the response on
  unfoldable pub claim_of : String → Reply c → Status
  unfolding claim_error
  claim_of txn no_request = failed
  claim_of txn no_response = sockerr
  claim_of txn (response n m) = elim m.type [
    | none ↦ failed
    | some type ↦
        if not (is_text m.transaction txn)
        then failed
        else if str_eq type "success"
        then success
        else if str_eq type "error"
        then claim_error n
        else failed
  ]

  -- apiGetSenderId from the response on
  unfoldable pub sender_id_of : String → Reply c → JanusId
  unfolding id_of
  sender_id_of txn no_request = 0
  sender_id_of txn no_response = 0
  sender_id_of txn (response n m) =
      if answers_to m "success" txn then id_of (item c m.body "id") else 0

module _ (c : JsonLib) (auth : AuthLib) (link : Link c) where
  -- encode, api_send_request and decode, with which each request begins
  unfoldable pub ask : ℕ → Server → Message c → String → JanusId → JanusId → UrlKind → Reply c
  unfolding read_reply
  ask now server m txn server_id sender_id kind = elim (encode c auth now m) [
    | none ↦ no_request
    | some (n, _) ↦ read_reply c (send_request c link server n txn server_id sender_id kind)
  ]

  -- apiGetServerId
  unfoldable pub get_server_id : ℕ → Server → String → JanusId
  unfolding ask server_id_of
  get_server_id now server txn =
      server_id_of c txn (ask now server (request_to c server "create" txn) txn 0 0 url_root)

  -- apiClaimServerId
  unfoldable pub claim_server_id : ℕ → Server → JanusId → String → Status
  unfolding ask claim_of
  claim_server_id now server server_id txn =
      claim_of c txn (ask now server (request_to c server "claim" txn) txn server_id 0 url_session)

  -- apiGetSenderId
  unfoldable pub get_sender_id : ℕ → Server → JanusId → Option String → String → JanusId
  unfolding ask sender_id_of
  get_sender_id now server server_id call_id txn =
      let m = record (request_to c server "attach" txn) {
        server_id = server_id;
        opaque_id = call_id;
        is_plugin = true;
      } in
      sender_id_of c txn (ask now server m txn server_id 0 url_session)
