-- ===== src/Api/Send.antt =====
-- api.c: api_send_request, over the HTTP client or the WebSocket of the server.
pub mod Url
use Prim.Native.String.{◌++◌}
use mod_janus.Base.{
  ℕ, ◌+◌, String, Bool, true, false, not, ◌&&◌, Option, none, some, ltb, ◌==◌, if◌then◌else◌,
  or_else, strlen, decimal, zstr, is_some,
}
use mod_janus.Hash.{JanusId}
use mod_janus.Json.{JsonLib}
use mod_janus.Servers.{Server, Transport}

-- httpPost with its timeout, janus_ws_rpc_json with the transaction, and httpGet.
pub record Link (c : JsonLib) : Type 0 where
  pub post : String → c.Node → Option c.Node
  pub rpc : c.Node → String → Option c.Node
  pub fetch : String → Option c.Node

-- api_url_kind_t
pub data UrlKind : Type 0 where
  url_root url_session url_handle : UrlKind

-- What is printed into `url`.
unfoldable pub url_text : String → UrlKind → JanusId → JanusId → String
url_text base url_root server_id sender_id = base
url_text base url_session server_id sender_id = base ++ ("/" ++ decimal server_id)
url_text base url_handle server_id sender_id =
    base ++ ("/" ++ (decimal server_id ++ ("/" ++ decimal sender_id)))

-- char url[1024], and the test for a text that was cut
unfoldable pub request_url : String → UrlKind → JanusId → JanusId → Option String
request_url base kind server_id sender_id =
    let url = url_text base kind server_id sender_id in
    if ltb (strlen url) 1024 then some url else none

module _ (c : JsonLib) (link : Link c) where
  -- api_ws_add_u64, with the outcome ignored; an id of 0 is left out
  unfoldable pub add_id : c.Node → String → JanusId → c.Node
  add_id n k id = if id == 0 then n else or_else (c.add_item n k (c.raw_node (decimal id))) n

  -- the stored token, where the server does not sign
  unfoldable pub add_stored_token : Server → c.Node → c.Node
  add_stored_token server n =
      if not (is_some server.hmac_secret) && not (zstr server.auth_token)
      then or_else (c.add_item n "token" (c.string_node (or_else server.auth_token ""))) n
      else n

  -- api_send_request
  unfoldable pub send_request :
      Server → c.Node → String → JanusId → JanusId → UrlKind → Option c.Node
  unfolding add_id add_stored_token request_url
  send_request server request txn server_id sender_id kind = elim server.transport [
    | Transport.ws ↦
        link.rpc
          (add_stored_token server
            (add_id (add_id request "session_id" server_id) "handle_id" sender_id))
          txn
    | Transport.http ↦ elim (request_url (or_else server.url "") kind server_id sender_id) [
      | none ↦ none
      | some url ↦ link.post url request
    ]
  ]
