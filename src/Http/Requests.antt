-- ===== src/Http/Requests.antt =====
-- api.c over http.c: the requests of api_send_request, made by httpPost.
use mod_janus.Base.{
  ℕ, String, ◌≡◌, refl, ◌∙◌, Bool, true, false, Option, none, some, if◌then◌else◌, or_else, List,
  [], ◌∷◌,
}
use mod_janus.Hash.{JanusId}
use mod_janus.Json.{JsonLib}
use mod_janus.Servers.{Server, Transport}
use mod_janus.Api.Send.{Link, UrlKind, request_url, send_request}
use mod_janus.Http.{
  HttpLib, Held, http_post, http_get, post_options, CurlOption, http_header, url_option,
  post_fields, user_agent, timeout_ms, no_signal,
}
use mod_janus.Http.Body.{document_of, response-document_of}

-- HTTP_POST_TIMEOUT and HTTP_GET_TIMEOUT
abbrev pub http_post_timeout : ℕ
http_post_timeout = 3000

abbrev pub http_get_timeout : ℕ
http_get_timeout = 60000

-- The options of a request that is posted: JSON both ways, and at most 3 seconds.
abbrev pub posted : String → Option String → List CurlOption
posted url text =
    http_header ("Content-Type: application/json" ∷ "Accept: application/json" ∷ [])
    ∷ url_option url
    ∷ post_fields text
    ∷ user_agent "freeswitch-janus/1.0"
    ∷ timeout_ms 3000
    ∷ no_signal
    ∷ []

module _ (c : JsonLib) (lib : HttpLib c) (rpc : c.Node → String → Option c.Node) where
  -- the calls that api.c makes of http.c
  unfoldable pub http_link : Bool → Held → Link c
  unfolding http_post http_get
  http_link got_handle h = record {
    post = λ url request. (http_post c lib got_handle url http_post_timeout request h).0;
    rpc = rpc;
    fetch = λ url. (http_get c lib got_handle url http_get_timeout h).0;
  }

  -- a request over HTTP whose URL fits goes to httpPost
  send_request-post :
      (got_handle : Bool) (h : Held) (server : Server) (request : c.Node) (txn : String)
      (server_id sender_id : JanusId) (kind : UrlKind) (url : String)
      → server.transport ≡ Transport.http
      → request_url (or_else server.url "") kind server_id sender_id ≡ some url
      → send_request c (http_link got_handle h) server request txn server_id sender_id kind
        ≡ (http_post c lib got_handle url 3000 request h).0
  unfolding send_request http_link
  send_request-post got_handle h server request txn server_id sender_id kind url t u =
      simp (t, u, send_request)

  http_post-document :
      (got_handle : Bool) (h : Held) (url : String) (request : c.Node)
      → (http_post c lib got_handle url 3000 request h).0
        ≡ (if got_handle then document_of c lib (posted url (lib.print request)) else none)
  unfolding http_post post_options
  http_post-document true h url request =
      response-document_of c lib (posted url (lib.print request))
  http_post-document false h url request = refl

  -- A request to a server over HTTP whose URL fits its buffer is posted to that URL as JSON, with
  -- a time limit of 3 seconds. It gives the document that the body is parsed to, up to the first NUL, into
  -- whatever pieces curl cuts the body, and none where the transfer is broken off, curl gives no
  -- handle, or the body is no document.
  pub send_request-document :
      (got_handle : Bool) (h : Held) (server : Server) (request : c.Node) (txn : String)
      (server_id sender_id : JanusId) (kind : UrlKind) (url : String)
      → server.transport ≡ Transport.http
      → request_url (or_else server.url "") kind server_id sender_id ≡ some url
      → send_request c (http_link got_handle h) server request txn server_id sender_id kind
        ≡ (if got_handle then document_of c lib (posted url (lib.print request)) else none)
  send_request-document got_handle h server request txn server_id sender_id kind url t u =
      send_request-post got_handle h server request txn server_id sender_id kind url t u
      ∙ http_post-document got_handle h url request
