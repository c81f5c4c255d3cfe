-- ===== src/Api/Session/Replies.antt =====
-- api.c: from which responses the session ids and handle ids are taken.
use mod_janus.Base.{
  ℕ, String, ◌≡◌, ◌≢◌, refl, ap, ◌∙◌, true, Option, none, some, arith, success, eq_iff,
}
use mod_janus.Hash.{JanusId}
use mod_janus.Json.{JsonLib}
use mod_janus.Auth.{AuthLib}
use mod_janus.Servers.{Server}
use mod_janus.Api.{Message, text_of, is_text}
use mod_janus.Api.Decode.{decode, decode_text}
use mod_janus.Api.Encode.{encode}
use mod_janus.Api.Send.{Link, send_request, UrlKind, url_root, url_session}
use mod_janus.Api.Session.{
  Reply, no_request, no_response, response, request_to, ask, read_reply, server_id_of, claim_of,
  claim_error, sender_id_of, get_server_id, claim_server_id, get_sender_id,
}

-- A reply with a document that has the type, and the transaction of the request.
pub data Answered (c : JsonLib) (type txn : String) : Reply c → Type 0 where
  answered :
      (n : c.Node) (m : Message c)
      → decode c (some n) ≡ some m
      → text_of c (c.get_item n "janus") ≡ some type
      → text_of c (c.get_item n "transaction") ≡ some txn
      → Answered c type txn (response n m)

module _ (c : JsonLib) where
  decode-type :
      (n : c.Node) (m : Message c)
      → decode c (some n) ≡ some m
      → text_of c (c.get_item n "janus") ≡ m.type
  unfolding decode decode_text
  decode-type n m h = ground arith

  decode-transaction :
      (n : c.Node) (m : Message c)
      → decode c (some n) ≡ some m
      → text_of c (c.get_item n "transaction") ≡ m.transaction
  unfolding decode decode_text
  decode-transaction n m h = ground arith

  is_text-true : (t : Option String) (s : String) → is_text t s ≡ true → t ≡ some s
  is_text-true none s h = absurd (ground arith)
  is_text-true (some t) s h = ap some ((eq_iff t s).0 h)

  -- The document of a reply decodes to its message.
  abbrev pub IsRead : Reply c → Type 0
  IsRead r = (n : c.Node) (m : Message c) → r ≡ response n m → decode c (some n) ≡ some m

  read_reply-IsRead : (o : Option c.Node) → IsRead (read_reply c o)
  unfolding read_reply
  read_reply-IsRead o n m h = ground arith

  pub answered-tests :
      (n : c.Node) (m : Message c) (type txn : String)
      → IsRead (response n m)
      → m.type ≡ some type
      → is_text m.transaction txn ≡ true
      → Answered c type txn (response n m)
  answered-tests n m type txn h t x =
      let d = h n m refl in
      answered n m d (decode-type n m d ∙ t)
        (decode-transaction n m d ∙ is_text-true m.transaction txn x)

  server_id_of-Answered :
      (txn : String) (r : Reply c)
      → IsRead r
      → server_id_of c txn r ≢ 0
      → Answered c "success" txn r
  unfolding server_id_of
  server_id_of-Answered txn no_request h some_id = absurd (some_id refl)
  server_id_of-Answered txn no_response h some_id = absurd (some_id refl)
  server_id_of-Answered txn (response n m) h some_id =
      answered-tests n m "success" txn h (is_text-true m.type "success" (ground (arith, some_id)))
        (ground (arith, some_id))

  sender_id_of-Answered :
      (txn : String) (r : Reply c)
      → IsRead r
      → sender_id_of c txn r ≢ 0
      → Answered c "success" txn r
  unfolding sender_id_of
  sender_id_of-Answered txn no_request h some_id = absurd (some_id refl)
  sender_id_of-Answered txn no_response h some_id = absurd (some_id refl)
  sender_id_of-Answered txn (response n m) h some_id =
      answered-tests n m "success" txn h (is_text-true m.type "success" (ground (arith, some_id)))
        (ground (arith, some_id))

  claim_of-Answered :
      (txn : String) (r : Reply c)
      → IsRead r
      → claim_of c txn r ≡ success
      → Answered c "success" txn r
  unfolding claim_of claim_error
  claim_of-Answered txn no_request h ok = absurd (ground arith)
  claim_of-Answered txn no_response h ok = absurd (ground arith)
  claim_of-Answered txn (response n m) h ok =
      answered-tests n m "success" txn h (is_text-true m.type "success" (ground arith))
        (ground arith)

module _ (c : JsonLib) (auth : AuthLib) (link : Link c) where
  pub ask-IsRead :
      (now : ℕ) (server : Server) (m : Message c) (txn : String) (server_id sender_id : JanusId)
      (kind : UrlKind)
      → IsRead c (ask c auth link now server m txn server_id sender_id kind)
  unfolding ask
  ask-IsRead now server m txn server_id sender_id kind =
      elim (encode c auth now m)
        as (λ x. IsRead c (elim x [
          | none ↦ no_request
          | some (n, _) ↦ read_reply c (send_request c link server n txn server_id sender_id kind)
        ])) [
          | none ↦ λ n k h. absurd (ground arith)
          | some (n, _) ↦
              read_reply-IsRead c (send_request c link server n txn server_id sender_id kind)
        ]

  abbrev pub create_reply : ℕ → Server → String → Reply c
  create_reply now server txn =
      ask c auth link now server (request_to c server "create" txn) txn 0 0 url_root

  -- A session id is taken only from a document whose type is `success` and whose transaction is
  -- that of the request.
  pub get_server_id-Answered :
      (now : ℕ) (server : Server) (txn : String)
      → get_server_id c auth link now server txn ≢ 0
      → Answered c "success" txn (create_reply now server txn)
  unfolding get_server_id
  get_server_id-Answered now server txn h =
      server_id_of-Answered c txn (create_reply now server txn)
        (ask-IsRead now server (request_to c server "create" txn) txn 0 0 url_root) h

  abbrev pub claim_reply : ℕ → Server → JanusId → String → Reply c
  claim_reply now server server_id txn =
      ask c auth link now server (request_to c server "claim" txn) txn server_id 0 url_session

  -- A session is claimed only by a document whose type is `success` and whose transaction is that
  -- of the request.
  pub claim_server_id-Answered :
      (now : ℕ) (server : Server) (server_id : JanusId) (txn : String)
      → claim_server_id c auth link now server server_id txn ≡ success
      → Answered c "success" txn (claim_reply now server server_id txn)
  unfolding claim_server_id
  claim_server_id-Answered now server server_id txn h =
      claim_of-Answered c txn (claim_reply now server server_id txn)
        (ask-IsRead now server (request_to c server "claim" txn) txn server_id 0 url_session) h

  abbrev pub attach_message : Server → JanusId → Option String → String → Message c
  attach_message server server_id call_id txn = record (request_to c server "attach" txn) {
    server_id = server_id;
    opaque_id = call_id;
    is_plugin = true;
  }

  abbrev pub attach_reply : ℕ → Server → JanusId → Option String → String → Reply c
  attach_reply now server server_id call_id txn =
      ask c auth link now server (attach_message server server_id call_id txn) txn server_id 0
        url_session

  -- A handle id is taken only from a document whose type is `success` and whose transaction is that
  -- of the request.
  pub get_sender_id-Answered :
      (now : ℕ) (server : Server) (server_id : JanusId) (call_id : Option String) (txn : String)
      → get_sender_id c auth link now server server_id call_id txn ≢ 0
      → Answered c "success" txn (attach_reply now server server_id call_id txn)
  unfolding get_sender_id
  get_sender_id-Answered now server server_id call_id txn h =
      sender_id_of-Answered c txn (attach_reply now server server_id call_id txn)
        (ask-IsRead now server (attach_message server server_id call_id txn) txn server_id 0
          url_session)
        h
