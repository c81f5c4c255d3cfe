-- ===== src/Api/Tests.antt =====
-- The theorems of api.c at a small JSON library.
use mod_janus.Base.{ℕ, String, ◌≡◌, ◌≢◌, refl, true, Option, none, some, arith, decimal}
use mod_janus.Json.Small.{
  Json, text, number, object, end, entry, find_entry, add_entry, member, json_lib,
}
use mod_janus.Auth.{
  AuthLib, sign_token, token_data, append_within, data_cap, append_descriptors, signed_text,
}
use mod_janus.Servers.{Server, zeroed}
use mod_janus.Api.{Message, blank}
use mod_janus.Api.Encode.{encode}
use mod_janus.Api.Encode.Fields.{field}
use mod_janus.Api.Decode.{decode}
use mod_janus.Api.Send.{Link, send_request, url_handle, request_url, url_text}
use mod_janus.Api.Send.Url.{request_url-fits}
use mod_janus.Api.Session.{claim_server_id}
use mod_janus.Api.Session.Replies.{Answered, claim_reply, claim_server_id-Answered}
use mod_janus.Api.Join.{join_request}
use mod_janus.Api.Join.Token.{join_request-tokens}
use mod_janus.Api.Dispatch.{dispatch_type}
use mod_janus.Api.Dispatch.Rules.{
  all_for, has, is_answered, dispatch_type-all_for, dispatch_type-answered,
}
use mod_janus.Calls.Methods.{JoinArgs}

abbrev reply_of : Json → Link json_lib
reply_of n = record {
  post = λ url request. some n;
  rpc = λ request txn. some n;
  fetch = λ url. some n;
}

abbrev success_reply : Json
success_reply = object (
    entry "janus" (text "success")
      (entry "transaction" (text "t1") (entry "data" (object (entry "id" (number 77) end)) end)))

abbrev plain_auth : AuthLib
plain_auth = record {
  hmac_sha1 = λ key data'. some "sig";
  encode_block = λ sig. some sig;
  malloc = λ n. true;
}

abbrev janus : Server
janus = record zeroed { url = some "http://janus/janus"; secret = some "key" }

abbrev signing : Server
signing = record janus { hmac_secret = some "hmac" }

not_zero : (id : ℕ) → id ≡ 77 → id ≢ 0
not_zero id h = omega arith

claim_server_id-Answered_example :
    Answered json_lib "success" "t1"
      (claim_reply json_lib plain_auth (reply_of success_reply) 5 janus 77 "t1")
unfolding claim_server_id find_entry encode send_request url_text decimal decode
claim_server_id-Answered_example =
    claim_server_id-Answered json_lib plain_auth (reply_of success_reply) 5 janus 77 "t1" refl

request_url-fits_example :
    request_url "http://janus/janus" url_handle 12 34 ≡ some "http://janus/janus/12/34"
unfolding url_text decimal
request_url-fits_example =
    request_url-fits "http://janus/janus" url_handle 12 34 (omega arith) (omega arith) (omega arith)

abbrev ping : Message json_lib
ping = record (blank json_lib) { type = some "ping"; transaction = some "t2"; secret = some "key" }

abbrev ping_request : Json
ping_request = object (
    entry "janus" (text "ping")
      (entry "transaction" (text "t2") (entry "apisecret" (text "key") end)))

abbrev join_args : JoinArgs
join_args = record {
  ttl = 60;
  server_id = 77;
  sender_id = 88;
  room_id = 9;
  display = none;
  pin = none;
  token = some "mine";
  call_id = none;
  room_id_str = none;
}

abbrev get_or_end : Option Json → Json
get_or_end none = object end
get_or_end (some n) = n

abbrev the_join : Json
the_join = get_or_end (join_request json_lib plain_auth 5 signing "t3" join_args)

join_request-tokens_example :
    (token : String) × (field json_lib the_join "token" ≡ some token)
    × ((b : Json) → member the_join "body" ≡ some b → field json_lib b "token" ≡ some token)
unfolding join_request add_entry decimal encode sign_token token_data append_within data_cap
    append_descriptors signed_text
join_request-tokens_example =
    join_request-tokens json_lib plain_auth 5 signing "hmac" "t3" join_args the_join refl refl

abbrev ringing : Message json_lib
ringing = record (blank json_lib) { server_id = 77; sender_id = 88 }

dispatch_type-all_for_example :
    all_for 77 88 (dispatch_type json_lib (λ s x. true) (object end) ringing "webrtcup") ≡ true
dispatch_type-all_for_example =
    dispatch_type-all_for json_lib (λ s x. true) (object end) ringing "webrtcup"

dispatch_type-answered_example :
    has is_answered (dispatch_type json_lib (λ s x. true) (object end) ringing "webrtcup") ≡ true
dispatch_type-answered_example =
    dispatch_type-answered json_lib (λ s x. true) (object end) ringing "webrtcup"
