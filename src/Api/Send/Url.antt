-- ===== src/Api/Send/Url.antt =====
-- api.c: the URL of a request over HTTP.
use Prim.Native.String.{◌++◌}
use mod_janus.Base.{
  ◌^◌, ◌≤◌, ◌<◌, String, ◌≡◌, some, arith, strlen, strlen-append, decimal, strlen-decimal,
}
use mod_janus.Hash.{JanusId}
use mod_janus.Api.Send.{UrlKind, url_root, url_session, url_handle, url_text, request_url}

-- With a base of at most 981 characters no URL is cut, whatever the two 64-bit ids are.
pub request_url-fits :
    (base : String) (kind : UrlKind) (server_id sender_id : JanusId)
    → strlen base ≤ 981
    → server_id < 2 ^ 64
    → sender_id < 2 ^ 64
    → request_url base kind server_id sender_id ≡ some (url_text base kind server_id sender_id)
unfolding request_url url_text
request_url-fits base url_root server_id sender_id h hs hx = ground arith
request_url-fits base url_session server_id sender_id h hs hx =
    let tail = "/" ++ decimal server_id in
    ground (
      arith,
      strlen-append base tail,
      strlen-append "/" (decimal server_id),
      strlen-decimal 19 server_id (omega arith),
    )
request_url-fits base url_handle server_id sender_id h hs hx =
    let last = "/" ++ decimal sender_id in
    let middle = decimal server_id ++ last in
    ground (
      arith,
      strlen-append base ("/" ++ middle),
      strlen-append "/" middle,
      strlen-append (decimal server_id) last,
      strlen-append "/" (decimal sender_id),
      strlen-decimal 19 server_id (omega arith),
      strlen-decimal 19 sender_id (omega arith),
    )
