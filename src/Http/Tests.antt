-- ===== src/Http/Tests.antt =====
-- Requests over a curl that delivers a response in two pieces.
use Prim.Native.String.{◌++◌}
use mod_janus.Base.{String, ◌≡◌, refl, true, false, none, some, List, [], ◌∷◌, decimal}
use mod_janus.Json.Small.{text, object, end, json_lib}
use mod_janus.Servers.{Server, zeroed}
use mod_janus.Api.Send.{send_request, url_handle, url_text, request_url}
use mod_janus.Http.{Chunk, HttpLib, feed, Held, http_post, http_get, until_nul}
use mod_janus.Http.Body.{document_of}
use mod_janus.Http.Resources.{request-held}
use mod_janus.Http.Requests.{posted, http_link, send_request-document}

abbrev two_pieces : List Chunk
two_pieces =
    record { bytes = "{\"janus\":"; size = 1; nmemb = 9 }
    ∷ record { bytes = "\"ack\"}"; size = 1; nmemb = 6 }
    ∷ []

-- the text itself stands for the document that is parsed
abbrev small_http : HttpLib json_lib
small_http = record {
  Buffer = String;
  create = "";
  write = λ b s. b ++ s;
  peek = λ b. b;
  peek-create = refl;
  peek-write = λ b s. refl;
  print = λ n. some "{}";
  parse = λ s. some (text s);
  pieces = λ opts. two_pieces;
  reached = λ opts. true;
  perform = λ opts f b. (true, feed f b two_pieces);
  pieces-AreWhole = λ opts. (refl, refl, (refl, refl, tt));
  perform-feed = λ opts f b h. refl;
}

abbrev nothing_held : Held
nothing_held = record { buffers = 0; handles = 0; lists = 0; texts = 0 }

abbrev over_http : Server
over_http = record zeroed { url = some "http://janus/janus" }

the_document :
    document_of json_lib small_http (posted "http://janus/janus/12/34" (some "{}"))
    ≡ some (text "{\"janus\":\"ack\"}")
unfolding until_nul
the_document = refl

request-held_example :
    ((http_post json_lib small_http false "http://janus/janus" 3000 (object end) nothing_held).1
      ≡ record nothing_held { buffers = 1 })
    × ((http_get json_lib small_http false "http://janus/janus" 3000 nothing_held).1
        ≡ record nothing_held { buffers = 1 })
request-held_example =
    request-held json_lib small_http false "http://janus/janus" 3000 (object end) nothing_held

send_request-document_example :
    send_request json_lib
      (http_link json_lib small_http (λ n txn. none) true nothing_held)
      over_http
      (object end)
      "t1"
      12
      34
      url_handle
    ≡ document_of json_lib small_http (posted "http://janus/janus/12/34" (some "{}"))
unfolding url_text decimal request_url
send_request-document_example =
    send_request-document json_lib small_http (λ n txn. none) true nothing_held over_http
      (object end) "t1" 12 34 url_handle "http://janus/janus/12/34" refl refl
