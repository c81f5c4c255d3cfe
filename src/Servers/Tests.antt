-- ===== src/Servers/Tests.antt =====
-- The theorems of the server registry at concrete pods.
use mod_janus.Base.{String, ◌≡◌, ◌≢◌, ◌≤◌, refl, true, Option, none, some, [], ◌∷◌, arith, length}
use mod_janus.Base.Dict.{id_eq, name_eq}
use mod_janus.Json.Small.{Json, text, object, entry, end, find_entry, json_lib}
use mod_janus.Servers.{Server, Globals, zeroed}
use mod_janus.Calls.Samples.{no_servers}
use mod_janus.Servers.Url.{build_janus_url, parse_http_url_parts}
use mod_janus.Servers.Url.Roundtrip.{parse-build, free_of, begins}
use mod_janus.Servers.Names.{pod_name_valid}
use mod_janus.Servers.Pods.{probe_pod, verify_identity}
use mod_janus.Servers.Pods.Identity.{verify_identity-Reports}
use mod_janus.Servers.Pods.Reports.{Reports}
use mod_janus.Servers.Names.Label.{IsLabel}
use mod_janus.Servers.Refresh.{collect, evict_list, is_stale}
use mod_janus.Servers.Refresh.Endpoints.{AreDistinct, collect-AreDistinct}
use mod_janus.Servers.Refresh.Stale.{AllGone, evict_list-AllGone}

parse-build_example :
    parse_http_url_parts (build_janus_url "10.0.0.7" "8088" "/janus")
    ≡ some (record { host = "10.0.0.7"; port = "8088"; path = "/janus" })
unfolding free_of begins
parse-build_example =
    parse-build "10.0.0.7" "8088" "/janus" refl refl refl (omega arith) (omega arith) (omega arith)

abbrev pod : Server
pod = record zeroed {
  name = "janus-0";
  url = some "http://10.0.0.7:8088/janus";
  pod_ip = some "10.0.0.7";
  dynamic = true;
  server_id = 7;
}

abbrev pods : Globals
pods = record no_servers {
  heap = λ p. pod;
  next = 1;
  by_name = ("janus-0", 0) ∷ ("janus-1", 1) ∷ [];
  by_id = (7, 0) ∷ (8, 1) ∷ [];
}

some_not_none : {A : Type 0} (o : Option A) (a : A) → o ≡ some a → o ≢ none
some_not_none o a h e = ground (arith, h, e)

-- what every pod answers
abbrev info : String → Option Json
info url = some (object (entry "server-name" (text "janus-0") end))

collect-AreDistinct_example :
    AreDistinct json_lib info "8088" "/janus"
      (collect json_lib info "8088" "/janus" 64 [] (some "10.0.0.7" ∷ some "10.0.0.8" ∷ []))
    × (length (collect json_lib info "8088" "/janus" 64 [] (some "10.0.0.7" ∷ some "10.0.0.8" ∷ []))
        ≤ 64)
collect-AreDistinct_example =
    collect-AreDistinct json_lib info "8088" "/janus" (some "10.0.0.7" ∷ some "10.0.0.8" ∷ [])

evict_list-AllGone_example : AllGone [] pods.heap (0 ∷ 1 ∷ [])
unfolding evict_list is_stale
evict_list-AllGone_example = evict_list-AllGone 64 [] pods.heap pods.by_name

verify_identity-Reports_example :
    IsLabel "janus-0" × Reports json_lib info "http://10.0.0.7:8088/janus/info" "janus-0"
unfolding verify_identity probe_pod parse_http_url_parts pod_name_valid find_entry free_of begins
verify_identity-Reports_example =
    verify_identity-Reports json_lib info 50 pod "10.0.0.7" "10.0.0.7" "8088" "/janus" refl refl
      refl refl refl refl refl (omega arith) (omega arith) (omega arith) (omega arith) refl
