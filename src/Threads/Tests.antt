-- ===== src/Threads/Tests.antt =====
-- A call to a dynamic server whose pod answers, and whose session is there at the second turn.
use mod_janus.Base.{ℕ, zero, suc, String, refl, Bool, true, Option, some, [], ◌∷◌}
use mod_janus.Base.Dict.{id_eq, name_eq, find}
use mod_janus.Json.Small.{Json, text, object, entry, end, find_entry, json_lib}
use mod_janus.Servers.{Server, Globals, zeroed}
use mod_janus.Servers.Url.{parse_http_url_parts}
use mod_janus.Servers.Names.{pod_name_valid}
use mod_janus.Servers.Pods.{probe_pod, verify_identity}
use mod_janus.Calls.Samples.{no_servers}
use mod_janus.Threads.{find_or_refresh, trusted, resolve_server, verify_at}
use mod_janus.Threads.Outgoing.{active, wait_active, wait_server_active, resolve_for_dial}
use mod_janus.Threads.Outgoing.Checked.{IsCheckedFor, resolve_for_dial-IsCheckedFor}

abbrev pod : Server
pod = record zeroed {
  name = "janus-0";
  url = some "http://10.0.0.7:8088/janus";
  pod_ip = some "10.0.0.7";
  dynamic = true;
}

abbrev state : Globals
state = record no_servers { heap = λ p. pod; next = 1; by_name = ("janus-0", 0) ∷ [] }

abbrev info : Bool → String → Option Json
info second url = some (object (entry "server-name" (text "janus-0") end))

-- the thread of the server gets its session after one turn
abbrev later : Globals → ℕ → Globals
later g zero = g
later g (suc i) = record g { heap = λ p. record (g.heap p) { server_id = 7 }; by_id = (7, 0) ∷ [] }

resolve_for_dial-IsCheckedFor_example :
    IsCheckedFor json_lib info
      (λ second. 50)
      (λ second g. g)
      later
      "janus-0"
      0
      (later (verify_at json_lib (info true) 50 state 0).1 1)
unfolding resolve_for_dial resolve_server find_or_refresh trusted find active wait_active
    wait_server_active verify_at verify_identity probe_pod parse_http_url_parts pod_name_valid
    find_entry
resolve_for_dial-IsCheckedFor_example =
    resolve_for_dial-IsCheckedFor json_lib info (λ second. 50) (λ second g. g) later state
      (later (verify_at json_lib (info true) 50 state 0).1 1) "janus-0" 0 refl
