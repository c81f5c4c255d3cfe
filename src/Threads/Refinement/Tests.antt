-- ===== src/Threads/Refinement/Tests.antt =====
-- A refresh at one server whose pod has been replaced by another.
use mod_janus.Base.{
  ℕ, ◌≤◌, String, ◌≡◌, refl, eq_iff, true, Option, none, some, List, [], ◌∷◌, arith, inl, inr,
  success,
}
use mod_janus.Base.Dict.{id_eq, name_eq, find}
use mod_janus.Json.Small.{Json, text, object, entry, end, find_entry, json_lib}
use mod_janus.Servers.{Server, Globals, zeroed}
use mod_janus.Servers.Url.{parse_http_url_parts}
use mod_janus.Servers.Names.{pod_name_valid}
use mod_janus.Servers.Pods.{probe_pod}
use mod_janus.Servers.Refresh.{knows, collect, new_endpoint, registry_refresh}
use mod_janus.Calls.Samples.{no_servers}
use mod_janus.Threads.Registry.{bound_start}
use mod_janus.Threads.Refinement.{view, bound_stop}
use mod_janus.Threads.Refinement.Stays.{Stays}
use mod_janus.Threads.Refinement.Spared.{registry_refresh-Stays}
use mod_janus.Threads.Refinement.Table.{IsTable}
use mod_janus.Threads.Refinement.Refresh.{registry_refresh-refreshed}

abbrev gone : Server
gone = record zeroed { name = "janus-9"; dynamic = true }

abbrev headless : Globals
headless = record no_servers {
  heap = λ p. gone;
  next = 1;
  by_name = ("janus-9", 0) ∷ [];
  headless_service_url = some "http://janus.svc:8088/janus";
  pod_defaults = some zeroed;
}

abbrev info : String → Option Json
info url = some (object (entry "server-name" (text "janus-0") end))

abbrev addresses : String → Option (List (Option String))
addresses host = some (some "10.0.0.8" ∷ [])

headless-IsTable : IsTable headless
unfolding find
headless-IsTable k p (inl (a, b)) = record {
  named = a;
  allocated = omega (arith, b);
  found = ground (arith, a, b, eq_iff "janus-9" k);
}
headless-IsTable k p (inr none_left) = absurd none_left

few : (n : ℕ) → n ≡ 2 → n ≤ 64
few n h = omega (arith, h)

registry_refresh-refreshed_example :
    let (status, g) =
      registry_refresh json_lib info addresses bound_start (bound_stop (λ p. 0)) 5 headless in
    (status ≡ success) × (view g "janus-9" ≡ none) × IsTable g
unfolding parse_http_url_parts collect probe_pod knows view find new_endpoint find_entry
    pod_name_valid
registry_refresh-refreshed_example =
    registry_refresh-refreshed (λ p. 0) 5 json_lib info addresses headless zeroed
      (record { host = "janus.svc"; port = "8088"; path = "/janus" }) (some "10.0.0.8" ∷ [])
      "janus-9" refl refl refl refl headless-IsTable (few _ refl)

-- the same server, with a call and a thread
abbrev in_use : Globals
in_use = record headless {
  heap = λ p. record gone {
    enabled = true;
    thread = true;
    server_id = 7;
    calls_in_progress = 1;
    sender_id_lookup = (88, 3) ∷ [];
  };
}

registry_refresh-Stays_example :
    Stays (in_use.heap 0) (
      (registry_refresh json_lib info addresses bound_start (bound_stop (λ p. 7)) 5 in_use).1.heap
        0)
registry_refresh-Stays_example =
    registry_refresh-Stays json_lib info addresses (λ p. 7) 5 in_use 0 (omega arith) refl
