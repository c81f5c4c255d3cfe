-- ===== src/Servers/Refresh.antt =====
-- servers.c: serversRegistryRefresh, in its three passes: the pods behind the headless service are
-- collected, each is registered or updated, and the servers of the pods that are gone are evicted.
pub mod Endpoints
pub mod Stale
use Prim.Native.String.{◌++◌}
use mod_janus.Base.{
  ℕ, zero, suc, String, Bool, true, false, not, ◌&&◌, ◌||◌, Option, none, some, List, [], ◌∷◌,
  ◌++◌ as join_lists, ltb, if◌then◌else◌, str_eq, zstr, or_else, Status, success, failed,
}
use mod_janus.Base.Dict.{Dict, id_eq, name_eq, find}
use mod_janus.Json.{JsonLib}
use mod_janus.Servers.{Server, Globals, store}
use mod_janus.Servers.Url.{UrlParts, parse_http_url_parts, build_janus_url, janus_path}
use mod_janus.Servers.Pods.{
  Hook, call_hook, probe_pod, create_registry_server, update_registry_server, remove_from_lookup,
}

-- registry_endpoint_t
pub record Endpoint : Type 0 where
  pub pod_name : String
  pub pod_ip : String
  pub url : String

-- the loop that looks for a pod's name, also the lookup in seen_pods
unfoldable pub knows : List Endpoint → String → Bool
knows [] name = false
knows (x ∷ xs) name = str_eq x.pod_name name || knows xs name

-- REGISTRY_MAX_ENDPOINTS
abbrev pub max_endpoints : ℕ
max_endpoints = 64

module _ (c : JsonLib) (fetch : String → Option c.Node) (port path : String) where
  -- a pod that answers under a new name
  unfoldable pub new_endpoint : List Endpoint → String → Option Endpoint
  unfolding knows
  new_endpoint seen ip = elim (probe_pod c fetch ip port path) [
    | none ↦ none
    | some name ↦
        if knows seen name
        then none
        else some (record { pod_name = name; pod_ip = ip; url = build_janus_url ip port path })
  ]

  -- the loop over the addresses, with the places that are left and the endpoints so far, newest
  -- first; `none` is an address that is not IPv4 or that inet_ntop refuses
  unfoldable pub collect : ℕ → List Endpoint → List (Option String) → List Endpoint
  collect zero seen ips = seen
  collect (suc slots) seen [] = seen
  collect (suc slots) seen (none ∷ ips) = collect (suc slots) seen ips
  collect (suc slots) seen (some ip ∷ ips) = elim (new_endpoint seen ip) [
    | none ↦ collect (suc slots) seen ips
    | some x ↦ collect slots (x ∷ seen) ips
  ]

module _ (start : Hook) (now : ℕ) (defaults : Server) where
  -- one endpoint: a new server, an update of a dynamic one, nothing for a static one
  unfoldable pub register : Endpoint → Globals → Globals
  unfolding store create_registry_server update_registry_server
  register x g = elim (find g.by_name x.pod_name) [
    | none ↦ create_registry_server start now defaults x.pod_name x.pod_ip x.url g
    | some p ↦
        let s = g.heap p in
        let g' = store g p (update_registry_server now x.pod_ip x.url s) in
        if s.dynamic then (if s.enabled then g' else call_hook start g' p) else g
  ]

  -- the loop over the endpoints; they are given newest first
  unfoldable pub register_all : List Endpoint → Globals → Globals
  register_all [] g = g
  register_all (x ∷ xs) g = register x (register_all xs g)

-- a server that the refresh takes out
unfoldable pub is_stale : List Endpoint → Server → Bool
unfolding knows
is_stale seen s =
    if not s.dynamic
    then false
    else if knows seen s.name
    then false
    else if ltb 0 s.calls_in_progress
    then false
    else true

-- the loop over pServerNameLookup, with the places left in evict_list
unfoldable pub evict_list : ℕ → List Endpoint → (ℕ → Server) → Dict String ℕ → List ℕ
evict_list zero seen heap servers = []
evict_list (suc slots) seen heap [] = []
evict_list (suc slots) seen heap ((k, p) ∷ servers) =
    let skipped = evict_list (suc slots) seen heap servers in
    let added = p ∷ evict_list slots seen heap servers in
    if is_stale seen (heap p) then added else skipped

-- a server is marked, and stopped or removed
unfoldable pub evict : Hook → Globals → ℕ → Globals
unfolding store remove_from_lookup
evict stop g p =
    let g' = store g p (record (g.heap p) { evicted = true }) in
    elim stop [ none ↦ remove_from_lookup g' p | some f ↦ f g' p ]

unfoldable pub evict_all : Hook → Globals → List ℕ → Globals
unfolding evict
evict_all stop g [] = g
evict_all stop g (p ∷ ps) = evict_all stop (evict stop g p) ps

-- serversRegistryRefresh. `resolve` is getaddrinfo, with the addresses as inet_ntop prints them.
unfoldable pub registry_refresh :
    (c : JsonLib)
    → (String → Option c.Node)
    → (String → Option (List (Option String)))
    → Hook
    → Hook
    → ℕ
    → Globals
    → Status × Globals
unfolding parse_http_url_parts collect register_all evict_list evict_all
registry_refresh c fetch resolve start stop now g = elim g.pod_defaults [
  | none ↦ (failed, g)
  | some defaults ↦
      if zstr g.headless_service_url
      then (failed, g)
      else elim (parse_http_url_parts (or_else g.headless_service_url "")) [
        | none ↦ (failed, g)
        | some parts ↦ elim (resolve parts.host) [
          | none ↦ (failed, g)
          | some ips ↦
              let seen = collect c fetch parts.port (janus_path parts.path) max_endpoints [] ips in
              let g' = register_all start now defaults seen g in
              (success, evict_all stop g' (evict_list max_endpoints seen g'.heap g'.by_name))
        ]
      ]
]
