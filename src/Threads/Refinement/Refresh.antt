-- ===== src/Threads/Refinement/Refresh.antt =====
-- servers.c with the threads of mod_janus.c: a whole refresh does what the registry promises.
use mod_janus.Base.{
  ℕ, ◌+◌, ◌≤◌, String, ◌≡◌, refl, false, Option, some, List, [], length, arith, zstr, or_else,
  success,
}
use mod_janus.Base.Dict.{id_eq, name_eq}
use mod_janus.Hash.{JanusId}
use mod_janus.Json.{JsonLib}
use mod_janus.Servers.{Server, Globals}
use mod_janus.Servers.Url.{UrlParts, parse_http_url_parts, janus_path}
use mod_janus.Servers.Refresh.{
  Endpoint, knows, max_endpoints, collect, register_all, evict_list, evict_all, registry_refresh,
}
use mod_janus.Threads.Registry.{bound_start}
use mod_janus.Threads.Refinement.{view, refreshed, bound_stop}
use mod_janus.Threads.Refinement.Table.{IsTable}
use mod_janus.Threads.Refinement.Register.{register_all-view, register_all-length}
use mod_janus.Threads.Refinement.Evict.{evict_all-view}
use mod_janus.Threads.Refinement.Stale.{evict_list-named, evict_list-all_dynamic}

module _ (own_id : ℕ → JanusId) (now : ℕ) where
  passes-refreshed :
      (defaults : Server) (seen : List Endpoint) (g : Globals) (k : String)
      → IsTable g
      → length g.by_name + length seen ≤ max_endpoints
      → let g1 = register_all bound_start now defaults seen g in
        let g2 =
          evict_all (bound_stop own_id) g1 (evict_list max_endpoints seen g1.heap g1.by_name) in
        (view g2 k ≡ refreshed (knows seen k) (view g k)) × IsTable g2
  unfolding view
  passes-refreshed defaults seen g k t room =
      let g1 = register_all bound_start now defaults seen g in
      let gone = evict_list max_endpoints seen g1.heap g1.by_name in
      let (added, t1) = register_all-view now defaults seen g k t in
      let (left, t2) =
        evict_all-view own_id gone g1 k
          (evict_list-all_dynamic seen g1.heap max_endpoints g1.by_name) t1 in
      let taken =
        evict_list-named seen g1.heap max_endpoints g1.by_name k
          (omega (arith, room, register_all-length now defaults seen g))
          (λ j p i. ((t1 j p i).named, (t1 j p i).found)) in
      (ground (arith, added, left, taken), t2)

  module _ (c : JsonLib) (fetch : String → Option c.Node)
      (resolve : String → Option (List (Option String))) where
    registry_refresh-passes :
        (g : Globals) (defaults : Server) (parts : UrlParts) (ips : List (Option String))
        → g.pod_defaults ≡ some defaults
        → zstr g.headless_service_url ≡ false
        → parse_http_url_parts (or_else g.headless_service_url "") ≡ some parts
        → resolve parts.host ≡ some ips
        → let seen = collect c fetch parts.port (janus_path parts.path) max_endpoints [] ips in
          let g1 = register_all bound_start now defaults seen g in
          registry_refresh c fetch resolve bound_start (bound_stop own_id) now g ≡ (
            success,
            evict_all (bound_stop own_id) g1 (evict_list max_endpoints seen g1.heap g1.by_name),
          )
    unfolding registry_refresh
    registry_refresh-passes g defaults parts ips d u p r = simp (d, u, p, r, registry_refresh)

    -- A refresh, with the threads started and stopped as the module does, where the registry is
    -- configured, its URL is read and its host resolves, on a table of names in order. While the
    -- servers that are known and the pods that answer are together no more than the list of evictions
    -- has places, it succeeds, and afterwards exactly the names are known that had a pod among the
    -- answers or a pinned server (configured, or with calls); a server that stays remains pinned or
    -- not as it was; and the table is in order again.
    pub registry_refresh-refreshed :
        (g : Globals) (defaults : Server) (parts : UrlParts) (ips : List (Option String))
        (k : String)
        → g.pod_defaults ≡ some defaults
        → zstr g.headless_service_url ≡ false
        → parse_http_url_parts (or_else g.headless_service_url "") ≡ some parts
        → resolve parts.host ≡ some ips
        → IsTable g
        → length g.by_name
            + length (collect c fetch parts.port (janus_path parts.path) max_endpoints [] ips)
          ≤ max_endpoints
        → let seen = collect c fetch parts.port (janus_path parts.path) max_endpoints [] ips in
          let (status, g') =
            registry_refresh c fetch resolve bound_start (bound_stop own_id) now g in
          (status ≡ success) × (view g' k ≡ refreshed (knows seen k) (view g k)) × IsTable g'
    registry_refresh-refreshed g defaults parts ips k d u p r t room =
        let seen = collect c fetch parts.port (janus_path parts.path) max_endpoints [] ips in
        let (same, table) = passes-refreshed defaults seen g k t room in
        rw (registry_refresh-passes g defaults parts ips d u p r) (refl, same, table)
