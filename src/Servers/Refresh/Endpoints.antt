-- ===== src/Servers/Refresh/Endpoints.antt =====
-- servers.c: the endpoints that a refresh collects.
use mathlib.Core.Path.{subst}
use mod_janus.Base.{
  ℕ, zero, suc, ◌+◌, ◌≤◌, String, ◌≡◌, false, Option, none, some, List, [], ◌∷◌, arith, take,
  length, Option-cases, inl, inr,
}
use mod_janus.Json.{JsonLib}
use mod_janus.Servers.Url.{janus_path}
use mod_janus.Servers.Names.Label.{IsLabel}
use mod_janus.Servers.Pods.{probe_pod}
use mod_janus.Servers.Pods.Reports.{info_text, past, Reports, probe_pod-Reports}
use mod_janus.Servers.Refresh.{Endpoint, knows, new_endpoint, collect, max_endpoints}

module _ (c : JsonLib) (fetch : String → Option c.Node) where
  module _ (port path : String) where
    -- Endpoints under names that are DNS labels, no two of them the same. The pod at the address of
    -- each has reported the whole name.
    pub data AreDistinct : List Endpoint → Type 0 where
      empty : AreDistinct []
      more :
          (x : Endpoint) (xs : List Endpoint)
          → IsLabel x.pod_name
          → Reports c fetch (take 511 (info_text x.pod_ip port (janus_path path))) x.pod_name
          → knows xs x.pod_name ≡ false
          → AreDistinct xs
          → AreDistinct (x ∷ xs)

    new_endpoint-Reports :
        (seen : List Endpoint) (ip : String) (x : Endpoint)
        → new_endpoint c fetch port path seen ip ≡ some x
        → IsLabel x.pod_name
          × Reports c fetch (take 511 (info_text x.pod_ip port (janus_path path))) x.pod_name
          × (knows seen x.pod_name ≡ false)
    unfolding new_endpoint
    new_endpoint-Reports seen ip x h = past (probe_pod c fetch ip port path) _ x h λ name h1 g1.
        let same : name ≡ x.pod_name = ground (arith, g1) in
        let at : ip ≡ x.pod_ip = ground (arith, g1) in
        let (label, said) = probe_pod-Reports c fetch ip port path name h1 in
        let url : String → String = λ a. take 511 (info_text a port (janus_path path)) in
        (
          subst IsLabel same label,
          subst (λ a. Reports c fetch (url a) x.pod_name) at
              (subst (Reports c fetch (url ip)) same said),
          ground (arith, g1),
        )

    collect-general :
        (slots : ℕ) (seen : List Endpoint) (ips : List (Option String))
        → AreDistinct seen
        → AreDistinct (collect c fetch port path slots seen ips)
          × (length (collect c fetch port path slots seen ips) ≤ length seen + slots)
    unfolding collect
    collect-general zero seen ips d = (d, omega arith)
    collect-general (suc slots) seen [] d = (d, omega arith)
    collect-general (suc slots) seen (none ∷ ips) d = collect-general (suc slots) seen ips d
    collect-general (suc slots) seen (some ip ∷ ips) d =
        elim (Option-cases (new_endpoint c fetch port path seen ip)) [
          | inl e ↦ rw (e, collect) (collect-general (suc slots) seen ips d)
          | inr (x, e) ↦
              let (label, said, new) = new_endpoint-Reports seen ip x e in
              let (d', short) =
                collect-general slots (x ∷ seen) ips (more x seen label said new d) in
              rw (e, collect) (d', omega arith)
        ]

    -- Whatever the service resolves to and whatever the pods answer, the refresh collects at most 64
    -- endpoints, under pairwise different names that are DNS labels. Each name is the whole text that
    -- the pod at the endpoint's address has reported as its name, at the given port and path.
    pub collect-AreDistinct :
        (ips : List (Option String))
        → let found = collect c fetch port path max_endpoints [] ips in
          AreDistinct found × (length found ≤ max_endpoints)
    collect-AreDistinct ips = collect-general max_endpoints [] ips empty
