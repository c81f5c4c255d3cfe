-- ===== src/Threads/Refinement/Spared.antt =====
-- servers.c: a refresh of the registry leaves alone the servers that are in use.
use mathlib.Core.Path.{subst}
use mod_janus.Base.{
  ℕ, ◌<◌, String, ◌≡◌, ◌≢◌, ◌⊎◌, ◌∙◌, sym, refl, Bool, true, not, ◌||◌, Option, List, [], ◌∷◌, ltb,
  arith, ==_iff, inl, inr, Bool-cases, zstr, or_else, Option-cases,
}
use mod_janus.Base.Dict.{id_eq, name_eq}
use mod_janus.Hash.{JanusId}
use mod_janus.Json.{JsonLib}
use mod_janus.Servers.{Server, Globals, store}
use mod_janus.Servers.Pods.{Hook}
use mod_janus.Servers.Url.{parse_http_url_parts, janus_path}
use mod_janus.Servers.Refresh.{
  Endpoint, register_all, evict, evict_all, evict_list, collect, max_endpoints, registry_refresh,
}
use mod_janus.Servers.Refresh.Stale.{IsGone, AllGone, more, evict_list-AllGone}
use mod_janus.Threads.Registry.{bound_start}
use mod_janus.Threads.Refinement.{bound_stop}
use mod_janus.Threads.Sound.Halts.{stop-elsewhere}
use mod_janus.Threads.Refinement.Stays.{Stays, Stays-refl, register_all-Keeps}

-- in use: with calls, or configured
abbrev pub is_used : Server → Bool
is_used s = ltb 0 s.calls_in_progress || not s.dynamic

evict-elsewhere :
    (ids : ℕ → JanusId) (g : Globals) (p q : ℕ)
    → q ≢ p
    → (evict (bound_stop ids) g p).heap q ≡ g.heap q
unfolding evict store
evict-elsewhere ids g p q far =
    let h = store g p (record (g.heap p) { evicted = true }) in
    stop-elsewhere (ids p) h p q far ∙ ground (arith, far, ==_iff p q)

-- a server that is in use is none of those that may go
used-apart :
    (seen : List Endpoint) (heap : ℕ → Server) (p q : ℕ)
    → IsGone seen (heap p)
    → is_used (heap q) ≡ true
    → q ≢ p
used-apart seen heap p q gone used same =
    let here : is_used (heap p) ≡ true = subst (λ r. is_used (heap r) ≡ true) same used in
    absurd (ground (arith, here, gone.dynamic, gone.idle))

evict_all-elsewhere :
    (ids : ℕ → JanusId) (seen : List Endpoint) (heap : ℕ → Server) (ps : List ℕ) (g : Globals)
    (q : ℕ)
    → AllGone seen heap ps
    → is_used (heap q) ≡ true
    → (evict_all (bound_stop ids) g ps).heap q ≡ g.heap q
unfolding evict_all
evict_all-elsewhere ids seen heap [] g q a used = refl
evict_all-elsewhere ids seen heap (p ∷ ps) g q (more _ _ gone rest) used =
    evict_all-elsewhere ids seen heap ps (evict (bound_stop ids) g p) q rest used
    ∙ evict-elsewhere ids g p q (used-apart seen heap p q gone used)

-- A refresh changes nothing, or registers pods and then evicts the servers that are stale.
refresh-cases :
    (c : JsonLib) (fetch : String → Option c.Node)
    (resolve : String → Option (List (Option String))) (stop : Hook) (now : ℕ) (g : Globals)
    → ((registry_refresh c fetch resolve bound_start stop now g).1 ≡ g)
      ⊎ ((defaults : Server) × (seen : List Endpoint) × (let g' =
              register_all bound_start now defaults seen g in
            (registry_refresh c fetch resolve bound_start stop now g).1
            ≡ evict_all stop g' (evict_list max_endpoints seen g'.heap g'.by_name)))
unfolding registry_refresh
refresh-cases c fetch resolve stop now g = elim (Option-cases g.pod_defaults) [
  | inl d ↦ inl (simp (d, registry_refresh))
  | inr (defaults, d) ↦ elim (Bool-cases (zstr g.headless_service_url)) [
    | inl u ↦ inl (simp (d, u, registry_refresh))
    | inr u ↦ elim (Option-cases (parse_http_url_parts (or_else g.headless_service_url ""))) [
      | inl p ↦ inl (simp (d, u, p, registry_refresh))
      | inr (parts, p) ↦ elim (Option-cases (resolve parts.host)) [
        | inl q ↦ inl (simp (d, u, p, q, registry_refresh))
        | inr (ips, q) ↦ inr (
          defaults,
          collect c fetch parts.port (janus_path parts.path) max_endpoints [] ips,
          simp (d, u, p, q, registry_refresh),
        )
      ]
    ]
  ]
]

-- Whatever the service resolves to and the pods answer, a refresh, with threads started and stopped
-- as the module does, leaves an allocated server that has calls, or that is not dynamic, in use: the
-- server keeps its session id, the table and the count of its calls and, if it has one, its thread.
pub registry_refresh-Stays :
    (c : JsonLib) (fetch : String → Option c.Node)
    (resolve : String → Option (List (Option String))) (ids : ℕ → JanusId) (now : ℕ) (g : Globals)
    (q : ℕ)
    → q < g.next
    → is_used (g.heap q) ≡ true
    → Stays
        (g.heap q)
        ((registry_refresh c fetch resolve bound_start (bound_stop ids) now g).1.heap q)
registry_refresh-Stays c fetch resolve ids now g q taken used =
    elim (refresh-cases c fetch resolve (bound_stop ids) now g) [
      | inl same ↦ subst (λ h. Stays (g.heap q) (h.heap q)) (sym same) (Stays-refl (g.heap q))
      | inr (defaults, seen, e) ↦
          let g' = register_all bound_start now defaults seen g in
          let (stays, there) = register_all-Keeps now defaults seen g q taken in
          let used' : is_used (g'.heap q) ≡ true = ground (arith, used, stays.count, stays.kind) in
          let gone = evict_list max_endpoints seen g'.heap g'.by_name in
          let all = evict_list-AllGone max_endpoints seen g'.heap g'.by_name in
          let kept = evict_all-elsewhere ids seen g'.heap gone g' q all used' in
          subst (λ h. Stays (g.heap q) (h.heap q)) (sym e)
            (subst (Stays (g.heap q)) (sym kept) stays)
    ]
