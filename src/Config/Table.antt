-- ===== src/Config/Table.antt =====
-- mod_janus.c and servers.c: the table of names and its servers after the configuration is loaded.
use mathlib.Core.Path.{subst}
use mod_janus.Base.{
  ℕ, ◌<◌, String, ◌≡◌, refl, ◌∙◌, sym, ap, Option, none, some, List, [], ◌∷◌, arith, is_some,
  ==_iff, Option-cases, Bool-cases, inl, inr, success, failed, ◌⊎◌,
}
use mod_janus.Base.Dict.{id_eq, name_eq, find, insert}
use mod_janus.Base.Dict.Entries.{In, In-insert}
use mod_janus.Servers.{Server, Globals, Transport, alloc}
use mod_janus.Servers.Pods.{capture_defaults}
use mod_janus.Servers.Add.{
  Param, ServerXml, Site, set_params, fresh_server, transport_of, install, servers_add,
}
use mod_janus.Servers.Add.Configured.{IsConfigured, set_params-IsPlain, fresh_server-IsPlain}
use mod_janus.Threads.Refinement.Table.{IsTable, insert-IsTable, heap-IsTable}
use mod_janus.Config.{
  ConfigXml, set_setting, set_settings, registry_defaults, add_servers, load_config,
}

-- The table of names is in order, and leads to servers as the configuration adds them.
pub record IsReady (site : Site) (g : Globals) : Type 0 where
  pub table : IsTable g
  pub configured : (k : String) (p : ℕ) → In g.by_name k p → IsConfigured site (g.heap p)

install-tables :
    (g : Globals) (s : Server)
    → ((install g s).by_name ≡ insert g.by_name s.name g.next)
      × (g.next < (install g s).next)
      × ((install g s).heap g.next ≡ s)
      × ((p : ℕ) → p < g.next → (install g s).heap p ≡ g.heap p)
unfolding install alloc capture_defaults
install-tables g s = elim (Bool-cases (is_some g.pod_defaults)) [
  | inl e ↦
      rw (install, e)
        (
          refl,
          omega arith,
          ground (arith, ==_iff g.next g.next),
          λ p l. ground (arith, l, ==_iff g.next p),
        )
  | inr e ↦
      rw (install, e)
        (
          refl,
          omega arith,
          ground (arith, ==_iff g.next g.next),
          λ p l. ground (arith, l, ==_iff g.next p),
        )
]

install-IsReady :
    (site : Site) (g : Globals) (s : Server)
    → find g.by_name s.name ≡ none
    → IsConfigured site s
    → IsReady site g
    → IsReady site (install g s)
install-IsReady site g s new configured ready =
    let (tables, room, own, old) = install-tables g s in
    record {
      table =
          insert-IsTable g (install g s) s.name new tables room (ap (λ t. t.name) own)
            (λ p l. ap (λ t. t.name) (old p l)) ready.table;
      configured = λ k p i.
          elim (In-insert g.by_name s.name k g.next p (subst (λ d. In d k p) tables i)) [
            | inl (a, b) ↦
                subst (λ t. IsConfigured site t) (sym (ap (install g s).heap (sym b) ∙ own))
                  configured
            | inr before ↦
                subst (λ t. IsConfigured site t) (sym (old p (ready.table k p before).allocated))
                  (ready.configured k p before)
          ];
    }

-- the server that the parameters make
abbrev made : Site → Globals → ServerXml → Server
made site g xml = set_params site g.guess_ip xml.params (fresh_server xml.name)

-- Either nothing is added, or the name is new, and the server has a URL and the transport for it.
servers_add-cases :
    (site : Site) (xml : ServerXml) (g : Globals)
    → (servers_add site xml g ≡ (failed, g))
      ⊎ ((url : String) × (transport : Transport) × (find g.by_name xml.name ≡ none)
          × ((made site g xml).url ≡ some url)
          × (transport_of site.has_ws url ≡ some transport)
          × (servers_add site xml g
              ≡ (success, install g (record (made site g xml) { transport = transport }))))
unfolding servers_add
servers_add-cases site xml g = elim (Option-cases (find g.by_name xml.name)) [
  | inr (p, e) ↦ inl (ground (arith, e))
  | inl e ↦ elim (Option-cases (made site g xml).url) [
    | inl u ↦ inl (ground (arith, e, u))
    | inr (url, u) ↦ elim (Option-cases (transport_of site.has_ws url)) [
      | inl t ↦ inl (ground (arith, e, u, t))
      | inr (transport, t) ↦ inr (url, transport, e, u, t, ground (arith, e, u, t))
    ]
  ]
]

servers_add-IsReady :
    (site : Site) (xml : ServerXml) (g : Globals)
    → IsReady site g
    → IsReady site (servers_add site xml g).1
servers_add-IsReady site xml g ready = elim (servers_add-cases site xml g) [
  | inl e ↦ rw e ready
  | inr (url, transport, new, u, t, e) ↦
      let s = made site g xml in
      let plain =
        set_params-IsPlain xml.name site g.guess_ip xml.params (fresh_server xml.name)
          (fresh_server-IsPlain site.max_cand_acl xml.name) in
      rw e (
        install-IsReady site g (record s { transport = transport })
          (ground (arith, new, plain.named))
          (record {
            url = ground (arith, u);
            transport = λ v h. ground (arith, h, u, t);
            plain = record {
              named = refl;
              static = plain.static;
              no_session = plain.no_session;
              no_calls = plain.no_calls;
              no_thread = plain.no_thread;
              not_stopping = plain.not_stopping;
              acls = plain.acls;
            };
          })
          ready)
]

set_settings-tables :
    (site : Site) (ps : List Param) (g : Globals)
    → ((set_settings site ps g).by_name ≡ g.by_name)
      × ((set_settings site ps g).heap ≡ g.heap)
      × ((set_settings site ps g).next ≡ g.next)
unfolding set_settings set_setting
set_settings-tables site [] g = (refl, refl, refl)
set_settings-tables site (p ∷ ps) g =
    let g' = set_setting site p g in
    let (tables, heap, next) = set_settings-tables site ps g' in
    (tables ∙ ground arith, heap ∙ ground arith, next ∙ ground arith)

-- A change of the settings.
settings-IsReady :
    (site : Site) (g g' : Globals)
    → g'.by_name ≡ g.by_name
    → g'.heap ≡ g.heap
    → g'.next ≡ g.next
    → IsReady site g
    → IsReady site g'
settings-IsReady site g g' tables heap next ready = record {
  table =
      heap-IsTable g g' tables (omega (arith, next)) (λ p. ap (λ h. (h p).name) heap) ready.table;
  configured = λ k p i.
      subst (λ h. IsConfigured site (h p)) (sym heap)
        (ready.configured k p (subst (λ d. In d k p) tables i));
}

add_servers-IsReady :
    (site : Site) (xs : List ServerXml) (g : Globals)
    → IsReady site g
    → IsReady site (add_servers site xs g)
unfolding add_servers
add_servers-IsReady site [] g ready = ready
add_servers-IsReady site (x ∷ xs) g ready =
    add_servers-IsReady site xs (servers_add site x g).1 (servers_add-IsReady site x g ready)

List-cases :
    (xs : List ServerXml) → (xs ≡ []) ⊎ ((x : ServerXml) × (ys : List ServerXml) × (xs ≡ x ∷ ys))
List-cases [] = inl refl
List-cases (x ∷ xs) = inr (x, xs, refl)

empty-IsReady : (site : Site) (g : Globals) → g.by_name ≡ [] → IsReady site g
empty-IsReady site g empty = record {
  table = λ k p i. absurd (subst (λ d. In d k p) empty i);
  configured = λ k p i. absurd (subst (λ d. In d k p) empty i);
}

read-IsReady :
    (site : Site) (ps : List Param) (g : Globals)
    → IsReady site g
    → IsReady site (registry_defaults (set_settings site ps g))
unfolding registry_defaults
read-IsReady site ps g ready =
    let g' = set_settings site ps g in
    let (tables, heap, next) = set_settings-tables site ps g in
    settings-IsReady site g' (registry_defaults g') (ground arith) (ground arith) (ground arith)
      (settings-IsReady site g g' tables heap next ready)

-- Whatever the configuration says, from an empty table of names, and whether loading succeeds: every
-- entry of the table is the one that its name finds, it leads to a server that was allocated under
-- that name, and that server has a URL with the transport for it, belongs to no pod, has neither a
-- session nor calls, and has no more access lists than their array has places.
pub load_config-IsReady :
    (site : Site) (xml : Option ConfigXml) (g : Globals)
    → g.by_name ≡ []
    → IsReady site (load_config site xml g).1
unfolding load_config
load_config-IsReady site none g empty = empty-IsReady site g empty
load_config-IsReady site (some xml) g empty =
    let g' = registry_defaults (set_settings site xml.settings g) in
    let ready = read-IsReady site xml.settings g (empty-IsReady site g empty) in
    elim (List-cases xml.servers) [
      | inl e ↦ rw e ready
      | inr (x, xs, e) ↦ rw e (add_servers-IsReady site (x ∷ xs) g' ready)
    ]
