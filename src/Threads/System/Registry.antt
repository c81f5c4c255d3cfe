-- ===== src/Threads/System/Registry.antt =====
-- mod_janus.c and servers.c: the start of a thread, the registry's work and the check of a server
-- before a call keep the session ids consistent.
use mathlib.Core.Path.{subst}
use mod_janus.Base.{
  sym, ℕ, String, ◌≡◌, ◌⊎◌, inl, inr, refl, Bool, true, Option, arith, ==_iff, if◌then◌else◌,
  Option-cases, Bool-cases,
}
use mod_janus.Base.Dict.{id_eq, name_eq, find}
use mod_janus.Json.{JsonLib}
use mod_janus.Servers.{Server, Globals, store, alloc}
use mod_janus.Servers.Pods.{
  create_registry_server, registry_server, update_registry_server, verify_identity,
}
use mod_janus.Servers.Refresh.{Endpoint, register, evict}
use mod_janus.Threads.{start_server_thread, stop_server_thread, verify_at}
use mod_janus.Threads.Registry.{bound_start}
use mod_janus.Threads.Refinement.{bound_stop}
use mod_janus.Threads.Stopping.{has_thread}
use mod_janus.Threads.System.{System, hold, with_globals}
use mod_janus.Threads.System.Invariant.{IsConsistent, IsQuiet-IsConsistent}
use mod_janus.Threads.System.Stop.{stops-IsConsistent}

-- the table of ids stays, and a server keeps its session id or has none
abbrev pub Keeps : Globals → Globals → Type 0
Keeps g h =
    (h.by_id ≡ g.by_id)
    × ((q : ℕ) → ((h.heap q).server_id ≡ (g.heap q).server_id) ⊎ ((h.heap q).server_id ≡ 0))

pub Keeps-IsConsistent :
    (s : System) (g : Globals)
    → Keeps s.world.globals g
    → IsConsistent s
    → IsConsistent (with_globals s g)
Keeps-IsConsistent s g keeps k =
    IsQuiet-IsConsistent s (with_globals s g)
      (record { own = λ q. refl; table = λ id. ground (arith, keeps.0); ids = keeps.1 }) k

start-Keeps : (force : Bool) (g : Globals) (p : ℕ) → Keeps g (start_server_thread force g p).1
unfolding start_server_thread store
start-Keeps force g p = (ground arith, λ q. ground (arith, ==_iff p q))

create-Keeps :
    (now : ℕ) (defaults : Server) (name ip url : String) (g : Globals)
    → Keeps g (create_registry_server bound_start now defaults name ip url g)
unfolding create_registry_server registry_server start_server_thread store alloc
create-Keeps now defaults name ip url g = (ground arith, λ q. ground (arith, ==_iff g.next q))

store-Keeps :
    (g : Globals) (p : ℕ) (t : Server) → t.server_id ≡ (g.heap p).server_id → Keeps g (store g p t)
unfolding store
store-Keeps g p t same = (refl, λ q. inl (ground (arith, same, ==_iff p q)))

Keeps-trans : (g h k : Globals) → Keeps g h → Keeps h k → Keeps g k
Keeps-trans g h k a b = (ground (arith, a.0, b.0), λ q. ground (arith, a.1 q, b.1 q))

update-server_id :
    (now : ℕ) (ip url : String) (s : Server)
    → (update_registry_server now ip url s).server_id ≡ s.server_id
unfolding update_registry_server
update-server_id now ip url s = ground arith

register-Keeps :
    (now : ℕ) (defaults : Server) (x : Endpoint) (g : Globals)
    → Keeps g (register bound_start now defaults x g)
unfolding register
register-Keeps now defaults x g =
    let is_kept : (h : Globals)
        → register bound_start now defaults x g ≡ h
        → Keeps g h
        → Keeps g (register bound_start now defaults x g) =
      λ h same keeps. subst (Keeps g) (sym same) keeps in
    elim (Option-cases (find g.by_name x.pod_name)) [
      | inl e ↦
          is_kept (create_registry_server bound_start now defaults x.pod_name x.pod_ip x.url g)
            (ground (arith, e)) (create-Keeps now defaults x.pod_name x.pod_ip x.url g)
      | inr (p, e) ↦
          let t = update_registry_server now x.pod_ip x.url (g.heap p) in
          let h = store g p t in
          let kept = store-Keeps g p t (update-server_id now x.pod_ip x.url (g.heap p)) in
          let started =
            Keeps-trans g h (start_server_thread true h p).1 kept (start-Keeps true h p) in
          elim (Bool-cases (g.heap p).dynamic) [
            | inr d ↦ is_kept g (ground (arith, e, d)) (refl, λ q. inl refl)
            | inl d ↦ elim (Bool-cases (g.heap p).enabled) [
              | inl on ↦ is_kept h (ground (arith, e, d, on)) kept
              | inr off ↦
                  is_kept (start_server_thread true h p).1 (ground (arith, e, d, off)) started
            ]
          ]
    ]

verify-server_id :
    (c : JsonLib) (fetch : String → Option c.Node) (now : ℕ) (s : Server)
    → (verify_identity c fetch now s).1.server_id ≡ s.server_id
unfolding verify_identity
verify-server_id c fetch now s = ground arith

pub runs-IsConsistent :
    (s : System) (force : Bool) (p : ℕ)
    → IsConsistent s
    → IsConsistent (with_globals s (start_server_thread force s.world.globals p).1)
runs-IsConsistent s force p = Keeps-IsConsistent s _ (start-Keeps force s.world.globals p)

pub registers-IsConsistent :
    (s : System) (now : ℕ) (defaults : Server) (x : Endpoint)
    → IsConsistent s
    → IsConsistent (with_globals s (register bound_start now defaults x s.world.globals))
registers-IsConsistent s now defaults x =
    Keeps-IsConsistent s _ (register-Keeps now defaults x s.world.globals)

pub verifies-IsConsistent :
    (c : JsonLib) (fetch : String → Option c.Node) (now : ℕ) (s : System) (p : ℕ)
    → IsConsistent s
    → IsConsistent (with_globals s (verify_at c fetch now s.world.globals p).1)
unfolding verify_at
verifies-IsConsistent c fetch now s p =
    let g = s.world.globals in
    Keeps-IsConsistent s _ (
      store-Keeps g p (verify_identity c fetch now (g.heap p)).1
        (verify-server_id c fetch now (g.heap p)))

-- a server is marked, and then stopped
pub evicts-IsConsistent :
    (s : System) (p : ℕ)
    → IsConsistent s
    → IsConsistent (
        hold s p
          (if has_thread (s.world.globals.heap p) then 0 else s.own p)
          (record s.world { globals = evict (bound_stop s.own) s.world.globals p }))
unfolding evict hold store
evicts-IsConsistent s p k =
    let g = s.world.globals in
    let h = store g p (record (g.heap p) { evicted = true }) in
    let marked = with_globals s h in
    let stopped =
      stops-IsConsistent marked p
        (Keeps-IsConsistent s h (store-Keeps g p (record (g.heap p) { evicted = true }) refl) k) in
    let same : has_thread (h.heap p) ≡ has_thread (g.heap p) = ground (arith, ==_iff p p) in
    subst
      (λ run. IsConsistent (
        hold s p (if run then 0 else s.own p)
          (record s.world { globals = stop_server_thread (s.own p) h p })))
      same stopped
