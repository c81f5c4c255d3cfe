-- ===== src/Threads/Sound/Steps.antt =====
-- mod_janus.c and servers.c: the start, the end and the stop of a thread, the eviction and the check
-- of a server keep the table of names sound.
use mathlib.Core.Path.{subst}
use mod_janus.Base.{
  ℕ, ◌≡◌, ◌∙◌, refl, sym, Bool, true, false, [], String, Option, arith, ==_iff, Bool-cases,
  Option-cases, inl, inr, ◌⊎◌,
}
use mod_janus.Base.Dict.{id_eq, name_eq, find, delete}
use mod_janus.Hash.{JanusId}
use mod_janus.Json.{JsonLib}
use mod_janus.Servers.{Server, Globals, store}
use mod_janus.Servers.Pods.{remove_from_lookup, verify_identity}
use mod_janus.Servers.Refresh.{evict}
use mod_janus.Threads.{closed, thread_end, start_server_thread, stop_server_thread, verify_at}
use mod_janus.Threads.Refinement.{bound_stop}
use mod_janus.Threads.Stopping.{after_join, stop-cases}
use mod_janus.Threads.Sound.{
  fit, Touches, Steady, IsSound, Touches-IsSound, Touches-cut, Touches-store, store-Touches,
  Touches-refl, Steady-IsSound,
}

-- a write of a server that keeps its name and flags
pub store-Steady :
    (g : Globals) (p : ℕ) (s : Server)
    → s.name ≡ (g.heap p).name
    → fit s ≡ fit (g.heap p)
    → Steady g (store g p s)
unfolding store
store-Steady g p s name flags = record {
  next = refl;
  names = λ q. ground (arith, name, ==_iff p q);
  flags = λ q. ground (arith, flags, ==_iff p q);
  tables = refl;
}

pub start-IsSound :
    (force : Bool) (g : Globals) (p : ℕ) → IsSound g → IsSound (start_server_thread force g p).1
unfolding start_server_thread store
start-IsSound force g p =
    Touches-IsSound p g (start_server_thread force g p).1
      (record {
        next = ground arith;
        names = λ q. ground (arith, ==_iff p q);
        others = λ q far. ground (arith, far, ==_iff p q);
        own = inr (ground arith);
      })
      (λ h same. ground (arith, h, ==_iff p p))

remove_from_lookup-cases :
    (g : Globals) (p : ℕ)
    → (remove_from_lookup g p ≡ g)
      ⊎ (Touches p g (remove_from_lookup g p)
          × ((remove_from_lookup g p).by_name ≡ delete g.by_name (g.heap p).name))
unfolding remove_from_lookup store
remove_from_lookup-cases g p = elim (Bool-cases (g.heap p).dynamic) [
  | inr d ↦ inl (ground (arith, d))
  | inl d ↦ elim (Option-cases (find g.by_name (g.heap p).name)) [
    | inl e ↦ inl (ground (arith, d, e))
    | inr (r, e) ↦
        let cut : (remove_from_lookup g p).by_name ≡ delete g.by_name (g.heap p).name =
          ground (arith, d, e) in
        inr (
          record {
            next = ground arith;
            names = λ q. ground (arith, ==_iff p q);
            others = λ q far. ground (arith, far, ==_iff p q);
            own = inl cut;
          },
          cut,
        )
  ]
]

pub remove_from_lookup-Touches : (g : Globals) (p : ℕ) → Touches p g (remove_from_lookup g p)
remove_from_lookup-Touches g p = elim (remove_from_lookup-cases g p) [
  | inl same ↦ subst (Touches p g) (sym same) (Touches-refl p g)
  | inr (t, cut) ↦ t
]

-- An entry of a table that is in order is gone where its name is removed.
pub remove_from_lookup-IsSound :
    (g : Globals) (p : ℕ) → IsSound g → IsSound (remove_from_lookup g p)
remove_from_lookup-IsSound g p sound = elim (remove_from_lookup-cases g p) [
  | inl same ↦ subst IsSound (sym same) sound
  | inr (t, cut) ↦ Touches-cut p g (remove_from_lookup g p) t cut sound
]

-- the servers and tables before an evicted server is removed
abbrev closing : Globals → ℕ → JanusId → Globals
closing g p id = record (store g p (record (closed (g.heap p)) { sender_id_lookup = [] })) {
  by_id = delete g.by_id id;
}

closing-Steady : (g : Globals) (p : ℕ) (id : JanusId) → Steady g (closing g p id)
unfolding store
closing-Steady g p id = record {
  next = refl;
  names = λ q. ground (arith, ==_iff p q);
  flags = λ q. ground (arith, ==_iff p q);
  tables = refl;
}

thread_end-cases :
    (g : Globals) (p : ℕ) (id : JanusId)
    → (thread_end g p id ≡ remove_from_lookup (closing g p id) p)
      ⊎ (thread_end g p id ≡ closing g p id)
unfolding thread_end
thread_end-cases g p id = elim (Bool-cases (closed (g.heap p)).evicted) [
  | inl e ↦ inl (ground (arith, e))
  | inr e ↦ inr (ground (arith, e))
]

pub thread_end-IsSound :
    (g : Globals) (p : ℕ) (id : JanusId) → IsSound g → IsSound (thread_end g p id)
thread_end-IsSound g p id sound =
    let closes = Steady-IsSound g (closing g p id) (closing-Steady g p id) sound in
    elim (thread_end-cases g p id) [
      | inl e ↦ subst IsSound (sym e) (remove_from_lookup-IsSound (closing g p id) p closes)
      | inr e ↦ subst IsSound (sym e) closes
    ]

Steady-Touches : (p : ℕ) (g h k : Globals) → Steady g h → Touches p h k → Touches p g k
Steady-Touches p g h k a t = record {
  next = t.next ∙ a.next;
  names = λ q. t.names q ∙ a.names q;
  others = λ q far. t.others q far ∙ a.flags q;
  own = ground (arith, t.own, a.tables, a.names p);
}

thread_end-Touches : (g : Globals) (p : ℕ) (id : JanusId) → Touches p g (thread_end g p id)
thread_end-Touches g p id =
    let h = closing g p id in
    let closes = closing-Steady g p id in
    elim (thread_end-cases g p id) [
      | inl e ↦
          subst (Touches p g) (sym e)
            (Steady-Touches p g h (remove_from_lookup h p) closes (remove_from_lookup-Touches h p))
      | inr e ↦ subst (Touches p g) (sym e) (Steady-Touches p g h h closes (Touches-refl p h))
    ]

pub after_join-Touches : (id : JanusId) (g : Globals) (p : ℕ) → Touches p g (after_join id g p)
after_join-Touches id g p =
    let marked = record (g.heap p) { terminating = true } in
    let h = store g p marked in
    let e = thread_end h p id in
    Touches-store p g e (record (e.heap p) { thread = false; terminating = false; enabled = false })
      refl (store-Touches p g e marked refl (thread_end-Touches h p id))

after_join-IsSound : (id : JanusId) (g : Globals) (p : ℕ) → IsSound g → IsSound (after_join id g p)
unfolding store
after_join-IsSound id g p =
    Touches-IsSound p g (after_join id g p) (after_join-Touches id g p)
      (λ fits same. ground (arith, ==_iff p p))

pub stop-IsSound :
    (id : JanusId) (g : Globals) (p : ℕ) → IsSound g → IsSound (stop_server_thread id g p)
stop-IsSound id g p sound = elim (stop-cases id g p) [
  | inl (run, e) ↦ subst IsSound (sym e) (after_join-IsSound id g p sound)
  | inr (idle, inl e) ↦ subst IsSound (sym e) (remove_from_lookup-IsSound g p sound)
  | inr (idle, inr e) ↦ subst IsSound (sym e) sound
]

pub evict-IsSound :
    (own_id : ℕ → JanusId) (g : Globals) (p : ℕ)
    → IsSound g
    → IsSound (evict (bound_stop own_id) g p)
unfolding evict
evict-IsSound own_id g p sound =
    let marked = record (g.heap p) { evicted = true } in
    stop-IsSound (own_id p) (store g p marked) p
      (Steady-IsSound g (store g p marked) (store-Steady g p marked refl refl) sound)

verify-kept :
    (c : JsonLib) (fetch : String → Option c.Node) (now : ℕ) (s : Server)
    → ((verify_identity c fetch now s).1.name ≡ s.name)
      × (fit (verify_identity c fetch now s).1 ≡ fit s)
unfolding verify_identity
verify-kept c fetch now s = (ground arith, ground arith)

pub verify-IsSound :
    (c : JsonLib) (fetch : String → Option c.Node) (now : ℕ) (g : Globals) (p : ℕ)
    → IsSound g
    → IsSound (verify_at c fetch now g p).1
unfolding verify_at
verify-IsSound c fetch now g p =
    let s = (verify_identity c fetch now (g.heap p)).1 in
    let (name, flags) = verify-kept c fetch now (g.heap p) in
    Steady-IsSound g (store g p s) (store-Steady g p s name flags)
