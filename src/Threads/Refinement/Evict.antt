-- ===== src/Threads/Refinement/Evict.antt =====
-- servers.c with stopServerThread of mod_janus.c: what the eviction of servers does to a name.
use mod_janus.Base.{
  ℕ, String, ◌≡◌, refl, Bool, true, false, ◌||◌, ◌&&◌, none, List, [], ◌∷◌, if◌then◌else◌, arith,
  str_eq, eq_iff, Option-cases, inl, inr,
}
use mod_janus.Base.Dict.{id_eq, name_eq, find, find-delete}
use mod_janus.Hash.{JanusId}
use mod_janus.Servers.{Server, Globals}
use mod_janus.Servers.Refresh.{evict, evict_all}
use mod_janus.Threads.Refinement.{view, bound_stop}
use mod_janus.Threads.Refinement.Table.{IsTable, heap-IsTable, delete-IsTable}
use mod_janus.Threads.Refinement.Unnamed.{Kept, Unnamed, evict-Unnamed}

Unnamed-view :
    (g g' : Globals) (p : ℕ) (k : String)
    → Unnamed g p g'
    → Kept g g'
    → view g' k ≡ (if str_eq (g.heap p).name k then none else view g k)
unfolding Unnamed view
Unnamed-view g g' p k (inl e) kept = elim (Option-cases (find g.by_name k)) [
  | inl f ↦ ground (arith, e, f, find-delete g.by_name (g.heap p).name k)
  | inr (q, f) ↦ ground (arith, e, f, kept.pins q, find-delete g.by_name (g.heap p).name k)
]
Unnamed-view g g' p k (inr (e, absent)) kept = elim (Option-cases (find g.by_name k)) [
  | inl f ↦ ground (arith, e, f, absent)
  | inr (q, f) ↦ ground (arith, e, f, absent, kept.pins q, eq_iff (g.heap p).name k)
]

Unnamed-IsTable : (g g' : Globals) (p : ℕ) → Unnamed g p g' → Kept g g' → IsTable g → IsTable g'
unfolding Unnamed
Unnamed-IsTable g g' p (inl e) kept t =
    delete-IsTable g g' (g.heap p).name e (omega (arith, kept.next)) kept.names t
Unnamed-IsTable g g' p (inr (e, absent)) kept t =
    heap-IsTable g g' e (omega (arith, kept.next)) kept.names t

-- a server of the list has the name
unfoldable pub named : (ℕ → Server) → List ℕ → String → Bool
named heap [] k = false
named heap (p ∷ ps) k = str_eq (heap p).name k || named heap ps k

-- every server of the list is dynamic
unfoldable pub all_dynamic : (ℕ → Server) → List ℕ → Bool
all_dynamic heap [] = true
all_dynamic heap (p ∷ ps) = (heap p).dynamic && all_dynamic heap ps

Kept-lists :
    (g g' : Globals) (ps : List ℕ) (k : String)
    → Kept g g'
    → (named g'.heap ps k ≡ named g.heap ps k) × (all_dynamic g'.heap ps ≡ all_dynamic g.heap ps)
unfolding named all_dynamic
Kept-lists g g' [] k kept = (refl, refl)
Kept-lists g g' (p ∷ ps) k kept =
    let rest = Kept-lists g g' ps k kept in
    (ground (arith, kept.names p, rest), ground (arith, kept.dynamic p, rest))

module _ (own_id : ℕ → JanusId) where
  -- The names of the servers that are evicted are unknown afterwards, all others are as before.
  pub evict_all-view :
      (ps : List ℕ) (g : Globals) (k : String)
      → all_dynamic g.heap ps ≡ true
      → IsTable g
      → (view (evict_all (bound_stop own_id) g ps) k
          ≡ (if named g.heap ps k then none else view g k))
        × IsTable (evict_all (bound_stop own_id) g ps)
  unfolding evict_all named all_dynamic
  evict_all-view [] g k dyn t = (refl, t)
  evict_all-view (p ∷ ps) g k dyn t =
      let (u, kept) = evict-Unnamed own_id g p (ground (arith, dyn)) in
      let g' = evict (bound_stop own_id) g p in
      let same = Kept-lists g g' ps k kept in
      let (seen, table) =
        evict_all-view ps g' k (ground (arith, dyn, same)) (Unnamed-IsTable g g' p u kept t) in
      (ground (arith, seen, same, Unnamed-view g g' p k u kept), table)
