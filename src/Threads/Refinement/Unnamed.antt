-- ===== src/Threads/Refinement/Unnamed.antt =====
-- servers.c with stopServerThread of mod_janus.c: the eviction of a server takes out its name.
use mathlib.Core.Path.{subst}
use mod_janus.Base.{
  sym, ℕ, ◌≡◌, refl, ◌∙◌, true, false, not, ◌&&◌, none, [], arith, ==_iff, Option-cases, Bool-cases,
  inl, inr, ◌⊎◌,
}
use mod_janus.Base.Dict.{Dict, id_eq, name_eq, find, delete}
use mod_janus.Hash.{JanusId}
use mod_janus.Servers.{Server, Globals, store}
use mod_janus.Servers.Pods.{remove_from_lookup}
use mod_janus.Servers.Refresh.{evict}
use mod_janus.Threads.{closed, thread_end, stop_server_thread}
use mod_janus.Threads.Refinement.{pinned, bound_stop}

-- The servers have kept their names, and each is pinned and dynamic where it was.
pub record Kept (g g' : Globals) : Type 0 where
  pub next : g'.next ≡ g.next
  pub names : (q : ℕ) → (g'.heap q).name ≡ (g.heap q).name
  pub dynamic : (q : ℕ) → (g'.heap q).dynamic ≡ (g.heap q).dynamic
  pub pins : (q : ℕ) → pinned (g'.heap q) ≡ pinned (g.heap q)

-- The name of the server is taken out of the table, or was not there.
unfoldable pub Unnamed : Globals → ℕ → Globals → Type 0
Unnamed g p g' =
    (g'.by_name ≡ delete g.by_name (g.heap p).name)
    ⊎ ((g'.by_name ≡ g.by_name) × (find g.by_name (g.heap p).name ≡ none))

remove_from_lookup-Unnamed :
    (g : Globals) (p : ℕ)
    → (g.heap p).dynamic ≡ true
    → Unnamed g p (remove_from_lookup g p) × Kept g (remove_from_lookup g p)
unfolding remove_from_lookup store Unnamed
remove_from_lookup-Unnamed g p dyn = elim (Option-cases (find g.by_name (g.heap p).name)) [
  | inl e ↦ (
    inr (ground (arith, dyn, e), e),
    record {
      next = ground (arith, dyn, e);
      names = λ q. ground (arith, dyn, e);
      dynamic = λ q. ground (arith, dyn, e);
      pins = λ q. ground (arith, dyn, e);
    },
  )
  | inr (r, e) ↦ (
    inl (ground (arith, dyn, e)),
    record {
      next = ground (arith, dyn, e);
      names = λ q. ground (arith, dyn, e, ==_iff p q);
      dynamic = λ q. ground (arith, dyn, e, ==_iff p q);
      pins = λ q. ground (arith, dyn, e, ==_iff p q);
    },
  )
]

-- A change before and a change after, neither of which is to the names.
around-Unnamed :
    (g a b c : Globals) (p : ℕ)
    → a.by_name ≡ g.by_name
    → Kept g a
    → Unnamed a p b × Kept a b
    → c.by_name ≡ b.by_name
    → Kept b c
    → Unnamed g p c × Kept g c
unfolding Unnamed
around-Unnamed g a b c p before k0 (u, k1) behind k2 = (
  elim u [
    | inl e ↦ inl (ground (arith, before, behind, e, k0.names p))
    | inr (e, f) ↦ inr (ground (arith, before, behind, e), ground (arith, before, f, k0.names p))
  ],
  record {
    next = k2.next ∙ (k1.next ∙ k0.next);
    names = λ q. k2.names q ∙ (k1.names q ∙ k0.names q);
    dynamic = λ q. k2.dynamic q ∙ (k1.dynamic q ∙ k0.dynamic q);
    pins = λ q. k2.pins q ∙ (k1.pins q ∙ k0.pins q);
  },
)

store-Kept :
    (g : Globals) (p : ℕ) (s : Server)
    → s.name ≡ (g.heap p).name
    → s.dynamic ≡ (g.heap p).dynamic
    → s.calls_in_progress ≡ (g.heap p).calls_in_progress
    → Kept g (store g p s)
unfolding store
store-Kept g p s name dyn calls = record {
  next = refl;
  names = λ q. ground (arith, name, ==_iff p q);
  dynamic = λ q. ground (arith, dyn, ==_iff p q);
  pins = λ q. ground (arith, dyn, calls, ==_iff p q);
}

-- A change of a server and of the table of ids, then the removal.
then_remove-Unnamed :
    (g : Globals) (p : ℕ) (s : Server) (ids : Dict JanusId ℕ) (g' : Globals)
    → g' ≡ remove_from_lookup (record (store g p s) { by_id = ids }) p
    → (g.heap p).dynamic ≡ true
    → s.name ≡ (g.heap p).name
    → s.dynamic ≡ (g.heap p).dynamic
    → s.calls_in_progress ≡ (g.heap p).calls_in_progress
    → Unnamed g p g' × Kept g g'
unfolding store
then_remove-Unnamed g p s ids g' path dyn name same calls =
    let k = store-Kept g p s name same calls in
    let a = record (store g p s) { by_id = ids } in
    let ka : Kept g a = record {
      next = k.next;
      names = k.names;
      dynamic = k.dynamic;
      pins = k.pins;
    } in
    let removed = remove_from_lookup-Unnamed a p (k.dynamic p ∙ dyn) in
    subst (λ x. Unnamed g p x × Kept g x) (sym path)
      (around-Unnamed g a _ _ p refl ka removed refl
        (record { next = refl; names = λ q. refl; dynamic = λ q. refl; pins = λ q. refl }))

thread_end-Unnamed :
    (id : JanusId) (g : Globals) (p : ℕ)
    → (g.heap p).dynamic ≡ true
    → (g.heap p).evicted ≡ true
    → Unnamed g p (thread_end g p id) × Kept g (thread_end g p id)
unfolding thread_end
thread_end-Unnamed id g p dyn ev =
    then_remove-Unnamed g p (record (closed (g.heap p)) { sender_id_lookup = [] })
      (delete g.by_id id) (thread_end g p id) (ground (arith, ev)) dyn (ground arith) (ground arith)
      (ground arith)

Kept-refl : (g : Globals) → Kept g g
Kept-refl g = record { next = refl; names = λ q. refl; dynamic = λ q. refl; pins = λ q. refl }

stop-Unnamed :
    (id : JanusId) (g : Globals) (p : ℕ)
    → (g.heap p).dynamic ≡ true
    → (g.heap p).evicted ≡ true
    → Unnamed g p (stop_server_thread id g p) × Kept g (stop_server_thread id g p)
unfolding stop_server_thread store
stop-Unnamed id g p dyn ev =
    let s = g.heap p in
    elim (Bool-cases (s.enabled && not s.terminating && s.thread)) [
      | inr b ↦
          let skipped : stop_server_thread id g p ≡ remove_from_lookup g p =
            ground (arith, b, ev) in
          subst (λ x. Unnamed g p x × Kept g x) (sym skipped) (remove_from_lookup-Unnamed g p dyn)
      | inl b ↦
          let a = store g p (record s { terminating = true }) in
          let e = thread_end a p id in
          let l = record (e.heap p) { thread = false; terminating = false; enabled = false } in
          let marked = store-Kept g p (record s { terminating = true }) refl refl refl in
          let joined : stop_server_thread id g p ≡ store e p l = ground (arith, b) in
          subst (λ x. Unnamed g p x × Kept g x) (sym joined)
            (around-Unnamed g a e (store e p l) p (ground arith) marked
              (thread_end-Unnamed id a p (marked.dynamic p ∙ dyn) (ground (arith, ev, ==_iff p p)))
              (ground arith) (store-Kept e p l refl refl refl))
    ]

module _ (own_id : ℕ → JanusId) where
  abbrev out : Globals → ℕ → Globals
  out g p = evict (bound_stop own_id) g p

  pub evict-Unnamed :
      (g : Globals) (p : ℕ) → (g.heap p).dynamic ≡ true → Unnamed g p (out g p) × Kept g (out g p)
  unfolding evict store
  evict-Unnamed g p dyn =
      let marked = store-Kept g p (record (g.heap p) { evicted = true }) refl refl refl in
      let a = store g p (record (g.heap p) { evicted = true }) in
      around-Unnamed g a (out g p) (out g p) p (ground arith) marked
        (stop-Unnamed (own_id p) a p (marked.dynamic p ∙ dyn) (ground (arith, ==_iff p p))) refl
        (Kept-refl (out g p))
