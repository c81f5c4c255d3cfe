-- ===== src/Threads/Sound.antt =====
-- mod_janus.c: the flags of the servers that the table of names leads to. A thread runs only for a
-- server that is enabled, and no server is being stopped; so that a stop finds each of the threads.
pub mod Steps
pub mod Turns
pub mod Halts
pub mod Pods
use mathlib.Core.Path.{subst}
use mod_janus.Base.{
  ℕ, ◌≤◌, String, ◌≡◌, ◌≢◌, ◌⊎◌, inl, inr, ◌∙◌, sym, ap, refl, Bool, true, not, ◌&&◌, ◌||◌, arith,
  eq_iff, ==_iff, ◌==◌, Bool-cases,
}
use mod_janus.Base.Dict.{id_eq, name_eq, find, delete}
use mod_janus.Base.Dict.Entries.{In, In-delete}
use mod_janus.Servers.{Server, Globals, store}
use mod_janus.Threads.Refinement.Table.{IsTable, heap-IsTable, delete-IsTable}

-- not being stopped, and enabled if it has a thread
abbrev pub fit : Server → Bool
fit s = not s.terminating && (not s.thread || s.enabled)

-- The table of names is in order and leads to fit servers.
pub record IsSound (g : Globals) : Type 0 where
  pub table : IsTable g
  pub all_fit : (k : String) (p : ℕ) → In g.by_name k p → fit (g.heap p) ≡ true

-- A step that changes at most the server `p`, whose name may be taken out of the table.
pub record Touches (p : ℕ) (g g' : Globals) : Type 0 where
  pub next : g'.next ≡ g.next
  pub names : (q : ℕ) → (g'.heap q).name ≡ (g.heap q).name
  pub others : (q : ℕ) → q ≢ p → fit (g'.heap q) ≡ fit (g.heap q)
  pub own : (g'.by_name ≡ delete g.by_name (g.heap p).name) ⊎ (g'.by_name ≡ g.by_name)

-- The server stays fit, where its name stays.
abbrev pub StaysFit : ℕ → Globals → Globals → Type 0
StaysFit p g g' = fit (g.heap p) ≡ true → g'.by_name ≡ g.by_name → fit (g'.heap p) ≡ true

pub Touches-cut :
    (p : ℕ) (g g' : Globals)
    → Touches p g g'
    → g'.by_name ≡ delete g.by_name (g.heap p).name
    → IsSound g
    → IsSound g'
Touches-cut p g g' t cut sound = record {
  table = delete-IsTable g g' (g.heap p).name cut (omega (arith, t.next)) t.names sound.table;
  all_fit = λ k q i.
      let (old, far) = In-delete g.by_name (g.heap p).name k q (subst (λ d. In d k q) cut i) in
      let f = sound.all_fit k q old in
      let named = (sound.table k q old).named in
      ground (arith, f, t.others q, far, named, ==_iff q p, eq_iff (g.heap p).name k);
}

pub Touches-IsSound :
    (p : ℕ) (g g' : Globals) → Touches p g g' → StaysFit p g g' → IsSound g → IsSound g'
Touches-IsSound p g g' t stays sound = elim t.own [
  | inr same ↦ record {
    table = heap-IsTable g g' same (omega (arith, t.next)) t.names sound.table;
    all_fit = λ k q i.
        let f = sound.all_fit k q (subst (λ d. In d k q) same i) in
        let keeps : fit (g.heap p) ≡ true → fit (g'.heap p) ≡ true = λ h. stays h same in
        ground (arith, f, t.others q, keeps, ==_iff q p);
  }
  | inl cut ↦ Touches-cut p g g' t cut sound
]

pub Touches-store :
    (p : ℕ) (g h : Globals) (s : Server)
    → s.name ≡ (h.heap p).name
    → Touches p g h
    → Touches p g (store h p s)
unfolding store
Touches-store p g h s name t = record {
  next = t.next;
  names = λ q. ground (arith, name, t.names q, ==_iff p q);
  others = λ q far. ground (arith, far, t.others q, ==_iff p q);
  own = t.own;
}

pub store-Touches :
    (p : ℕ) (g h : Globals) (s : Server)
    → s.name ≡ (g.heap p).name
    → Touches p (store g p s) h
    → Touches p g h
unfolding store
store-Touches p g h s name t = record {
  next = t.next;
  names = λ q. ground (arith, name, t.names q, ==_iff p q);
  others = λ q far. ground (arith, far, t.others q, ==_iff p q);
  own = ground (arith, name, t.own, ==_iff p p);
}

pub Touches-refl : (p : ℕ) (g : Globals) → Touches p g g
Touches-refl p g = record { next = refl; names = λ q. refl; others = λ q far. refl; own = inr refl }

-- A step that changes no name, no flag and no entry.
pub record Steady (g g' : Globals) : Type 0 where
  pub next : g'.next ≡ g.next
  pub names : (q : ℕ) → (g'.heap q).name ≡ (g.heap q).name
  pub flags : (q : ℕ) → fit (g'.heap q) ≡ fit (g.heap q)
  pub tables : g'.by_name ≡ g.by_name

pub Steady-IsSound : (g g' : Globals) → Steady g g' → IsSound g → IsSound g'
Steady-IsSound g g' t sound = record {
  table = heap-IsTable g g' t.tables (omega (arith, t.next)) t.names sound.table;
  all_fit = λ k q i. t.flags q ∙ sound.all_fit k q (subst (λ d. In d k q) t.tables i);
}

pub Steady-refl : (g : Globals) → Steady g g
Steady-refl g = record { next = refl; names = λ q. refl; flags = λ q. refl; tables = refl }

pub Steady-trans : (g h k : Globals) → Steady g h → Steady h k → Steady g k
Steady-trans g h k a b = record {
  next = b.next ∙ a.next;
  names = λ q. b.names q ∙ a.names q;
  flags = λ q. b.flags q ∙ a.flags q;
  tables = b.tables ∙ a.tables;
}

pub same-Steady : (g h : Globals) → h ≡ g → Steady g h
same-Steady g h same = subst (Steady g) (sym same) (Steady-refl g)
