-- ===== src/Threads/Refinement/Table.antt =====
-- servers.c: the table of names is kept in order.
use mathlib.Core.Path.{subst}
use mod_janus.Base.{ℕ, ◌<◌, ◌≤◌, String, ◌≡◌, ◌∙◌, sym, none, some, arith, eq_iff, inl, inr}
use mod_janus.Base.Dict.{id_eq, name_eq, find, insert, delete, find-insert, find-delete}
use mod_janus.Base.Dict.Entries.{In, find-In, In-insert, In-delete}
use mod_janus.Servers.{Globals}

-- Each entry is the one that its name finds, and leads to a server that was allocated under it.
pub record IsEntry (g : Globals) (k : String) (p : ℕ) : Type 0 where
  pub named : (g.heap p).name ≡ k
  pub allocated : p < g.next
  pub found : find g.by_name k ≡ some p

abbrev pub IsTable : Globals → Type 0
IsTable g = (k : String) (p : ℕ) → In g.by_name k p → IsEntry g k p

pub find-IsEntry :
    (g : Globals) (k : String) (p : ℕ) → IsTable g → find g.by_name k ≡ some p → IsEntry g k p
find-IsEntry g k p t h = t k p (find-In g.by_name k p h)

-- A change of the servers that keeps their names and gives back no place.
pub heap-IsTable :
    (g g' : Globals)
    → g'.by_name ≡ g.by_name
    → g.next ≤ g'.next
    → ((p : ℕ) → (g'.heap p).name ≡ (g.heap p).name)
    → IsTable g
    → IsTable g'
heap-IsTable g g' tables room names t k p entry =
    let old = t k p (subst (λ d. In d k p) tables entry) in
    record {
      named = names p ∙ old.named;
      allocated = omega (arith, old.allocated);
      found = subst (λ d. find d k ≡ some p) (sym tables) old.found;
    }

-- A new server under a name that was unknown.
pub insert-IsTable :
    (g g' : Globals) (name : String)
    → find g.by_name name ≡ none
    → g'.by_name ≡ insert g.by_name name g.next
    → g.next < g'.next
    → (g'.heap g.next).name ≡ name
    → ((p : ℕ) → p < g.next → (g'.heap p).name ≡ (g.heap p).name)
    → IsTable g
    → IsTable g'
insert-IsTable g g' name new tables room own names t k p entry =
    elim (In-insert g.by_name name k g.next p (subst (λ d. In d k p) tables entry)) [
      | inl (a, b) ↦ record {
        named = ground (arith, own, a, b);
        allocated = omega (arith, b);
        found = ground (arith, tables, find-insert g.by_name name k g.next, a, b, eq_iff name k);
      }
      | inr old ↦
          let x = t k p old in
          record {
            named = names p x.allocated ∙ x.named;
            allocated = omega (arith, x.allocated);
            found =
                ground
                  (arith, tables, find-insert g.by_name name k g.next, x.found, new, eq_iff name k);
          }
    ]

-- A removed name.
pub delete-IsTable :
    (g g' : Globals) (name : String)
    → g'.by_name ≡ delete g.by_name name
    → g.next ≤ g'.next
    → ((p : ℕ) → (g'.heap p).name ≡ (g.heap p).name)
    → IsTable g
    → IsTable g'
delete-IsTable g g' name tables room names t k p entry =
    let (old, far) = In-delete g.by_name name k p (subst (λ d. In d k p) tables entry) in
    let x = t k p old in
    record {
      named = names p ∙ x.named;
      allocated = omega (arith, x.allocated);
      found = ground (arith, tables, find-delete g.by_name name k, x.found, far);
    }
