-- ===== src/Base/Dict/Entries.antt =====
-- The entries of a table, as an iteration meets them.
use Prim.Native.Nat.{◌+◌, ◌≤◌}
use mathlib.Core.Path.{◌≡◌}
use mathlib.Core.Logic.{◌⊎◌, inl, inr}
use mathlib.Core.Bool.{false}
use mathlib.Core.Option.{some}
use mathlib.Core.List.{[], ◌∷◌}
use native.Mathlib.Omega.{arith}
use mod_janus.Base.Core.{Bool-cases, length}
use mod_janus.Base.Dict.{Eq, Dict, find, insert, delete}

module _ {K V : Type 0} ⦃e : Eq K⦄ where
  abbrev pub In : Dict K V → K → V → Type 0
  In [] k v = ⊥
  In ((j, w) ∷ d) k v = ((j ≡ k) × (w ≡ v)) ⊎ In d k v

  pub find-In : (d : Dict K V) (k : K) (v : V) → find d k ≡ some v → In d k v
  unfolding find
  find-In [] k v h = absurd (ground (arith, h))
  find-In ((j, w) ∷ d) k v h = elim (Bool-cases (e.beq j k)) [
    | inl b ↦ inl ((e.beq_iff j k).0 b, ground (arith, h, b))
    | inr b ↦ inr (find-In d k v (ground (arith, h, b)))
  ]

  pub In-insert :
      (d : Dict K V) (k j : K) (v w : V) → In (insert d k v) j w → ((k ≡ j) × (v ≡ w)) ⊎ In d j w
  unfolding insert
  In-insert [] k j v w h = h
  In-insert ((i, u) ∷ d) k j v w h = elim (Bool-cases (e.beq i k)) [
    | inl b ↦ elim (rw (b, insert) at h) [ inl p ↦ inl p | inr q ↦ inr (inr q) ]
    | inr b ↦ elim (rw (b, insert) at h) [
      | inl p ↦ inr (inl p)
      | inr q ↦ elim (In-insert d k j v w q) [ inl p ↦ inl p | inr r ↦ inr (inr r) ]
    ]
  ]

  pub In-delete :
      (d : Dict K V) (k j : K) (w : V) → In (delete d k) j w → In d j w × (e.beq k j ≡ false)
  unfolding delete
  In-delete [] k j w h = absurd h
  In-delete ((i, u) ∷ d) k j w h = elim (Bool-cases (e.beq i k)) [
    | inl b ↦ let (old, far) = In-delete d k j w (rw (b, delete) at h) in (inr old, far)
    | inr b ↦ elim (rw (b, delete) at h) [
      | inl p ↦ (inl p, ground (arith, b, p, e.beq_iff i k, e.beq_iff k j))
      | inr q ↦ let (old, far) = In-delete d k j w q in (inr old, far)
    ]
  ]

  pub length-insert : (d : Dict K V) (k : K) (v : V) → length (insert d k v) ≤ length d + 1
  unfolding insert
  length-insert [] k v = omega arith
  length-insert ((i, u) ∷ d) k v = ground (arith, length-insert d k v)
