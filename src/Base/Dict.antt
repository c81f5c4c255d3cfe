-- ===== src/Base/Dict.antt =====
-- A table of FreeSWITCH as an association list: `find` takes the first entry of a key, `insert`
-- replaces the entry of its key or adds one, and an iteration goes through the list in order.
pub mod Entries
use Prim.Native.Nat.{ℕ}
use Prim.Native.String.{String}
use mathlib.Core.Path.{◌≡◌, refl}
use mathlib.Core.Logic.{◌↔◌}
use mathlib.Core.Bool.{Bool, true}
use mathlib.Core.Option.{Option, none, some}
use mathlib.Core.List.{List, [], ◌∷◌}
use native.Mathlib.Omega.{arith}
use text.Mathlib.Text.{◌==◌ as str_eq}
use text.Mathlib.TextEquality.{eq_iff}
use mod_janus.Base.Core.{◌==◌, ==_iff, if◌then◌else◌}

pub record Eq (K : Type 0) : Type 0 where
  pub beq : K → K → Bool
  pub beq_iff : (a b : K) → (beq a b ≡ true) ↔ (a ≡ b)

instance abbrev pub id_eq : Eq ℕ
id_eq = record { beq = ◌==◌; beq_iff = ==_iff }

instance abbrev pub name_eq : Eq String
name_eq = record { beq = str_eq; beq_iff = eq_iff }

abbrev pub Dict : Type 0 → Type 0 → Type 0
Dict K V = List (K × V)

module _ {K V : Type 0} ⦃e : Eq K⦄ where
  unfoldable pub find : Dict K V → K → Option V
  find [] k = none
  find ((j, v) ∷ d) k = if e.beq j k then some v else find d k

  unfoldable pub insert : Dict K V → K → V → Dict K V
  insert [] k v = (k, v) ∷ []
  insert ((j, w) ∷ d) k v = if e.beq j k then (k, v) ∷ d else (j, w) ∷ insert d k v

  unfoldable pub delete : Dict K V → K → Dict K V
  delete [] k = []
  delete ((j, v) ∷ d) k = let rest = delete d k in if e.beq j k then rest else (j, v) ∷ rest

  pub find-insert :
      (d : Dict K V) (k j : K) (v : V)
      → find (insert d k v) j ≡ (if e.beq k j then some v else find d j)
  unfolding find insert
  find-insert [] k j v = refl
  find-insert ((i, w) ∷ d) k j v =
      ground (arith, e.beq_iff k j, e.beq_iff i k, e.beq_iff i j, find-insert d k j v)

  pub find-delete :
      (d : Dict K V) (k j : K) → find (delete d k) j ≡ (if e.beq k j then none else find d j)
  unfolding find delete
  find-delete [] k j = ground arith
  find-delete ((i, w) ∷ d) k j =
      ground (arith, e.beq_iff k j, e.beq_iff i k, e.beq_iff i j, find-delete d k j)
