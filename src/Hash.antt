-- ===== src/Hash.antt =====
-- hash.c and hash.h: `hash_t`, a table keyed by 64-bit Janus ids, over FreeSWITCH's table of
-- strings. FreeSWITCH's `switch_core_hash_*` is the parameter `HashLib`.
pub mod Laws
mod Tests
use mod_janus.Base.{
  ℕ, String, ◌≡◌, Bool, true, false, Option, none, some, Status, success, failed, decimal, str_eq,
  is_some, if◌then◌else◌,
}
use mathlib.Core.Option

-- switch_core_hash: a finite map on strings. An insert may report a failure, and then the table is
-- as it was. An iteration goes through `Index` values, in an order that is not specified.
pub record HashLib (V : Type 0) : Type 1 where
  pub Table : Type 0
  pub Index : Type 0
  pub find : Table → String → Option V
  pub insert : Table → String → V → Option Table
  pub delete : Table → String → Table
  pub first : Table → Option Index
  pub next : Index → Option Index
  pub this : Index → V
  pub find-insert :
      (t u : Table) (k j : String) (v : V)
      → insert t k v ≡ some u
      → find u j ≡ (if str_eq k j then some v else find t j)
  pub find-delete :
      (t : Table) (k j : String) → find (delete t k) j ≡ (if str_eq k j then none else find t j)

-- janus_id_t
abbrev pub JanusId : Type 0
JanusId = ℕ

-- idToStr
id_to_str : JanusId → String
id_to_str id = decimal id

module _ {V : Type 0} (h : HashLib V) where
  open h use {Table, Index, find, insert, delete, first, next, this}

  -- hashInsert
  unfoldable pub hash_insert : Table → JanusId → V → Status × Table
  unfolding id_to_str
  hash_insert t id v = elim (insert t (id_to_str id) v) [
    | none ↦ (failed, t)
    | some u ↦ (success, u)
  ]

  -- hashFind
  unfoldable pub hash_find : Table → JanusId → Option V
  unfolding id_to_str
  hash_find t id = find t (id_to_str id)

  -- hashDelete: the status says whether the table held the id
  unfoldable pub hash_delete : Table → JanusId → Status × Table
  unfolding id_to_str
  hash_delete t id =
      (if is_some (find t (id_to_str id)) then success else failed, delete t (id_to_str id))

  -- hashIterate: the caller keeps the index, and passes NULL first
  unfoldable pub hash_iterate : Table → Option Index → Option V × Option Index
  hash_iterate t none = (Option.map this (first t), first t)
  hash_iterate t (some i) = (Option.map this (next i), next i)
