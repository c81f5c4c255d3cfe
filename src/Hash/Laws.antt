-- ===== src/Hash/Laws.antt =====
-- hash.c: the table of ids is a map on 64-bit ids, since no two ids print alike.
use mod_janus.Base.{
  ◌≡◌, none, some, success, decimal, decimal_injective, str_eq, eq_iff, if◌then◌else◌, arith, ◌==◌,
  ap,
}
use mod_janus.Hash.{HashLib, JanusId, hash_insert, hash_find, hash_delete}

-- Two ids have the same key exactly when they are the same id.
str_eq-decimal : (i j : JanusId) → str_eq (decimal i) (decimal j) ≡ (i == j)
str_eq-decimal i j =
    ground
      (arith, eq_iff (decimal i) (decimal j), decimal_injective i j, ap decimal {x = i} {y = j})

module _ {V : Type 0} (h : HashLib V) where
  open h use {Table, find, insert, delete, find-insert, find-delete}

  -- After an insert that reports success, a lookup of that id gives the value that was inserted,
  -- and a lookup of any other id gives what it gave before.
  pub find-insert_id :
      (t u : Table) (i j : JanusId) (v : V)
      → hash_insert h t i v ≡ (success, u)
      → hash_find h u j ≡ (if i == j then some v else hash_find h t j)
  unfolding hash_insert hash_find
  find-insert_id t u i j v e =
      rw (← str_eq-decimal i j) (find-insert t u (decimal i) (decimal j) v (ground arith))

  -- After a delete the id is not found, and every other id is found as before.
  pub find-delete_id :
      (t : Table) (i j : JanusId)
      → hash_find h (hash_delete h t i).1 j ≡ (if i == j then none else hash_find h t j)
  unfolding hash_delete hash_find
  find-delete_id t i j = rw (find-delete t (decimal i) (decimal j), str_eq-decimal i j)
