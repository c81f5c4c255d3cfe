-- ===== src/Hash/Tests.antt =====
-- An association list meets the laws of `HashLib`; the theorems of hash.c at that table.
use mod_janus.Base.{
  decimal, ℕ, String, ◌≡◌, refl, Option, none, some, List, [], ◌∷◌, str_eq, eq_iff, if◌then◌else◌,
  arith,
}
use mod_janus.Hash.{HashLib, hash_insert, hash_find, hash_delete}
use mod_janus.Hash.Laws.{find-insert_id, find-delete_id}

abbrev Assoc : Type 0
Assoc = List (String × ℕ)

find : Assoc → String → Option ℕ
find [] k = none
find ((j, v) ∷ t) k = if str_eq j k then some v else find t k

delete : Assoc → String → Assoc
delete [] k = []
delete ((j, v) ∷ t) k = let rest = delete t k in if str_eq j k then rest else (j, v) ∷ rest

find-delete :
    (t : Assoc) (k j : String) → find (delete t k) j ≡ (if str_eq k j then none else find t j)
unfolding find delete
find-delete [] k j = ground arith
find-delete ((i, v) ∷ t) k j = ground (arith, find-delete t k j, eq_iff i k, eq_iff i j, eq_iff k j)

find-insert :
    (t u : Assoc) (k j : String) (v : ℕ)
    → some ((k, v) ∷ t) ≡ some u
    → find u j ≡ (if str_eq k j then some v else find t j)
unfolding find
find-insert t u k j v e = ground arith

first : Assoc → Option ((String × ℕ) × Assoc)
first [] = none
first (x ∷ t) = some (x, t)

abbrev assoc_lib : HashLib ℕ
assoc_lib = record {
  Table = Assoc;
  Index = (String × ℕ) × Assoc;
  find = find;
  insert = λ t k v. some ((k, v) ∷ t);
  delete = delete;
  first = first;
  next = λ i. first i.1;
  this = λ i. i.0.1;
  find-insert = find-insert;
  find-delete = find-delete;
}

abbrev two_servers : Assoc
two_servers = ("12", 7) ∷ ("112", 8) ∷ []

other_id_kept :
    hash_find assoc_lib (("5", 9) ∷ two_servers) 112 ≡ hash_find assoc_lib two_servers 112
unfolding hash_insert decimal
other_id_kept = find-insert_id assoc_lib two_servers (("5", 9) ∷ two_servers) 5 112 9 refl

deleted_id_gone : hash_find assoc_lib (hash_delete assoc_lib two_servers 12).1 12 ≡ none
deleted_id_gone = find-delete_id assoc_lib two_servers 12 12
