-- ===== src/Json/Small.antt =====
-- A small JSON library that meets the laws of `JsonLib`, for the concrete runs.
use mod_janus.Base.{
  ℕ, String, ◌≡◌, refl, Bool, true, false, not, Option, none, some, [], is_some, if◌then◌else◌,
  str_eq, eq_iff, arith,
}
use mod_janus.Json.{JsonLib, Number}

mutual
  pub data Json : Type 0 where
    text : String → Json
    number : ℕ → Json
    flag : Bool → Json
    object : Items → Json

  pub data Items : Type 0 where
    end : Items
    entry : String → Json → Items → Items

unfoldable pub find_entry : Items → String → Option Json
find_entry end k = none
find_entry (entry j v t) k = if str_eq j k then some v else find_entry t k

unfoldable pub add_entry : Items → String → Json → Items
add_entry end k v = entry k v end
add_entry (entry j w t) k v = entry j w (add_entry t k v)

unfoldable pub change_entry : Items → String → Json → Items
change_entry end k v = end
change_entry (entry j w t) k v =
    let rest = change_entry t k v in if str_eq j k then entry j v t else entry j w rest

find_entry-add_entry :
    (t : Items) (k j : String) (v : Json)
    → find_entry (add_entry t k v) j
      ≡ (if is_some (find_entry t j) then find_entry t j else if str_eq k j then some v else none)
unfolding find_entry add_entry
find_entry-add_entry end k j v = refl
find_entry-add_entry (entry i w t) k j v = ground (arith, find_entry-add_entry t k j v)

find_entry-change_entry :
    (t : Items) (k j : String) (v : Json)
    → find_entry (change_entry t k v) j
      ≡ (if str_eq k j then (if is_some (find_entry t k) then some v else none) else find_entry t j)
unfolding find_entry change_entry
find_entry-change_entry end k j v = ground arith
find_entry-change_entry (entry i w t) k j v =
    ground (arith, find_entry-change_entry t k j v, eq_iff i k, eq_iff i j, eq_iff k j)

abbrev pub member : Json → String → Option Json
member (object t) k = find_entry t k
member _ k = none

abbrev pub with_member : Json → String → Json → Option Json
with_member (object t) k v = some (object (add_entry t k v))
with_member _ k v = none

abbrev pub with_change : Json → String → Json → Json
with_change (object t) k v = object (change_entry t k v)
with_change n k v = n

pub member-with_member :
    (n m v : Json) (k j : String)
    → with_member n k v ≡ some m
    → member m j
      ≡ (if is_some (member n j) then member n j else if str_eq k j then some v else none)
member-with_member (object t) m v k j h = ground (arith, h, find_entry-add_entry t k j v)
member-with_member (text s) m v k j h = absurd (ground (arith, h))
member-with_member (number n) m v k j h = absurd (ground (arith, h))
member-with_member (flag b) m v k j h = absurd (ground (arith, h))

pub member-with_change :
    (n v : Json) (k j : String)
    → member (with_change n k v) j
      ≡ (if str_eq k j then (if is_some (member n k) then some v else none) else member n j)
member-with_change (object t) v k j = find_entry-change_entry t k j v
member-with_change (text s) v k j = ground arith
member-with_change (number n) v k j = ground arith
member-with_change (flag b) v k j = ground arith

pub member-empty : (n : Json) (j : String) → some (object end) ≡ some n → member n j ≡ none
unfolding find_entry
member-empty n j h = ground (arith, h)

abbrev pub text_value : Json → Option String
text_value (text s) = some s
text_value _ = none

abbrev pub number_of : Json → Option Number
number_of (number n) = some (record { as_id = n; as_int = n })
number_of _ = none

abbrev pub json_lib : JsonLib
json_lib = record {
  Node = Json;
  get_item = member;
  is_object = λ n. elim n [ object t ↦ true | _ ↦ false ];
  is_array = λ n. false;
  is_bool = λ n. elim n [ flag b ↦ true | _ ↦ false ];
  is_true = λ n. elim n [ flag b ↦ b | _ ↦ false ];
  is_false = λ n. elim n [ flag b ↦ not b | _ ↦ false ];
  string_value = text_value;
  number_value = number_of;
  children = λ n. [];
  string_node = text;
  id_node = number;
  raw_node = text;
  bool_node = flag;
  create_object = some (object end);
  add_item = with_member;
  change_item = with_change;
  get_item-add_item = member-with_member;
  get_item-change_item = member-with_change;
  get_item-create_object = member-empty;
  string_value-string_node = λ s. refl;
}
