-- ===== src/Json.antt =====
-- cJSON.h, the calls that the module makes of it. cJSON is a copy of another project's library, so
-- it is a parameter: its documents, the calls on them, and what its header documents of the calls.
pub mod Small
use mod_janus.Base.{ℕ, String, ◌≡◌, Bool, Option, none, some, List, str_eq, is_some, if◌then◌else◌}

-- A number item: `(janus_id_t) valuedouble` and `valueint`.
pub record Number : Type 0 where
  pub as_id : ℕ
  pub as_int : ℕ

-- `get_item` is cJSON_GetObjectItemCaseSensitive; `string_value` and `number_value` are the type
-- test with the value behind it. A call that creates or adds returns `none` where memory runs out.
pub record JsonLib : Type 1 where
  pub Node : Type 0
  pub get_item : Node → String → Option Node
  pub is_object : Node → Bool
  pub is_array : Node → Bool
  pub is_bool : Node → Bool
  pub is_true : Node → Bool
  pub is_false : Node → Bool
  pub string_value : Node → Option String
  pub number_value : Node → Option Number
  pub children : Node → List Node
  pub string_node : String → Node
  pub id_node : ℕ → Node
  pub raw_node : String → Node
  pub bool_node : Bool → Node
  pub create_object : Option Node
  pub add_item : Node → String → Node → Option Node
  -- the document after the item under a name was changed in place
  pub change_item : Node → String → Node → Node
  -- an added item goes behind those of the same name
  pub get_item-add_item :
      (n m v : Node) (k j : String)
      → add_item n k v ≡ some m
      → get_item m j
        ≡ (if is_some (get_item n j) then get_item n j else if str_eq k j then some v else none)
  pub get_item-change_item :
      (n v : Node) (k j : String)
      → get_item (change_item n k v) j
        ≡ (if str_eq k j then (if is_some (get_item n k) then some v else none) else get_item n j)
  pub get_item-create_object :
      (n : Node) (j : String) → create_object ≡ some n → get_item n j ≡ none
  pub string_value-string_node : (s : String) → string_value (string_node s) ≡ some s
