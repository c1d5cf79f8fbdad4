-- ===== src/Json/Interface.antt =====
-- cJSON, as src/json.cpp uses it. A node is an address, 0 the null pointer, and `Mem` the state
-- of all nodes. The laws are what cJSON documents of the fields that its setters write.
use box_utils.Common.{Bytes, ℕ, ◌≡◌, Bool, Option, List}

pub record CJson : Type 1 where
  pub Mem : Type 0
  pub Int : Type 0
  pub Double : Type 0
  pub int_of_bool : Bool → Int
  pub bool_of_int : Int → Bool
  -- The fields of a node.
  pub kind : Mem → ℕ → ℕ
  pub valueint : Mem → ℕ → Int
  pub valuedouble : Mem → ℕ → Double
  pub valuestring : Mem → ℕ → Bytes
  pub name : Mem → ℕ → Option Bytes
  pub child : Mem → ℕ → ℕ
  pub next : Mem → ℕ → ℕ
  pub prev : Mem → ℕ → ℕ
  -- Its tests of a node's type, false on the null pointer.
  pub is_bool : Mem → ℕ → Bool
  pub is_true : Mem → ℕ → Bool
  pub is_false : Mem → ℕ → Bool
  pub is_null : Mem → ℕ → Bool
  pub is_array : Mem → ℕ → Bool
  pub is_number : Mem → ℕ → Bool
  pub is_string : Mem → ℕ → Bool
  pub is_object : Mem → ℕ → Bool
  pub has_object_item : Mem → ℕ → Bytes → Bool
  -- The functions.
  pub parse : Bytes → Mem → ℕ × Mem
  pub get_error_ptr : Mem → Bytes
  pub create_null : Mem → ℕ × Mem
  pub create_bool : Bool → Mem → ℕ × Mem
  pub create_number : Double → Mem → ℕ × Mem
  pub create_string : Bytes → Mem → ℕ × Mem
  pub create_array : Mem → ℕ × Mem
  pub create_object : Mem → ℕ × Mem
  pub duplicate : ℕ → Mem → ℕ × Mem
  pub delete : ℕ → Mem → Mem
  pub add_item_to_array : ℕ → ℕ → Mem → Mem
  pub add_item_to_object : ℕ → Bytes → ℕ → Mem → Mem
  pub get_object_item : Mem → ℕ → Bytes → ℕ
  pub get_array_item : Mem → ℕ → Int → ℕ
  pub get_array_size : Mem → ℕ → Int
  pub detach_from_array : ℕ → Int → Mem → ℕ × Mem
  pub detach_from_object : Bool → ℕ → Bytes → Mem → ℕ × Mem
  pub set_int_value : ℕ → Int → Mem → Mem
  pub set_number_helper : ℕ → Double → Mem → Mem
  pub set_valuestring : ℕ → Bytes → Mem → Mem
  pub compare_nodes : Mem → ℕ → ℕ → Bool → Bool
  pub create_int_array : List Int → Mem → ℕ × Mem
  pub create_string_reference : Bytes → Mem → ℕ × Mem
  pub add_string_to_object : ℕ → Bytes → Bytes → Mem → Mem
  pub add_null_to_object : ℕ → Bytes → Mem → Mem
  pub add_bool_to_object : ℕ → Bytes → Bool → Mem → Mem
  pub sort_object : Bool → ℕ → Mem → Mem
  pub merge_patch : Bool → ℕ → ℕ → Mem → ℕ × Mem
  -- C's arithmetic on the values.
  pub double_of_int : Int → Double
  pub int_equal : Int → Int → Bool
  pub double_equal : Double → Double → Bool
  -- What they are documented to do to a node's fields.
  pub set_int_value_kind : (p : ℕ) (i : Int) (m : Mem) → kind (set_int_value p i m) p ≡ kind m p
  pub set_int_value_lem : (p : ℕ) (i : Int) (m : Mem) → valueint (set_int_value p i m) p ≡ i
  pub set_number_kind : (p : ℕ) (d : Double) (m : Mem) → kind (set_number_helper p d m) p ≡ kind m p
  pub set_number_lem : (p : ℕ) (d : Double) (m : Mem) → valuedouble (set_number_helper p d m) p ≡ d
  pub set_valuestring_kind :
      (p : ℕ) (s : Bytes) (m : Mem) → kind (set_valuestring p s m) p ≡ kind m p
  pub set_valuestring_lem :
      (p : ℕ) (s : Bytes) (m : Mem) → valuestring (set_valuestring p s m) p ≡ s
