-- ===== src/Json/Items/Operators.antt =====
-- Lists as constructors, keyed additions, sorting, merging and comparing (src/json.cpp).
use box_utils.Common.{Bytes, ℕ, Bool, true, false, ◌&&◌, List, [], ◌∷◌, take}
use box_utils.Json.Interface.{CJson}
use box_utils.Json.Store.{object, Store, Cmd, pure, gets, modify, update, ◌>>=◌, ◌>>◌}
use box_utils.Json.Types.{cjson_of, check_is}
use box_utils.Json.Items.{call, effect, new_json}

module _ (lib : CJson) where
  open lib use {
    Mem, Int, Double, int_of_bool, valueint, valuedouble, is_bool, is_number, create_number,
    create_string, create_array, create_int_array, create_string_reference, duplicate,
    add_item_to_array, add_string_to_object, add_null_to_object, add_bool_to_object, create_bool,
    sort_object, merge_patch, double_of_int, int_equal, double_equal, compare_nodes,
  }

  -- The `for` loop of the constructors from lists, over `cJSON_CreateNumber` or its kin.
  pub add_all : {A : Type 0} → (A → Mem → ℕ × Mem) → ℕ → List A → Cmd Int (Store Mem) (Unit {0})
  unfolding call effect
  add_all create a [] = pure tt
  add_all create a (val ∷ vlist) = do
    p ← call lib (create val)
    effect lib (add_item_to_array a p)
    add_all create a vlist

  from_list : {A : Type 0} → (A → Mem → ℕ × Mem) → List A → Cmd Int (Store Mem) ℕ
  unfolding call new_json add_all
  from_list create vlist = do
    a ← call lib create_array
    j ← new_json lib a false
    add_all create a vlist
    pure j

  -- `Json(const std::initializer_list<int> &)`
  pub from_ints : List Int → Cmd Int (Store Mem) ℕ
  unfolding from_list
  from_ints = from_list (λ i. create_number (double_of_int i))

  pub from_doubles : List Double → Cmd Int (Store Mem) ℕ
  unfolding from_list
  from_doubles = from_list create_number

  pub from_strings : List Bytes → Cmd Int (Store Mem) ℕ
  unfolding from_list
  from_strings = from_list create_string

  pub create_true : Cmd Int (Store Mem) ℕ
  unfolding call new_json
  create_true = do p ← call lib (create_bool true); new_json lib p false

  pub create_false : Cmd Int (Store Mem) ℕ
  unfolding call new_json
  create_false = do p ← call lib (create_bool false); new_json lib p false

  -- `CreateIntArray` of the first `count` numbers.
  pub create_json_int_array : List Int → ℕ → Cmd Int (Store Mem) ℕ
  unfolding call new_json
  create_json_int_array numbers count = do
    p ← call lib (create_int_array (take count numbers))
    new_json lib p false

  pub create_json_string_ref : Bytes → Cmd Int (Store Mem) ℕ
  unfolding call new_json
  create_json_string_ref str = do p ← call lib (create_string_reference str); new_json lib p false

  pub clone : ℕ → Cmd Int (Store Mem) ℕ
  unfolding call new_json
  clone j = do p ← gets (cjson_of lib j); d ← call lib (duplicate p); new_json lib d false

  -- `add_string(const char *, const char *)`
  pub add_string_object : ℕ → Bytes → Bytes → Cmd Int (Store Mem) (Unit {0})
  unfolding effect check_is
  add_string_object j key str = do
    check_is lib object j
    o ← gets (cjson_of lib j)
    effect lib (add_string_to_object o key str)

  -- `add_null(const char *)`
  pub add_null_object : ℕ → Bytes → Cmd Int (Store Mem) (Unit {0})
  unfolding effect check_is
  add_null_object j key = do
    check_is lib object j
    o ← gets (cjson_of lib j)
    effect lib (add_null_to_object o key)

  -- `add_bool(const char *, bool)`
  pub add_bool_object : ℕ → Bytes → Bool → Cmd Int (Store Mem) (Unit {0})
  unfolding effect check_is
  add_bool_object j key b = do
    check_is lib object j
    o ← gets (cjson_of lib j)
    effect lib (add_bool_to_object o key b)

  pub sort : ℕ → Bool → Cmd Int (Store Mem) (Unit {0})
  unfolding effect
  sort j case_sensitive = do p ← gets (cjson_of lib j); effect lib (sort_object case_sensitive p)

  -- `holder->cjson = ...`
  set_cjson : ℕ → ℕ → Cmd Int (Store Mem) (Unit {0})
  set_cjson j p = modify (λ s. record s {
    holders = update s.holders j (record { cjson = p; ref = (s.holders j).ref });
  })

  -- `merge`: the holder takes the node that cJSON_Utils answers.
  pub merge : ℕ → ℕ → Bool → Cmd Int (Store Mem) (Unit {0})
  unfolding call set_cjson
  merge j json case_sensitive = do
    target ← gets (cjson_of lib j)
    patch ← gets (cjson_of lib json)
    p ← call lib (merge_patch case_sensitive target patch)
    set_cjson j p

  pub cmp : ℕ → ℕ → Bool → Cmd Int (Store Mem) Bool
  cmp j json case_sensitive =
      gets (λ s. compare_nodes s.mem (cjson_of lib j s) (cjson_of lib json s) case_sensitive)

  -- `operator ==(const Json &)`
  pub equals : ℕ → ℕ → Cmd Int (Store Mem) Bool
  unfolding cmp
  equals j json = cmp j json true

  -- `operator ==(int)`
  pub equals_int : ℕ → Int → Cmd Int (Store Mem) Bool
  equals_int j val =
      gets (λ s.
        is_number s.mem (cjson_of lib j s) && int_equal (valueint s.mem (cjson_of lib j s)) val)

  -- `operator ==(double)`
  pub equals_double : ℕ → Double → Cmd Int (Store Mem) Bool
  equals_double j val = gets (λ s.
      is_number s.mem (cjson_of lib j s) && double_equal (valuedouble s.mem (cjson_of lib j s)) val)

  -- `operator ==(bool)`
  pub equals_bool : ℕ → Bool → Cmd Int (Store Mem) Bool
  equals_bool j val = gets (λ s.
      is_bool s.mem (cjson_of lib j s)
      && int_equal (valueint s.mem (cjson_of lib j s)) (int_of_bool val))
