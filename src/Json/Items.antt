-- ===== src/Json/Items.antt =====
-- Parsing, making, finding, adding and taking out nodes (src/json.cpp). A node belongs to the
-- holder whose `ref` is false: that holder's destructor deletes it.
pub mod Ownership
pub mod Operators
use box_utils.Common.{ℕ, suc, Bytes, Bool, true, false, not, if◌then◌else◌, ok, ◌==◌}
use box_utils.Json.Interface.{CJson}
use box_utils.Json.Store.{
  array, object, string, Holder, Error, type_error, json_parse_error, key_error, index_error, Store,
  Cmd, pure, raise, gets, modify, lift, update, ◌>>=◌, ◌>>◌,
}
use box_utils.Json.Types.{cjson_of, check_is}

module _ (lib : CJson) where
  open lib use {
    Mem, Int, Double, parse, get_error_ptr, create_null, create_bool, create_number, create_string,
    create_array, create_object, duplicate, delete, add_item_to_array, add_item_to_object,
    get_object_item, get_array_item, detach_from_array, detach_from_object,
  }

  -- A call of cJSON that answers a node.
  pub call : (Mem → ℕ × Mem) → Cmd Int (Store Mem) ℕ
  call f s = let (p, m) = f s.mem in ok (p, record s { mem = m })

  -- A call that answers nothing.
  pub effect : (Mem → Mem) → Cmd Int (Store Mem) (Unit {0})
  effect f = modify (λ s. record s { mem = f s.mem })

  -- `Json(cJSON *, bool)`: a new holder.
  pub new_json : ℕ → Bool → Cmd Int (Store Mem) ℕ
  new_json p is_ref s = ok (
    s.next_holder,
    record s {
      holders = update s.holders s.next_holder (record { cjson = p; ref = is_ref });
      next_holder = suc s.next_holder;
    },
  )

  -- `~JsonHolder`
  pub destroy_holder : ℕ → Cmd Int (Store Mem) (Unit {0})
  unfolding effect
  destroy_holder j s =
      if not (s.holders j).ref then effect (delete (cjson_of lib j s)) s else ok (tt, s)

  pub copy : ℕ → Cmd Int (Store Mem) ℕ
  unfolding call new_json
  copy j = do p ← gets (cjson_of lib j); d ← call (duplicate p); new_json d false

  pub parse_string : Bytes → Cmd Int (Store Mem) ℕ
  unfolding call new_json
  parse_string str = do
    p ← call (parse str)
    if p == 0
        then (do e ← gets (λ s. get_error_ptr s.mem); raise (json_parse_error e))
        else new_json p false

  pub create_json_null : Cmd Int (Store Mem) ℕ
  unfolding call new_json
  create_json_null = do p ← call create_null; new_json p false

  pub create_json_bool : Bool → Cmd Int (Store Mem) ℕ
  unfolding call new_json
  create_json_bool b = do p ← call (create_bool b); new_json p false

  pub create_json_number : Double → Cmd Int (Store Mem) ℕ
  unfolding call new_json
  create_json_number d = do p ← call (create_number d); new_json p false

  pub create_json_string : Bytes → Cmd Int (Store Mem) ℕ
  unfolding call new_json
  create_json_string str = do p ← call (create_string str); new_json p false

  pub create_json_array : Cmd Int (Store Mem) ℕ
  unfolding call new_json
  create_json_array = do p ← call create_array; new_json p false

  pub create_json_table : Cmd Int (Store Mem) ℕ
  unfolding call new_json
  create_json_table = do p ← call create_object; new_json p false

  -- `operator [](const char *)`
  pub get_item : ℕ → Bytes → Cmd Int (Store Mem) ℕ
  unfolding new_json check_is
  get_item j key = do
    check_is lib object j
    p ← gets (λ s. get_object_item s.mem (cjson_of lib j s) key)
    if p == 0 then raise (key_error key) else new_json p true

  -- `operator [](int)`
  pub get_index : ℕ → Int → Cmd Int (Store Mem) ℕ
  unfolding new_json check_is
  get_index j i = do
    check_is lib array j
    p ← gets (λ s. get_array_item s.mem (cjson_of lib j s) i)
    if p == 0 then raise (index_error i) else new_json p true

  -- `holder->ref = true`
  set_ref : ℕ → Cmd Int (Store Mem) (Unit {0})
  set_ref j = modify (λ s. record s {
    holders = update s.holders j (record { cjson = (s.holders j).cjson; ref = true });
  })

  -- `add_item(Json &&)`
  pub add_item_array : ℕ → ℕ → Cmd Int (Store Mem) (Unit {0})
  unfolding call effect set_ref check_is
  add_item_array j json = do
    check_is lib array j
    a ← gets (cjson_of lib j)
    p ← gets (cjson_of lib json)
    is_ref ← gets (λ s. (s.holders j).ref)
    if not is_ref
        then (do set_ref j; effect (add_item_to_array a p))
        else do d ← call (duplicate p); effect (add_item_to_array a d)

  -- `add_item(const char *, Json &&)`
  pub add_item_object : ℕ → Bytes → ℕ → Cmd Int (Store Mem) (Unit {0})
  unfolding call effect set_ref check_is
  add_item_object j key json = do
    check_is lib object j
    o ← gets (cjson_of lib j)
    p ← gets (cjson_of lib json)
    is_ref ← gets (λ s. (s.holders json).ref)
    if not is_ref
        then (do set_ref json; effect (add_item_to_object o key p))
        else do d ← call (duplicate p); effect (add_item_to_object o key d)

  -- `add_string(const char *)`
  pub add_string : ℕ → Bytes → Cmd Int (Store Mem) (Unit {0})
  unfolding call effect check_is
  add_string j str = do
    check_is lib array j
    a ← gets (cjson_of lib j)
    p ← call (create_string str)
    effect (add_item_to_array a p)

  -- `add_number(double)`
  pub add_number : ℕ → Double → Cmd Int (Store Mem) (Unit {0})
  unfolding call effect check_is
  add_number j d = do
    check_is lib array j
    a ← gets (cjson_of lib j)
    p ← call (create_number d)
    effect (add_item_to_array a p)

  -- `add_number(const char *, double)`
  pub add_number_object : ℕ → Bytes → Double → Cmd Int (Store Mem) (Unit {0})
  unfolding call effect check_is
  add_number_object j key d = do
    check_is lib object j
    o ← gets (cjson_of lib j)
    p ← call (create_number d)
    effect (add_item_to_object o key p)

  -- `add_null()`
  pub add_null : ℕ → Cmd Int (Store Mem) (Unit {0})
  unfolding call effect check_is
  add_null j = do
    check_is lib array j
    a ← gets (cjson_of lib j)
    p ← call create_null
    effect (add_item_to_array a p)

  -- `add_bool(bool)`
  pub add_bool : ℕ → Bool → Cmd Int (Store Mem) (Unit {0})
  unfolding call effect check_is
  add_bool j b = do
    check_is lib array j
    a ← gets (cjson_of lib j)
    p ← call (create_bool b)
    effect (add_item_to_array a p)

  -- `pop(int)`
  pub pop : ℕ → Int → Cmd Int (Store Mem) ℕ
  unfolding call new_json check_is
  pop j i = do
    check_is lib array j
    a ← gets (cjson_of lib j)
    p ← call (detach_from_array a i)
    if p == 0 then raise (index_error i) else new_json p false

  -- `pop(const char *, bool)`
  pub pop_key : ℕ → Bytes → Bool → Cmd Int (Store Mem) ℕ
  unfolding call new_json check_is
  pop_key j key case_sensitive = do
    check_is lib object j
    o ← gets (cjson_of lib j)
    p ← call (detach_from_object case_sensitive o key)
    if p == 0 then raise (key_error key) else new_json p false
