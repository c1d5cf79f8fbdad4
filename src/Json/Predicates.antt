-- ===== src/Json/Predicates.antt =====
-- The tests of the type of a `Json` (src/json.cpp).
use box_utils.Common.{ℕ, Bool}
use box_utils.Json.Interface.{CJson}
use box_utils.Json.Store.{Store, Cmd, gets}
use box_utils.Json.Types.{cjson_of}

module _ (lib : CJson) where
  open lib use {Mem, Int}

  abbrev ask : (Mem → ℕ → Bool) → ℕ → Cmd Int (Store Mem) Bool
  ask test j = gets (λ s. test s.mem (cjson_of lib j s))

  pub json_is_bool : ℕ → Cmd Int (Store Mem) Bool
  json_is_bool j = ask lib.is_bool j

  pub json_is_true : ℕ → Cmd Int (Store Mem) Bool
  json_is_true j = ask lib.is_true j

  pub json_is_false : ℕ → Cmd Int (Store Mem) Bool
  json_is_false j = ask lib.is_false j

  pub json_is_null : ℕ → Cmd Int (Store Mem) Bool
  json_is_null j = ask lib.is_null j

  -- `is_array` and `is_list`
  pub json_is_array : ℕ → Cmd Int (Store Mem) Bool
  json_is_array j = ask lib.is_array j

  pub json_is_number : ℕ → Cmd Int (Store Mem) Bool
  json_is_number j = ask lib.is_number j

  pub json_is_string : ℕ → Cmd Int (Store Mem) Bool
  json_is_string j = ask lib.is_string j

  -- `is_object` and `is_table`
  pub json_is_object : ℕ → Cmd Int (Store Mem) Bool
  json_is_object j = ask lib.is_object j
