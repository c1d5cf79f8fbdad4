-- ===== src/Json/Lookup.antt =====
-- Comparing a `Json` with a string or null, and looking for a key (src/json.cpp).
pub mod Keys
use box_utils.Common.{
  [], ◌∷◌, aborted, ℕ, zero, suc, Bytes, Bool, true, false, ◌&&◌, ◌==◌, Option, none, some, Run, ok,
  throw, undefined,
}
use box_utils.Json.Interface.{CJson}
use box_utils.Json.Store.{object, Error, Store}
use box_utils.Json.Types.{cjson_of, check_is}

-- `strcmp(a, b) == 0`, on strings without their terminators.
unfoldable pub same : Bytes → Bytes → Bool
same [] [] = true
same [] (y ∷ b) = false
same (x ∷ a) [] = false
same (x ∷ a) (y ∷ b) = (x == y) && same a b

module _ (lib : CJson) where
  open lib use {Mem, Int, valuestring, name, child, next, is_string, is_null, has_object_item}

  -- `operator ==(const char *)`
  pub equals_string : ℕ → Bytes → Store Mem → Bool
  unfolding same
  equals_string j str s =
      is_string s.mem (cjson_of lib j s) && same str (valuestring s.mem (cjson_of lib j s))

  -- `operator ==(std::nullptr_t)`
  pub equals_null : ℕ → Store Mem → Bool
  equals_null j s = is_null s.mem (cjson_of lib j s)

  -- The loop of `has`, `none` where the fuel does not do; a child without a name is a null pointer
  -- for `strcmp`.
  pub has_loop : ℕ → Mem → ℕ → Bytes → Run (Error Int) (Option Bool)
  unfolding same
  has_loop zero m p key = ok none
  has_loop (suc fuel) m p key = elim (p == 0) [
    | true ↦ ok (some false)
    | false ↦ elim (name m p) [
      | none ↦ undefined
      | some str ↦ elim (same str key) [
        | true ↦ ok (some true)
        | false ↦ has_loop fuel m (next m p) key
      ]
    ]
  ]

  pub has : ℕ → ℕ → Bytes → Bool → Store Mem → Run (Error Int) (Option Bool)
  unfolding has_loop
  has fuel j key case_sensitive s = elim (check_is lib object j s) [
    | throw e ↦ throw e
    | undefined ↦ undefined
    | aborted ↦ aborted
    | ok r ↦ elim case_sensitive [
      | true ↦ has_loop fuel s.mem (child s.mem (cjson_of lib j s)) key
      | false ↦ ok (some (has_object_item s.mem (cjson_of lib j s) key))
    ]
  ]
