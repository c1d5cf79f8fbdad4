-- ===== src/Json/Iterator.antt =====
-- `JsonIterator`, `Json::begin` and `Json::end` (src/json.cpp). An iterator has a holder of its
-- own, so it is the node that it stands on (0 at the end) and the node before the end.
pub mod Walk
use box_utils.Common.{
  ◌>>=◌, ℕ, suc, zero, Bool, Option, none, some, not, ◌||◌, if◌then◌else◌, throw, undefined, ◌==◌,
  true, false, aborted, ok, Run,
}
use box_utils.Json.Interface.{CJson}
use box_utils.Json.Store.{Error, size_type_error, null_ptr_exception, Store}
use box_utils.Json.Types.{cjson_of, get_type_string}

pub record JsonIterator : Type 0 where
  pub cjson : ℕ
  pub prev : ℕ

module _ (lib : CJson) where
  open lib use {Mem, Int, child, next, is_array, is_object}

  -- The `while` loop of `end`, `none` where the fuel does not do.
  pub find_last : ℕ → Mem → ℕ → Option ℕ
  find_last zero m p = none
  find_last (suc fuel) m p = elim (next m p == 0) [
    | true ↦ some p
    | false ↦ find_last fuel m (next m p)
  ]

  -- Both look at the type first, and then for a child.
  pub first_child : ℕ → Store Mem → Run (Error Int) ℕ
  unfolding get_type_string
  first_child j s =
      if is_array s.mem (cjson_of lib j s) || is_object s.mem (cjson_of lib j s)
      then (if child s.mem (cjson_of lib j s) == 0
          then throw null_ptr_exception
          else ok (child s.mem (cjson_of lib j s)))
      else elim (get_type_string lib j s) [
        | ok r ↦ throw (size_type_error r.0)
        | throw e ↦ throw e
        | undefined ↦ undefined
        | aborted ↦ aborted
      ]

  pub begin : ℕ → Store Mem → Run (Error Int) JsonIterator
  unfolding first_child
  begin j s = do p ← first_child j s; ok (record { cjson = p; prev = 0 })

  pub end : ℕ → ℕ → Store Mem → Run (Error Int) (Option JsonIterator)
  unfolding first_child find_last
  end fuel j s = do
    p ← first_child j s
    ok (elim (find_last fuel s.mem p) [
      | none ↦ none
      | some q ↦ some (record { cjson = 0; prev = q })
    ])

  -- `operator ++`
  pub increment : Mem → JsonIterator → Run (Error Int) JsonIterator
  increment m it =
      if it.cjson == 0
      then throw null_ptr_exception
      else ok (record {
        cjson = next m it.cjson;
        prev = (if next m it.cjson == 0 then it.cjson else it.prev);
      })

  -- `operator --`
  pub decrement : Mem → JsonIterator → Run (Error Int) JsonIterator
  decrement m it =
      if it.cjson == 0
      then (if not (it.prev == 0)
          then ok (record { cjson = it.prev; prev = 0 })
          else throw null_ptr_exception)
      else if lib.prev m it.cjson == 0
      then throw null_ptr_exception
      else ok (record it { cjson = lib.prev m it.cjson })

  -- `operator ==`
  pub equal : JsonIterator → JsonIterator → Bool
  equal a b = a.cjson == b.cjson
