-- ===== src/Json/Values/Laws.antt =====
-- What the setters and getters of src/json.cpp come to.
use box_utils.Common.{
  Bytes, strlen, take, bit_and, ℕ, Bool, ◌≡◌, refl, ◌≢◌, ◌⊎◌, ok, throw, ◌%◌, ◌∙◌, ap,
}
use box_utils.Json.Interface.{CJson}
use box_utils.Json.Store.{string, number, bool, bool_name, Error, type_error, Store, ◌>>◌}
use box_utils.Json.Types.{
  cjson_of, tag, type_name, json_true, json_false, json_number, json_string, check_is,
  check_is_bool, check_is-holds, check_is-refuses, check_is_bool-holds, check_is_bool-refuses,
}
use box_utils.Json.Values.{
  get_int, get_number, get_string, set_int, set_number, set_string, set_bool,
}

module _ (lib : CJson) where
  open lib use {
    Mem, Int, Double, int_of_bool, kind, set_int_value, set_number_helper, set_int_value_kind,
    set_int_value_lem, set_valuestring, set_valuestring_kind, set_valuestring_lem, set_number_kind,
    set_number_lem,
  }

  -- On the node of a number, `set_number` and then `get_number` gives the number that was set, and
  -- the node is the only thing that was written.
  get_number-set_number :
      (j : ℕ) (d : Double) (s : Store Mem)
      → cjson_of lib j s ≢ 0
      → tag lib j s ≡ json_number
      → (set_number lib j d >> get_number lib j) s
        ≡ ok (d, record s { mem = set_number_helper (cjson_of lib j s) d s.mem })
  unfolding set_number get_number
  get_number-set_number j d s h t =
      let p = cjson_of lib j s in
      let s' : Store Mem = record s { mem = set_number_helper p d s.mem } in
      let first : check_is lib number j s ≡ ok (tt, s) = check_is-holds lib number j s h t in
      let again : check_is lib number j s' ≡ ok (tt, s') =
        check_is-holds lib number j s' h
          (ap (λ k. bit_and k 0xFF) (set_number_kind p d s.mem) ∙ t) in
      rw (first, again) (ap (λ x. ok (x, s')) (set_number_lem p d s.mem))

  -- On the node of a string, `set_string` and then `get_string` gives what stands before the first
  -- NUL of the string that was set.
  get_string-set_string :
      (j n : ℕ) (str : Bytes) (s : Store Mem)
      → cjson_of lib j s ≢ 0
      → tag lib j s ≡ json_string
      → strlen {E = Error Int} str ≡ ok n
      → (set_string lib j str >> get_string lib j) s
        ≡ ok (take n str, record s { mem = set_valuestring (cjson_of lib j s) (take n str) s.mem })
  unfolding set_string get_string
  get_string-set_string j n str s h t length_is =
      let p = cjson_of lib j s in
      let s' : Store Mem = record s { mem = set_valuestring p (take n str) s.mem } in
      let first : check_is lib string j s ≡ ok (tt, s) = check_is-holds lib string j s h t in
      let again : check_is lib string j s' ≡ ok (tt, s') =
        check_is-holds lib string j s' h
          (ap (λ k. bit_and k 0xFF) (set_valuestring_kind p (take n str) s.mem) ∙ t) in
      rw (first, length_is, again) (ap (λ x. ok (x, s')) (set_valuestring_lem p (take n str) s.mem))

  -- `set_bool` throws a TypeError, that names Bool as what was wanted and Bool as what was found,
  -- on every node that is a Bool.
  pub set_bool-refuses :
      (j : ℕ) (b : Bool) (s : Store Mem)
      → cjson_of lib j s ≢ 0
      → (tag lib j s ≡ json_true) ⊎ (tag lib j s ≡ json_false)
      → set_bool lib j b s ≡ throw (type_error bool bool_name)
  unfolding set_bool
  set_bool-refuses j b s h t =
      let refused : check_is_bool lib j s ≡ throw (type_error bool bool_name) =
        check_is_bool-refuses lib j s h t in
      rw refused refl

  -- `set_bool` is accepted on a number, whose `get_int` is then the Bool.
  get_int-set_bool :
      (j : ℕ) (b : Bool) (s : Store Mem)
      → cjson_of lib j s ≢ 0
      → tag lib j s ≡ json_number
      → (set_bool lib j b >> get_int lib j) s
        ≡ ok (
          int_of_bool b,
          record s { mem = set_int_value (cjson_of lib j s) (int_of_bool b) s.mem },
        )
  unfolding set_bool get_int
  get_int-set_bool j b s h t =
      let p = cjson_of lib j s in
      let s' : Store Mem = record s { mem = set_int_value p (int_of_bool b) s.mem } in
      let first : check_is_bool lib j s ≡ ok (tt, s) =
        check_is_bool-holds lib j s h (ap (λ k. k % 4) t) in
      let again : check_is lib number j s' ≡ ok (tt, s') =
        check_is-holds lib number j s' h
          (ap (λ k. bit_and k 0xFF) (set_int_value_kind p (int_of_bool b) s.mem) ∙ t) in
      rw (first, again) (ap (λ x. ok (x, s')) (set_int_value_lem p (int_of_bool b) s.mem))

  -- On the node of anything but a number every getter and setter of numbers throws a TypeError
  -- with the name of the node's type.
  numbers_refused :
      (j : ℕ) (i : Int) (d : Double) (s : Store Mem)
      → cjson_of lib j s ≢ 0
      → tag lib j s ≢ json_number
      → (get_int lib j s ≡ throw (type_error number (type_name (tag lib j s))))
        × (get_number lib j s ≡ throw (type_error number (type_name (tag lib j s))))
        × (set_int lib j i s ≡ throw (type_error number (type_name (tag lib j s))))
        × (set_number lib j d s ≡ throw (type_error number (type_name (tag lib j s))))
  unfolding get_int get_number set_int set_number
  numbers_refused j i d s h t =
      let refused : check_is lib number j s ≡ throw (type_error number (type_name (tag lib j s))) =
        check_is-refuses lib number j s h t in
      (rw refused refl, rw refused refl, rw refused refl, rw refused refl)
