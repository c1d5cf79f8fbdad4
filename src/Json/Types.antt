-- ===== src/Json/Types.antt =====
-- The type of a node (src/json.cpp): what `is_*`, `get_type_string` and `check_is_*` say of it.
use box_utils.Common.{
  arith, ok, ◌≡◌, ◌≢◌, refl, ap, ◌∙◌, ◌⊎◌, inl, inr, ◌%◌, ◌==◌, ℕ, true, false, not, bit_and,
  bit_or, if◌then◌else◌, throw, undefined,
}
use box_utils.Common.Bits.{bit_and_low}
use box_utils.Json.Interface.{CJson}
use box_utils.Json.Store.{
  Kind, array, object, string, number, bool, TypeName, number_name, string_name, object_name,
  array_name, bool_name, null_name, invalid_name, raw_name, unknown_name, type_error, Store, Cmd,
  pure, raise, gets, ◌>>=◌,
}

-- The bits of `cJSON::type`.
abbrev pub json_false : ℕ
json_false = 1

abbrev pub json_true : ℕ
json_true = 2

abbrev pub json_null : ℕ
json_null = 4

abbrev pub json_number : ℕ
json_number = 8

abbrev pub json_string : ℕ
json_string = 16

abbrev pub json_array : ℕ
json_array = 32

abbrev pub json_object : ℕ
json_object = 64

abbrev pub json_raw : ℕ
json_raw = 128

-- The type string of a type with the upper bits masked off.
unfoldable pub type_name : ℕ → TypeName
type_name t =
    if t == json_number
    then number_name
    else if t == json_string
    then string_name
    else if t == json_object
    then object_name
    else if t == json_array
    then array_name
    else if t == json_false
    then bool_name
    else if t == json_true
    then bool_name
    else if t == json_null
    then null_name
    else if t == 0
    then invalid_name
    else if t == json_raw
    then raw_name
    else unknown_name

unfoldable pub kind_type : Kind → ℕ
kind_type array = json_array
kind_type object = json_object
kind_type string = json_string
kind_type number = json_number
kind_type bool = bit_or json_true json_false

low_bits : (t : ℕ) → bit_and t 3 ≡ bit_and t 0xFF % 4
low_bits t = omega (arith, bit_and_low 2 t, bit_and_low 8 t)

module _ (lib : CJson) where
  open lib use {Mem, Int, kind}

  -- `*holder`
  abbrev pub cjson_of : ℕ → Store Mem → ℕ
  cjson_of j s = (s.holders j).cjson

  -- `holder->get()->type`
  unfoldable pub type_of : ℕ → Cmd Int (Store Mem) ℕ
  type_of j s = if cjson_of j s == 0 then undefined else gets (λ s. kind s.mem (cjson_of j s)) s

  unfoldable pub get_type_string : ℕ → Cmd Int (Store Mem) TypeName
  unfolding type_name type_of
  get_type_string j = do t ← type_of j; pure (type_name (bit_and t 0xFF))

  refuse : Kind → ℕ → Cmd Int (Store Mem) (Unit {0})
  unfolding get_type_string
  refuse k j = do n ← get_type_string j; raise (type_error k n)

  -- `check_is_array`, `check_is_object`, `check_is_string`, `check_is_number`
  unfoldable pub check_is : Kind → ℕ → Cmd Int (Store Mem) (Unit {0})
  unfolding type_of refuse kind_type
  check_is k j = do t ← type_of j; if bit_and t 0xFF == kind_type k then pure tt else refuse k j

  unfoldable pub check_is_bool : ℕ → Cmd Int (Store Mem) (Unit {0})
  unfolding type_of refuse kind_type
  check_is_bool j = do
    t ← type_of j
    if not (bit_and t (kind_type bool) == 0) then refuse bool j else pure tt

  -- The type that the checks look at.
  abbrev pub tag : ℕ → Store Mem → ℕ
  tag j s = bit_and (kind s.mem (cjson_of j s)) 0xFF

  pub check_is-holds :
      (k : Kind) (j : ℕ) (s : Store Mem)
      → cjson_of j s ≢ 0
      → tag j s ≡ kind_type k
      → check_is k j s ≡ ok (tt, s)
  unfolding check_is type_of refuse get_type_string
  check_is-holds k j s h t =
      let not_null : (cjson_of j s == 0) ≡ false = ground arith in
      let match : (tag j s == kind_type k) ≡ true = ground arith in rw (not_null, match) refl

  pub check_is-refuses :
      (k : Kind) (j : ℕ) (s : Store Mem)
      → cjson_of j s ≢ 0
      → tag j s ≢ kind_type k
      → check_is k j s ≡ throw (type_error k (type_name (tag j s)))
  unfolding check_is type_of refuse get_type_string
  check_is-refuses k j s h t =
      let not_null : (cjson_of j s == 0) ≡ false = ground arith in
      let differ : (tag j s == kind_type k) ≡ false = ground arith in
      rw (not_null, differ, not_null) refl

  -- `check_is_bool` has its test the wrong way round.
  pub check_is_bool-refuses :
      (j : ℕ) (s : Store Mem)
      → cjson_of j s ≢ 0
      → (tag j s ≡ json_true) ⊎ (tag j s ≡ json_false)
      → check_is_bool j s ≡ throw (type_error bool bool_name)
  unfolding check_is_bool type_of refuse get_type_string
  check_is_bool-refuses j s h t =
      let not_null : (cjson_of j s == 0) ≡ false = ground arith in
      let bits : bit_and (kind s.mem (cjson_of j s)) 3 ≡ tag j s % 4 =
        low_bits (kind s.mem (cjson_of j s)) in
      let refused : (bit_and (kind s.mem (cjson_of j s)) 3 == 0) ≡ false =
        rw bits (elim t [ inl e ↦ rw e refl | inr e ↦ rw e refl ]) in
      let named : type_name (tag j s) ≡ bool_name = elim t [
        | inl e ↦ unfold type_name in rw e refl
        | inr e ↦ unfold type_name in rw e refl
      ] in
      rw (not_null, refused, not_null) (ap (λ n. throw (type_error bool n)) named)

  pub check_is_bool-holds :
      (j : ℕ) (s : Store Mem) → cjson_of j s ≢ 0 → tag j s % 4 ≡ 0 → check_is_bool j s ≡ ok (tt, s)
  unfolding check_is_bool type_of refuse get_type_string
  check_is_bool-holds j s h t =
      let not_null : (cjson_of j s == 0) ≡ false = ground arith in
      let bits : bit_and (kind s.mem (cjson_of j s)) 3 ≡ 0 =
        low_bits (kind s.mem (cjson_of j s)) ∙ t in
      rw (not_null, bits) refl
