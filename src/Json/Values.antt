-- ===== src/Json/Values.antt =====
-- Reading and writing the value of a node (src/json.cpp): `get_*`, `set_*`, `operator >>`,
-- `operator <<` and `operator ==`.
pub mod Laws
use box_utils.Common.{ℕ, Bytes, strlen, take, Bool, if◌then◌else◌}
use box_utils.Json.Interface.{CJson}
use box_utils.Json.Store.{
  string, number, bool, Error, type_error, size_type_error, null_ptr_exception, Store, Cmd, pure,
  raise, gets, modify, lift, ◌>>=◌, ◌>>◌,
}
use box_utils.Json.Types.{cjson_of, get_type_string, check_is, check_is_bool}
use box_utils.Common.{Option, none, some, ◌||◌}

module _ (lib : CJson) where
  open lib use {
    Mem, Int, Double, int_of_bool, bool_of_int, valueint, valuedouble, valuestring, name, is_bool,
    is_null, is_array, is_object, get_array_size, set_int_value, set_number_helper, set_valuestring,
  }

  -- What a command reads from the node of a holder.
  read : {A : Type 0} → (Mem → ℕ → A) → ℕ → Cmd Int (Store Mem) A
  read f j = gets (λ s. f s.mem (cjson_of lib j s))

  -- What a command writes to it.
  write : (ℕ → Mem → Mem) → ℕ → Cmd Int (Store Mem) (Unit {0})
  write f j = modify (λ s. record s { mem = f (cjson_of lib j s) s.mem })

  -- `get_int` and `operator >>(int &)`
  pub get_int : ℕ → Cmd Int (Store Mem) Int
  unfolding read check_is
  get_int j = do check_is lib number j; read valueint j

  -- `get_number` and `operator >>(double &)`
  pub get_number : ℕ → Cmd Int (Store Mem) Double
  unfolding read check_is
  get_number j = do check_is lib number j; read valuedouble j

  -- `get_string` and `operator >>(const char * &)`
  pub get_string : ℕ → Cmd Int (Store Mem) Bytes
  unfolding read check_is
  get_string j = do check_is lib string j; read valuestring j

  -- `operator >>(bool &)`
  pub get_bool : ℕ → Cmd Int (Store Mem) Bool
  unfolding read get_type_string
  get_bool j = do
    is ← read is_bool j
    (if is
        then (do i ← read valueint j; pure (bool_of_int i))
        else do n ← get_type_string lib j; raise (type_error bool n))

  pub get_name : ℕ → Cmd Int (Store Mem) Bytes
  unfolding read
  get_name j = do n ← read name j; elim n [ none ↦ raise null_ptr_exception | some s ↦ pure s ]

  pub size : ℕ → Cmd Int (Store Mem) Int
  unfolding read get_type_string
  size j = do
    o ← read is_object j
    a ← read is_array j
    (if o || a
        then read get_array_size j
        else do n ← get_type_string lib j; raise (size_type_error n))

  -- `set_int` and `operator <<(const int &)`
  pub set_int : ℕ → Int → Cmd Int (Store Mem) (Unit {0})
  unfolding write check_is
  set_int j i = do check_is lib number j; write (λ p. set_int_value p i) j

  -- `set_number` and `operator <<(const double &)`
  pub set_number : ℕ → Double → Cmd Int (Store Mem) (Unit {0})
  unfolding write check_is
  set_number j d = do check_is lib number j; write (λ p. set_number_helper p d) j

  -- `set_string` and `operator <<(const char *)`: what stands before the terminator is copied.
  pub set_string : ℕ → Bytes → Cmd Int (Store Mem) (Unit {0})
  unfolding write check_is
  set_string j str = do
    check_is lib string j
    n ← lift (strlen str)
    write (λ p. set_valuestring p (take n str)) j

  -- `set_bool` and `operator <<(const bool &)`
  pub set_bool : ℕ → Bool → Cmd Int (Store Mem) (Unit {0})
  unfolding write check_is_bool
  set_bool j b = do check_is_bool lib j; write (λ p. set_int_value p (int_of_bool b)) j
