-- ===== src/Json/Store.antt =====
-- The holders of src/json.cpp on a heap, and commands that may throw. A `Json` is the address of
-- its holder, which its copies share.
use box_utils.Common.{ℕ, Bool, ◌==◌, if◌then◌else◌, Bytes, Run, ok, throw, undefined, aborted}

pub data Kind : Type 0 where
  array object string number bool : Kind

-- What `get_type_string` answers.
pub data TypeName : Type 0 where
  number_name string_name object_name array_name bool_name null_name invalid_name raw_name
        unknown_name :
      TypeName

pub data Error (I : Type 0) : Type 0 where
  type_error : Kind → TypeName → Error I
  size_type_error : TypeName → Error I
  key_error : Bytes → Error I
  index_error : I → Error I
  null_ptr_exception : Error I
  json_parse_error : Bytes → Error I
  file_not_found_error : Error I

pub record Holder : Type 0 where
  pub cjson : ℕ
  pub ref : Bool

pub record Store (M : Type 0) : Type 0 where
  pub mem : M
  pub holders : ℕ → Holder
  pub next_holder : ℕ

-- What a command does to the state `S`: it answers an `A`, or throws.
abbrev pub Cmd : Type 0 → Type 0 → Type 0 → Type 0
Cmd I S A = S → Run (Error I) (A × S)

abbrev pub pure : {I S A : Type 0} → A → Cmd I S A
pure a s = ok (a, s)

abbrev pub raise : {I S A : Type 0} → Error I → Cmd I S A
raise e s = throw e

abbrev pub gets : {I S A : Type 0} → (S → A) → Cmd I S A
gets f s = ok (f s, s)

abbrev pub modify : {I S : Type 0} → (S → S) → Cmd I S (Unit {0})
modify f s = ok (tt, f s)

abbrev pub lift : {I S A : Type 0} → Run (Error I) A → Cmd I S A
lift (ok a) s = ok (a, s)
lift (throw e) s = throw e
lift undefined s = undefined
lift aborted s = aborted

abbrev pub continue :
    {I S A B : Type 0} → Run (Error I) (A × S) → (A → Cmd I S B) → Run (Error I) (B × S)
continue (ok (a, s)) k = k a s
continue (throw e) k = throw e
continue undefined k = undefined
continue aborted k = aborted

infixl 5 ◌>>=◌ ◌>>◌
abbrev pub ◌>>=◌ : {I S A B : Type 0} → Cmd I S A → (A → Cmd I S B) → Cmd I S B
m >>= k = λ s. continue (m s) k

abbrev pub ◌>>◌ : {I S A B : Type 0} → Cmd I S A → Cmd I S B → Cmd I S B
m >> k = m >>= λ _. k

abbrev pub update : (ℕ → Holder) → ℕ → Holder → ℕ → Holder
update f a h b = if b == a then h else f b
