-- ===== src/Headers.antt =====
-- `Headers` (src/net/headers.cpp): the lines of a `curl_slist`, each without its terminator.
-- `strncasecmp` is the C library's: true stands for the answer 0. Memory does not run out.
pub mod Laws
mod Examples
use box_utils.Common.{
  ◌>>=◌, ℕ, suc, Bytes, Bool, true, false, Option, none, some, List, [], ◌∷◌, ◌++◌, ◌==◌, Run, ok,
  throw, undefined, take, drop,
}

pub data Error : Type 0 where
  invalid_argument : Error
  key_error : Bytes → Error

-- `strchr(str, ':') - str`
unfoldable pub colon : Bytes → Option ℕ
colon [] = none
colon (c ∷ str) = elim (c == b':') [
  | true ↦ some 0
  | false ↦ elim (colon str) [ none ↦ none | some n ↦ some (suc n) ]
]

unfoldable pub add_string : Bytes → List Bytes → List Bytes
add_string str slist = slist ++ str ∷ []

pub add : Bytes → Bytes → List Bytes → List Bytes
unfolding add_string
add key value slist = add_string (key ++ b':' ∷ value) slist

-- `update`, and so the copy constructor, which starts from the empty list.
pub update : List Bytes → List Bytes → List Bytes
unfolding add_string
update [] slist = slist
update (str ∷ other) slist = update other (add_string str slist)

-- The constructor from lists of a key and a value.
pub from_pairs : List (List Bytes) → List Bytes → Run Error (List Bytes)
unfolding add
from_pairs [] slist = ok slist
from_pairs ((key ∷ value ∷ []) ∷ rest) slist = from_pairs rest (add key value slist)
from_pairs (pair ∷ rest) slist = throw invalid_argument

-- The calls that `for_each` makes.
pub for_each : List Bytes → Run Error (List (Bytes × Bytes))
unfolding colon
for_each [] = ok []
for_each (str ∷ slist) = elim (colon str) [
  | none ↦ undefined
  | some n ↦ do rest ← for_each slist; ok ((take n str, drop (suc n) str) ∷ rest)
]

-- The calls of `add_string` that `json` makes on the new table.
pub json : List Bytes → List (Bytes × Bytes)
unfolding colon
json [] = []
json (str ∷ slist) = elim (colon str) [
  | none ↦ json slist
  | some n ↦ (take n str, drop (suc n) str) ∷ json slist
]

module _ (strncasecmp : Bytes → Bytes → ℕ → Bool) where
  pub get_value : Bytes → List Bytes → Run Error (Option Bytes)
  unfolding colon
  get_value key [] = ok none
  get_value key (str ∷ slist) = elim (colon str) [
    | none ↦ undefined
    | some n ↦ elim (strncasecmp str key n) [
      | true ↦ ok (some (drop (suc n) str))
      | false ↦ get_value key slist
    ]
  ]

  -- `operator []`
  pub get : Bytes → List Bytes → Run Error Bytes
  unfolding get_value
  get key slist = do
    value ← get_value key slist
    elim value [ none ↦ throw (key_error key) | some v ↦ ok v ]

  pub has_key : Bytes → List Bytes → Run Error Bool
  unfolding get_value
  has_key key slist = do
    value ← get_value key slist
    ok (elim value [ none ↦ false | some v ↦ true ])

  -- The loop of `remove`: the status and the new list so far, in front.
  pub remove_loop : Bytes → List Bytes → Bool → List Bytes → Run Error (Bool × List Bytes)
  unfolding colon
  remove_loop key [] status new_list = ok (status, new_list)
  remove_loop key (str ∷ slist) status new_list = elim (colon str) [
    | none ↦ undefined
    | some n ↦ elim (strncasecmp str key n) [
      | true ↦ remove_loop key slist true new_list
      | false ↦ remove_loop key slist status (new_list ++ str ∷ [])
    ]
  ]

  pub remove : Bytes → List Bytes → Run Error (Bool × List Bytes)
  unfolding remove_loop
  remove key slist = remove_loop key slist false []
