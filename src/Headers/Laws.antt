-- ===== src/Headers/Laws.antt =====
-- What a list of headers (src/net/headers.cpp) answers after additions and removals.
use box_utils.Common.{
  ℕ, suc, Bytes, Bool, true, false, ◌||◌, none, some, List, [], ◌∷◌, ◌++◌, append-nil, append_assoc,
  ◌==◌, ok, take, drop, length, All, ◌≡◌, ◌≢◌, refl, sym, ap, ◌∙◌, arith, Bool-cases, if◌then◌else◌,
  inl, inr,
}
use box_utils.Headers.{
  colon, add_string, add, from_pairs, for_each, json, get_value, has_key, remove_loop, remove,
}

abbrev pub HasColon : Bytes → Type 0
HasColon str = (n : ℕ) × (colon str ≡ some n)

abbrev pub NoColon : Bytes → Type 0
NoColon = All (λ c. c ≢ b':')

pub colon-pair : (key value : Bytes) → NoColon key → colon (key ++ b':' ∷ value) ≡ some (length key)
unfolding colon
colon-pair [] value h = refl
colon-pair (c ∷ key) value (ne, h) =
    let differ : (c == b':') ≡ false = ground arith in
    rw (colon, differ, colon-pair key value h) refl

take-pair : (key value : Bytes) → take (length key) (key ++ b':' ∷ value) ≡ key
take-pair [] value = refl
take-pair (c ∷ key) value = ap (λ k. c ∷ k) (take-pair key value)

drop-pair : (key value : Bytes) → drop (suc (length key)) (key ++ b':' ∷ value) ≡ value
drop-pair [] value = refl
drop-pair (c ∷ key) value = drop-pair key value

-- `for_each` and `json` agree where each line has a colon.
for_each-json : (slist : List Bytes) → All HasColon slist → for_each slist ≡ ok (json slist)
unfolding for_each json
for_each-json [] h = refl
for_each-json (str ∷ slist) ((n, e), h) = rw (for_each, json, e, for_each-json slist h) refl

abbrev pub lists : List (Bytes × Bytes) → List (List Bytes)
lists [] = []
lists ((key, value) ∷ pairs) = (key ∷ value ∷ []) ∷ lists pairs

abbrev pub lines : List (Bytes × Bytes) → List Bytes
lines [] = []
lines ((key, value) ∷ pairs) = (key ++ b':' ∷ value) ∷ lines pairs

from_pairs-lines :
    (pairs : List (Bytes × Bytes)) (slist : List Bytes)
    → from_pairs (lists pairs) slist ≡ ok (slist ++ lines pairs)
unfolding from_pairs add add_string
from_pairs-lines [] slist = ap ok (sym (append-nil slist))
from_pairs-lines ((key, value) ∷ pairs) slist =
    from_pairs-lines pairs (slist ++ (key ++ b':' ∷ value) ∷ [])
    ∙ ap ok (append_assoc slist ((key ++ b':' ∷ value) ∷ []) (lines pairs))

lines-HasColon :
    (pairs : List (Bytes × Bytes)) → All (λ p. NoColon p.0) pairs → All HasColon (lines pairs)
lines-HasColon [] h = tt
lines-HasColon ((key, value) ∷ pairs) (k, h) =
    ((length key, colon-pair key value k), lines-HasColon pairs h)

json-lines :
    (pairs : List (Bytes × Bytes)) → All (λ p. NoColon p.0) pairs → json (lines pairs) ≡ pairs
unfolding json
json-lines [] h = refl
json-lines ((key, value) ∷ pairs) (k, h) =
    rw (json, colon-pair key value k, take-pair key value, drop-pair key value, json-lines pairs h)
      refl

pub for_each-lines :
    (pairs : List (Bytes × Bytes))
    → All (λ p. NoColon p.0) pairs
    → for_each (lines pairs) ≡ ok pairs
for_each-lines pairs h =
    for_each-json (lines pairs) (lines-HasColon pairs h) ∙ ap ok (json-lines pairs h)

-- Headers that are made from pairs whose keys have no colon: `for_each` and `json` come to these
-- pairs again, in their order.
pub for_each-from_pairs :
    (pairs : List (Bytes × Bytes))
    → All (λ p. NoColon p.0) pairs
    → (slist : List Bytes) × (from_pairs (lists pairs) [] ≡ ok slist)
      × (for_each slist ≡ ok pairs)
      × (json slist ≡ pairs)
for_each-from_pairs pairs h =
    (lines pairs, from_pairs-lines pairs [], for_each-lines pairs h, json-lines pairs h)

or_false : (b : Bool) → (b || false) ≡ b
or_false true = refl
or_false false = refl

or_true : (b : Bool) → (b || true) ≡ true
or_true true = refl
or_true false = refl

module _ (strncasecmp : Bytes → Bytes → ℕ → Bool) where
  -- What a search for `key` takes the line `str` for.
  abbrev pub matches : Bytes → Bytes → Bool
  matches key str = elim (colon str) [ none ↦ false | some n ↦ strncasecmp str key n ]

  abbrev pub kept : Bytes → List Bytes → List Bytes
  kept key [] = []
  kept key (str ∷ slist) = if matches key str then kept key slist else str ∷ kept key slist

  abbrev found : Bytes → List Bytes → Bool
  found key [] = false
  found key (str ∷ slist) = matches key str || found key slist

  has_key-found :
      (key : Bytes) (slist : List Bytes)
      → All HasColon slist
      → has_key strncasecmp key slist ≡ ok (found key slist)
  unfolding has_key get_value
  has_key-found key [] h = refl
  has_key-found key (str ∷ slist) ((n, e), h) =
      let rest : has_key strncasecmp key slist ≡ ok (found key slist) = has_key-found key slist h in
      elim (Bool-cases (strncasecmp str key n)) [
        | inl t ↦ rw (get_value, matches, e, t) refl
        | inr f ↦ rw (get_value, matches, e, f) rest
      ]

  remove_loop-kept :
      (key : Bytes) (slist : List Bytes) (status : Bool) (new_list : List Bytes)
      → All HasColon slist
      → remove_loop strncasecmp key slist status new_list
        ≡ ok (status || found key slist, new_list ++ kept key slist)
  unfolding remove_loop
  remove_loop-kept key [] status new_list h = rw (or_false status, append-nil new_list) refl
  remove_loop-kept key (str ∷ slist) status new_list ((n, e), h) =
      elim (Bool-cases (strncasecmp str key n)) [
        | inl t ↦
            rw (remove_loop, kept, matches, e, t, or_true status)
              (remove_loop-kept key slist true new_list h)
        | inr f ↦
            rw (remove_loop, kept, matches, e, f)
              (remove_loop-kept key slist status (new_list ++ str ∷ []) h
                ∙ ap (λ l. ok (status || found key slist, l))
                    (append_assoc new_list (str ∷ []) (kept key slist)))
      ]

  kept-HasColon :
      (key : Bytes) (slist : List Bytes) → All HasColon slist → All HasColon (kept key slist)
  kept-HasColon key [] h = tt
  kept-HasColon key (str ∷ slist) ((n, e), h) = elim (Bool-cases (strncasecmp str key n)) [
    | inl t ↦ rw (kept, matches, e, t) (kept-HasColon key slist h)
    | inr f ↦ rw (kept, matches, e, f) ((n, e), kept-HasColon key slist h)
  ]

  found-kept : (key : Bytes) (slist : List Bytes) → found key (kept key slist) ≡ false
  found-kept key [] = refl
  found-kept key (str ∷ slist) = elim (Bool-cases (matches key str)) [
    | inl t ↦ rw t (found-kept key slist)
    | inr f ↦ rw (f, f) (found-kept key slist)
  ]

  -- Where each line has a colon, `remove` answers what `has_key` answers and leaves the lines that
  -- do not match, in their order; then `has_key` answers false.
  pub remove-has_key :
      (key : Bytes) (slist : List Bytes)
      → All HasColon slist
      → (b : Bool) × (has_key strncasecmp key slist ≡ ok b)
        × (remove strncasecmp key slist ≡ ok (b, kept key slist))
        × (has_key strncasecmp key (kept key slist) ≡ ok false)
  unfolding remove
  remove-has_key key slist h = (
    found key slist,
    has_key-found key slist h,
    remove_loop-kept key slist false [] h,
    has_key-found key (kept key slist) (kept-HasColon key slist h) ∙ ap ok (found-kept key slist),
  )

  -- The documented answer on strings that agree up to the length.
  abbrev pub Agrees : Type 0
  Agrees = (common a b : Bytes) → strncasecmp (common ++ a) (common ++ b) (length common) ≡ true

  -- A line `key:value` is found under every name that `key` is the beginning of, as long as no
  -- line in front of it is found: under `key` itself, and under longer names.
  pub get_value-add :
      (key more value : Bytes) (slist : List Bytes)
      → Agrees
      → NoColon key
      → All HasColon slist
      → get_value strncasecmp (key ++ more) slist ≡ ok none
      → get_value strncasecmp (key ++ more) (add key value slist) ≡ ok (some value)
  unfolding get_value add add_string
  get_value-add key more value [] agrees k h missing =
      rw (get_value, colon-pair key value k, agrees key (b':' ∷ value) more, drop-pair key value)
        refl
  get_value-add key more value (str ∷ slist) agrees k ((n, e), h) missing =
      elim (Bool-cases (strncasecmp str (key ++ more) n)) [
        | inl t ↦
            let hit : get_value strncasecmp (key ++ more) (str ∷ slist)
                ≡ ok (some (drop (suc n) str)) =
              rw (get_value, e, t) refl in
            cc
        | inr f ↦
            let miss : get_value strncasecmp (key ++ more) (str ∷ slist)
                ≡ get_value strncasecmp (key ++ more) slist =
              rw (get_value, e, f) refl in
            rw (get_value, e, f)
              (get_value-add key more value slist agrees k h (sym miss ∙ missing))
      ]
