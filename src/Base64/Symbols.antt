-- ===== src/Base64/Symbols.antt =====
-- The alphabet of src/base64.cpp: looking a symbol up undoes writing it.
use box_utils.Common.{
  ℕ, ◌<◌, ◌≡◌, refl, Bool, true, false, Option, none, some, [], ◌∷◌, ◌++◌, arith, ◌==◌, get_elem?,
  Bytes, c_str, every, every_lem, ok,
}
use box_utils.Base64.{table, position, query_table, put}

pub symbol : ℕ → ℕ
symbol x = elim (get_elem? (c_str table) x) [ none ↦ 0 | some c ↦ c ]

-- What has to hold of each of the 64 symbols.
abbrev holds_some : Option ℕ → ℕ → Bool
holds_some none x = false
holds_some (some y) x = y == x

holds_some_sound : (o : Option ℕ) (x : ℕ) → holds_some o x ≡ true → o ≡ some x
holds_some_sound o x h = ground arith

in_table : every (λ x. holds_some (get_elem? (c_str table) x) (symbol x)) 64 ≡ true
unfolding every symbol
in_table = refl

found : every (λ x. holds_some (position (symbol x) (c_str table)) x) 64 ≡ true
unfolding every symbol position
found = refl

no_pad : every (λ x. elim (symbol x == b'=') [ true ↦ false | _ ↦ true ]) 64 ≡ true
unfolding every symbol
no_pad = refl

no_nul : every (λ x. elim (symbol x == 0) [ true ↦ false | _ ↦ true ]) 64 ≡ true
unfolding every symbol
no_nul = refl

flip : {b : Bool} → elim b [ true ↦ false | _ ↦ true ] ≡ true → b ≡ false
flip {b} h = ground arith

pub put-symbol : (buf : Bytes) (x : ℕ) → x < 64 → put buf x ≡ ok (buf ++ symbol x ∷ [])
unfolding put
put-symbol buf x h =
    rw (holds_some_sound (get_elem? (c_str table) x) (symbol x) (every_lem _ 64 x in_table h))

pub query-symbol : (x : ℕ) → x < 64 → query_table (symbol x) ≡ ok x
unfolding query_table
query-symbol x h =
    rw (holds_some_sound (position (symbol x) (c_str table)) x (every_lem _ 64 x found h))

pub symbol-ne-pad : (x : ℕ) → x < 64 → (symbol x == b'=') ≡ false
symbol-ne-pad x h = flip (every_lem _ 64 x no_pad h)

pub symbol-ne-nul : (x : ℕ) → x < 64 → (symbol x == 0) ≡ false
symbol-ne-nul x h = flip (every_lem _ 64 x no_nul h)
