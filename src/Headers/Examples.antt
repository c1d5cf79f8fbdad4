-- ===== src/Headers/Examples.antt =====
-- The theorems on src/net/headers.cpp at concrete lists of headers, with an exact comparison in
-- place of `strncasecmp`.
use box_utils.Common.{
  ℕ, zero, suc, Bytes, codes, Bool, true, false, ◌&&◌, ◌==◌, none, List, [], ◌∷◌, ◌++◌, All, ok,
  ◌≡◌, refl, arith, undefined,
}
use box_utils.Headers.{colon, get_value, has_key, remove}
use box_utils.Headers.Laws.{HasColon, Agrees, kept, remove-has_key}

abbrev same_start : Bytes → Bytes → ℕ → Bool
same_start a b zero = true
same_start [] [] (suc n) = true
same_start [] (y ∷ b) (suc n) = false
same_start (x ∷ a) [] (suc n) = false
same_start (x ∷ a) (y ∷ b) (suc n) = (x == y) && same_start a b n

same_start-Agrees : Agrees same_start
same_start-Agrees [] a b = refl
same_start-Agrees (c ∷ common) a b =
    let self : (c == c) ≡ true = ground arith in rw self (same_start-Agrees common a b)

abbrev sample : List Bytes
sample = codes "Host:h" ∷ codes "Via:x" ∷ codes "Host:i" ∷ []

sample-HasColon : All HasColon sample
unfolding colon
sample-HasColon = ((4, refl), ((3, refl), ((4, refl), tt)))

-- A line without a colon is a null pointer to subtract from.
no_colon : get_value same_start (codes "Host") (codes "Host" ∷ []) ≡ undefined
unfolding get_value
no_colon = refl

remove-has_key_example :
    (b : Bool) × (has_key same_start (codes "Host") sample ≡ ok b)
    × (remove same_start (codes "Host") sample ≡ ok (b, kept same_start (codes "Host") sample))
    × (has_key same_start (codes "Host") (kept same_start (codes "Host") sample) ≡ ok false)
remove-has_key_example = remove-has_key same_start (codes "Host") sample sample-HasColon

missing : get_value same_start (codes "Vary" ++ codes "By") sample ≡ ok none
unfolding get_value
missing = refl
