-- ===== src/String/Examples.antt =====
-- The theorems on src/string.cpp at concrete texts.
use box_utils.Common.{codes, ℕ, ◌≡◌, refl, none, some, [], arith}
use box_utils.String.{replace_all}
use box_utils.String.Replace.{replaced, replace_all-replaced}

replace_all-replaced_example :
    (replace_all 9 (codes "abcabca") (codes "bc") (codes "bcb")
      ≡ some (replaced (codes "bc") (codes "bcb") 0 (codes "abcabca")))
    × ((more : ℕ) → replace_all more (codes "abcabca") [] (codes "bcb") ≡ none)
replace_all-replaced_example =
    replace_all-replaced 9 98 (codes "c") (codes "bcb") (codes "abcabca") (omega arith)

replaced_twice : replaced (codes "bc") (codes "bcb") 0 (codes "abcabca") ≡ codes "abcbabcba"
unfolding replaced
replaced_twice = refl
