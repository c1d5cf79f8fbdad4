-- ===== src/Format/Examples.antt =====
-- The theorem on src/fmt.cpp at a concrete text.
use box_utils.Common.{◌≡◌, codes, [], ◌∷◌, arith, some, ok}
use box_utils.Format.{vformat}
use box_utils.Format.Filled.{vformat-filled}

vformat-filled_example :
    vformat 3 (codes "a{}b{}") (codes "{}" ∷ codes "z" ∷ codes "left" ∷ [])
    ≡ ok (some (codes "a{}bz"))
vformat-filled_example =
    vformat-filled (codes "a") ((codes "{}", codes "b") ∷ (codes "z", []) ∷ []) (codes "left" ∷ [])
      (omega arith, tt) ((omega arith, tt), (tt, tt))
