-- ===== src/Logger/Examples.antt =====
-- The theorem on src/logger.cpp at concrete calls.
use box_utils.Common.{codes, ◌≡◌, List, [], ◌∷◌, ◌++◌, ok}
use box_utils.Logger.{Effect, Logger, new, set_output_file, destroy}
use box_utils.Logger.Lines.{error_level, info_level, calls, contents, calls-lines}

calls-lines_example :
    (l : Logger) × (effects : List Effect) × (set_output_file (ok 3) new ≡ ok (l, destroy new))
    × (calls ((error_level, codes "a") ∷ (info_level, codes "b") ∷ []) l ≡ ok effects)
    × (contents 3 effects ≡ codes "ERROR: a" ++ 10 ∷ codes "INFO: b" ++ 10 ∷ [])
calls-lines_example = calls-lines ((error_level, codes "a") ∷ (info_level, codes "b") ∷ []) 3 new
