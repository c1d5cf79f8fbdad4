-- ===== src/RefData/Examples.antt =====
-- The theorems on include/Box/dataguard.hpp at concrete data.
use box_utils.Common.{◌≡◌, none, [], ◌∷◌, arith, ok}
use box_utils.Common.Commands.{pure, continue, ◌>>◌}
use box_utils.RefData.{Heap, RefData, destroy, get}
use box_utils.RefData.Sharing.{repeat, with_copies, destroys-free_last}

abbrev start : Heap
start = record { cells = λ _. none; next = 1; deleted = [] }

destroys-free_last_example :
    (ptr : RefData) × (kept : Heap) × (gone : Heap) × (continue
        (with_copies 3 9 5 start)
        (λ ptr. repeat 3 (destroy ptr) >> pure ptr)
      ≡ ok (ptr, kept))
    × (get ptr kept ≡ ok (9, kept))
    × (kept.deleted ≡ [])
    × (destroy ptr kept ≡ ok (tt, gone))
    × (gone.deleted ≡ (5, 9) ∷ [])
destroys-free_last_example =
    destroys-free_last 3 start 9 5 (ground arith) (ground arith) (ground arith)
