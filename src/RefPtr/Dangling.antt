-- ===== src/RefPtr/Dangling.antt =====
-- What `reset(T *)` (include/Box/refptr.hpp) does to the only pointer to an object.
use box_utils.Common.{ℕ, false, none, some}
use box_utils.RefPtr.{RefPtr}
use box_utils.RefPtr.Memory.{Heap}
use box_utils.Common.Commands.{update}
use box_utils.RefPtr.World.{World}

-- The last share of a counter goes, with the object that is named.
let_go : ℕ → ℕ → Heap → Heap
let_go a p h = record h {
  counts = update (update h.counts a (some 0)) a none;
  objects = update h.objects p false;
}
