-- ===== src/RefPtr/World.antt =====
-- A program's variables of type `RefPtr` (include/Box/refptr.hpp) over one heap, and what it may
-- do with them.
use box_utils.Common.{
  ℕ, ◌<◌, ◌≡◌, ◌≢◌, ◌⊎◌, List, ◌==◌, length, get_or, set, suc, some, Run, ◌>>=◌, ok,
}
use box_utils.RefPtr.{
  RefPtr, null, construct, copy, move, destroy, reset, reset_to, assign, move_assign,
}
use box_utils.Common.Commands.{continue}
use box_utils.RefPtr.Memory.{Heap, Error, Cmd, new_object}

pub record World : Type 0 where
  pub heap : Heap
  pub vars : List RefPtr

-- A slot without a pointer is null: not yet constructed, destroyed, moved from or reset.
abbrev pub slot : List RefPtr → ℕ → RefPtr
slot vars i = get_or vars i null

pub data Op : Type 0 where
  -- `RefPtr<T> x(new T)`, `x.~RefPtr()`, `x.reset()`
  create destruct clear : ℕ → Op
  -- `x.reset(new T)`
  replace : ℕ → Op
  -- `RefPtr<T> x(y)`, `RefPtr<T> x(std::move(y))`, `x = y`, `x = std::move(y)`
  copy_construct move_construct copy_assign take_over : ℕ → ℕ → Op

abbrev pub run : {A : Type 0} → Cmd A → (A → List RefPtr) → World → Run Error World
run m vars w = m w.heap >>= λ r. ok (record { heap = r.1; vars = vars r.0 })

unfoldable pub step : Op → World → Run Error World
unfolding new_object construct copy move destroy reset reset_to assign move_assign
step (create i) w = run (λ h. continue (new_object h) construct) (λ r. set w.vars i r) w
step (destruct i) w = run (destroy (slot w.vars i)) (λ _. set w.vars i null) w
step (clear i) w = run (reset (slot w.vars i)) (λ r. set w.vars i r) w
step (replace i) w =
    run (λ h. continue (new_object h) (reset_to (slot w.vars i))) (λ r. set w.vars i r) w
step (copy_construct i j) w = run (copy (slot w.vars j)) (λ r. set w.vars i r) w
step (move_construct i j) w =
    let moved = move (slot w.vars j) in
    ok (record { heap = w.heap; vars = set (set w.vars j moved.1) i moved.0 })
step (copy_assign i j) w =
    run (assign (i == j) (slot w.vars i) (slot w.vars j)) (λ r. set w.vars i r) w
step (take_over i j) w =
    run (move_assign (i == j) (slot w.vars i) (slot w.vars j)) (λ r. set (set w.vars j r.1) i r.0) w

-- What the type asks of its user: a variable is constructed once, no null pointer is copied, and
-- only a pointer that shares its object with another one is reset to a new object.
abbrev pub Enabled : Op → World → Type 0
Enabled (create i) w = (i < length w.vars) × (slot w.vars i ≡ null)
Enabled (destruct i) w = i < length w.vars
Enabled (clear i) w = i < length w.vars
Enabled (replace i) w =
    (i < length w.vars)
    × (0 < (slot w.vars i).refcount)
    × ((n : ℕ) × (w.heap.counts (slot w.vars i).refcount ≡ some (suc (suc n))))
Enabled (copy_construct i j) w =
    (i < length w.vars) × (slot w.vars i ≡ null) × (0 < (slot w.vars j).refcount)
Enabled (move_construct i j) w =
    (i < length w.vars) × (j < length w.vars) × (slot w.vars i ≡ null) × (i ≢ j)
Enabled (copy_assign i j) w =
    (i < length w.vars) × ((i ≡ j) ⊎ ((i ≢ j) × (0 < (slot w.vars j).refcount)))
Enabled (take_over i j) w = (i < length w.vars) × (j < length w.vars)
