-- ===== src/ThreadPool/Examples.antt =====
-- The theorems on src/threadpool.cpp at pools of one worker.
use box_utils.Common.{true, ℕ, ◌+◌, ◌≡◌, refl, false, List, [], ◌∷◌, Run, ok, throw}
use box_utils.ThreadPool.Observers.{wait_returns}
use box_utils.ThreadPool.{
  Pool, Error, not_enabled, Action, work, add_task, set_workers, step, run, create,
}
use box_utils.ThreadPool.Counting.{count, held_all, added}
use box_utils.ThreadPool.Conserved.{run-conserves}
use box_utils.ThreadPool.Missed.{adds, add_between, add_task-missed}

-- Two tasks, one of them called, the other taken by a worker that the pool gives up.
abbrev actions : List Action
actions =
    add_task 7 0
    ∷ add_task 8 0
    ∷ work 0
    ∷ work 0
    ∷ work 0
    ∷ work 0
    ∷ work 0
    ∷ work 0
    ∷ work 0
    ∷ set_workers 0
    ∷ []

abbrev after : Run Error Pool → Pool
after (ok p) = p
after r = record { tasks = []; empty_event = false; workers = []; threads = []; called = [] }

run-conserves_example :
    count 8 (after (run actions (create 1))).called
      + (held_all 8 (after (run actions (create 1))).threads
          + count 8 (after (run actions (create 1))).tasks)
    ≡ added 8 actions
unfolding run create
run-conserves_example = run-conserves 8 1 actions (after (run actions (create 1))) refl

add_task-missed_example :
    (stuck : Pool) × (p : Pool) × (run (add_between true 7) (create 1) ≡ ok stuck)
    × (run (adds (8 ∷ 9 ∷ [])) stuck ≡ ok p)
    × (p.tasks ≡ 7 ∷ 8 ∷ 9 ∷ [])
    × (p.called ≡ [])
    × (wait_returns p ≡ false)
    × ((i : ℕ) → step (work i) p ≡ throw not_enabled)
add_task-missed_example = add_task-missed true 7 (8 ∷ 9 ∷ [])
