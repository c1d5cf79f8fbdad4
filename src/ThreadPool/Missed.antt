-- ===== src/ThreadPool/Missed.antt =====
-- A task of a `ThreadPool` (src/threadpool.cpp) that no worker is woken for.
use box_utils.Common.{
  ℕ, zero, suc, ◌≡◌, refl, sym, ap, ◌∙◌, Bool, true, false, not, List, [], ◌∷◌, ◌++◌, append-nil,
  append_assoc, arith, ok, throw,
}
use box_utils.ThreadPool.Observers.{wait_returns}
use box_utils.ThreadPool.{
  asleep, Pool, not_enabled, Action, work, add_task, worker_main, modify, any_asleep, is_asleep,
  notify_one, add, resize, step, run, create,
}

-- Calls of `add_task` one after the other.
abbrev pub adds : List ℕ → List Action
adds [] = []
adds (x ∷ xs) = add_task x 0 ∷ adds xs

-- On a queue with a task in it they wake nobody.
adds-append :
    (xs ts : List ℕ) (t : ℕ) (p : Pool)
    → run (adds xs) (record p { tasks = t ∷ ts }) ≡ ok (record p { tasks = t ∷ ts ++ xs })
unfolding run step add
adds-append [] ts t p = ap (λ l. ok (record p { tasks = t ∷ l })) (sym (append-nil ts))
adds-append (x ∷ xs) ts t p =
    adds-append xs (ts ++ x ∷ []) t p
    ∙ ap (λ l. ok (record p { tasks = t ∷ l })) (append_assoc ts (x ∷ []) xs)

-- The worker of a fresh pool of one finds the queue empty, sets `empty_event` and sleeps. A task is
-- added behind the second of these steps if `late`, and in front of it otherwise.
abbrev pub add_between : Bool → ℕ → List Action
add_between true x = work 0 ∷ work 0 ∷ work 0 ∷ add_task x 0 ∷ work 0 ∷ []
add_between false x = work 0 ∷ work 0 ∷ add_task x 0 ∷ work 0 ∷ work 0 ∷ []

-- The worker is asleep, and there are tasks.
abbrev sleeping : Bool → List ℕ → Pool
sleeping event tasks = record {
  tasks = tasks;
  empty_event = event;
  workers = 0 ∷ [];
  threads = record { running = true; is_free = true; detached = false; pc = asleep } ∷ [];
  called = [];
}

sleeping-throw :
    (event : Bool) (tasks : List ℕ) (i : ℕ)
    → step (work i) (sleeping event tasks) ≡ throw not_enabled
unfolding step worker_main
sleeping-throw event tasks zero = refl
sleeping-throw event tasks (suc i) = refl

-- The only worker of a fresh pool has found the queue empty and is about to set `empty_event` and
-- to sleep. A task is added before or behind (`late`) that setting, in any case before the sleep:
-- it stays in the queue, and so do all tasks that are added after it. Nothing is called, and no
-- thread can take a step without being woken. `wait()` comes back in the first case, as if all work
-- were done, and does not come back in the second one.
pub add_task-missed :
    (late : Bool) (x : ℕ) (xs : List ℕ)
    → (stuck : Pool) × (p : Pool) × (run (add_between late x) (create 1) ≡ ok stuck)
      × (run (adds xs) stuck ≡ ok p)
      × (p.tasks ≡ x ∷ xs)
      × (p.called ≡ [])
      × (wait_returns p ≡ not late)
      × ((i : ℕ) → step (work i) p ≡ throw not_enabled)
unfolding run step worker_main modify add notify_one any_asleep is_asleep create resize wait_returns
add_task-missed true x xs = (
  sleeping false (x ∷ []),
  sleeping false (x ∷ xs),
  refl,
  adds-append xs [] x (sleeping false (x ∷ [])),
  refl,
  refl,
  ground arith,
  sleeping-throw false (x ∷ xs),
)
add_task-missed false x xs = (
  sleeping true (x ∷ []),
  sleeping true (x ∷ xs),
  refl,
  adds-append xs [] x (sleeping true (x ∷ [])),
  refl,
  refl,
  ground arith,
  sleeping-throw true (x ∷ xs),
)
