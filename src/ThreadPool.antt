-- ===== src/ThreadPool.antt =====
-- `ThreadPool` (src/threadpool.cpp): the queue of tasks and the threads of its workers, as steps.
-- A critical section under the mutex of the queue is one step; looking at `running`, `set` on the
-- event, falling asleep, and calling an entry are others, so that an interleaving is a list of
-- steps. A task is the number of its `StartEntry`.
pub mod Observers
pub mod Counting
pub mod Conserved
pub mod Missed
mod Examples
use box_utils.Common.{
  ℕ, zero, suc, ◌+◌, ◌-◌, Bool, true, false, ◌||◌, none, some, List, [], ◌∷◌, ◌++◌, ltb, ◌==◌,
  if◌then◌else◌, length, get_elem?, take, drop, replicate, Run, ◌>>=◌, ok, throw,
}

-- Where a thread stands in `worker_main`.
pub data Pc : Type 0 where
  at_loop looking seen_empty falling_asleep asleep returned ended : Pc
  holding calling : ℕ → Pc

pub record Worker : Type 0 where
  pub running : Bool
  pub is_free : Bool
  pub detached : Bool
  pub pc : Pc

-- `workers` are positions in `threads`, which keeps the detached ones; `called` are the tasks
-- whose entries were called, the last one first.
pub record Pool : Type 0 where
  pub tasks : List ℕ
  pub empty_event : Bool
  pub workers : List ℕ
  pub threads : List Worker
  pub called : List ℕ

pub data Error : Type 0 where
  not_enabled : Error

-- `cond_var.notify_one()` wakes the thread that `add_task` names. `wake` is a wake-up that nobody
-- made.
pub data Action : Type 0 where
  work wake : ℕ → Action
  add_task : ℕ → ℕ → Action
  set_workers : ℕ → Action
  stop : Action

-- `Worker()`, and the start of its thread.
abbrev pub new_worker : Worker
new_worker = record { running = true; is_free = true; detached = false; pc = at_loop }

-- The part of `worker_main` from one place to the next.
pub worker_main : Pc → Worker → Pool → Run Error (Worker × Pool)
worker_main at_loop w p = ok (record w { pc = if w.running then looking else ended }, p)
worker_main looking w p = elim p.tasks [
  | [] ↦ ok (record w { pc = seen_empty }, p)
  | entry ∷ rest ↦ ok (record w { pc = holding entry }, record p { tasks = rest })
]
worker_main seen_empty w p = ok (record w { pc = falling_asleep }, record p { empty_event = true })
worker_main falling_asleep w p = ok (record w { pc = asleep }, p)
worker_main asleep w p = throw not_enabled
worker_main (holding entry) w p = ok (record w { is_free = false; pc = calling entry }, p)
worker_main (calling entry) w p =
    ok (record w { pc = returned }, record p { called = entry ∷ p.called })
worker_main returned w p = ok (record w { is_free = true; pc = at_loop }, p)
worker_main ended w p = throw not_enabled

pub modify : (Worker → Worker) → ℕ → List Worker → List Worker
modify f i [] = []
modify f zero (w ∷ ws) = f w ∷ ws
modify f (suc i) (w ∷ ws) = w ∷ modify f i ws

-- Behind `cond_var.wait` the loop goes on.
pub wake_pc : Pc → Pc
wake_pc asleep = at_loop
wake_pc pc = pc

pub wake_worker : Worker → Worker
unfolding wake_pc
wake_worker w = record w { pc = wake_pc w.pc }

-- `cond_var.notify_all()`
pub wake_all : List Worker → List Worker
unfolding wake_worker
wake_all [] = []
wake_all (w ∷ ws) = wake_worker w ∷ wake_all ws

pub is_asleep : Pc → Bool
is_asleep asleep = true
is_asleep pc = false

pub any_asleep : List Worker → Bool
unfolding is_asleep
any_asleep [] = false
any_asleep (w ∷ ws) = is_asleep w.pc || any_asleep ws

-- A thread that sleeps is woken.
pub wake_at : ℕ → Pool → Run Error Pool
unfolding is_asleep modify wake_worker
wake_at i p = do
  w ← elim (get_elem? p.threads i) [ none ↦ throw not_enabled | some w ↦ ok w ]
  if is_asleep w.pc
      then ok (record p { threads = modify wake_worker i p.threads })
      else throw not_enabled

-- `cond_var.notify_one()`
notify_one : ℕ → Pool → Run Error Pool
unfolding any_asleep wake_at
notify_one i p = if any_asleep p.threads then wake_at i p else ok p

-- `add_task(const StartEntry &)`
pub add : ℕ → ℕ → Pool → Run Error Pool
unfolding notify_one
add entry i p = elim p.tasks [
  | [] ↦ do
    p ← notify_one i (record p { tasks = entry ∷ [] })
    ok (record p { empty_event = false })
  | t ∷ ts ↦ ok (record p { tasks = t ∷ ts ++ entry ∷ [] })
]

-- `running = false`, and for a worker that the pool gives up `detached = true` too.
stopped : Worker → Worker
stopped w = record w { running = false }

released : Worker → Worker
released w = record w { running = false; detached = true }

pub modify_all : (Worker → Worker) → List ℕ → List Worker → List Worker
unfolding modify
modify_all f [] ws = ws
modify_all f (i ∷ is) ws = modify_all f is (modify f i ws)

-- The positions of `n` new threads.
new_positions : ℕ → ℕ → List ℕ
new_positions first zero = []
new_positions first (suc n) = first ∷ new_positions (first + 1) n

-- `set_workers_lockfree`
pub resize : ℕ → Pool → Pool
unfolding wake_all released modify_all new_positions
resize wks p =
    let size = length p.workers in
    if wks == size
    then p
    else if ltb wks size
    then record p {
      workers = drop (size - wks) p.workers;
      threads = wake_all (modify_all released (take (size - wks) p.workers) p.threads);
    }
    else record p {
      workers = p.workers ++ new_positions (length p.threads) (wks - size);
      threads = p.threads ++ replicate (wks - size) new_worker;
    }

-- `~ThreadPool()` behind `wait()`, up to the deletion of the workers.
pub stop_all : Pool → Pool
unfolding wake_all stopped modify_all
stop_all p = record p { threads = wake_all (modify_all stopped p.workers p.threads) }

pub step : Action → Pool → Run Error Pool
unfolding worker_main modify wake_at add resize stop_all
step (work i) p = do
  w ← elim (get_elem? p.threads i) [ none ↦ throw not_enabled | some w ↦ ok w ]
  (w, p) ← worker_main w.pc w p
  ok (record p { threads = modify (λ _. w) i p.threads })
step (wake i) p = wake_at i p
step (add_task entry i) p = add entry i p
step (set_workers wks) p = ok (resize wks p)
step stop p = ok (stop_all p)

pub run : List Action → Pool → Run Error Pool
unfolding step
run [] p = ok p
run (a ∷ rest) p = do p ← step a p; run rest p

-- `ThreadPool(wks)`
pub create : ℕ → Pool
unfolding resize
create wks =
    resize wks (record { tasks = []; empty_event = false; workers = []; threads = []; called = [] })
