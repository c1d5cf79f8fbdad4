-- ===== src/ThreadPool/Observers.antt =====
-- What a `ThreadPool` (src/threadpool.cpp) is asked, and the end of its destructor.
use box_utils.Common.{
  ℕ, suc, Bool, true, false, ◌&&◌, ◌||◌, Option, none, some, List, [], ◌∷◌, ◌==◌, if◌then◌else◌,
  length, get_elem?,
}
use box_utils.ThreadPool.{ended, Worker, Pool}

-- `wait()` comes back: there are no tasks in the queue, or the event is set.
unfoldable pub wait_returns : Pool → Bool
wait_returns p = length p.tasks == 0 || p.empty_event

pub no_tasks : Pool → Bool
no_tasks p = length p.tasks == 0

pub count_tasks : Pool → ℕ
count_tasks p = length p.tasks

pub count_workers : Pool → ℕ
count_workers p = length p.workers

-- Whether a worker is free; the positions of the pool's workers are threads.
free_at : List Worker → ℕ → Bool
free_at ws i = elim (get_elem? ws i) [ none ↦ false | some w ↦ w.is_free ]

count_free : List Worker → List ℕ → ℕ
unfolding free_at
count_free ws [] = 0
count_free ws (i ∷ is) = let rest = count_free ws is in if free_at ws i then suc rest else rest

pub count_freeworkers : Pool → ℕ
unfolding count_free
count_freeworkers p = count_free p.threads p.workers

pub busy : Pool → Bool
unfolding count_freeworkers
busy p = count_freeworkers p == 0

has_ended : List Worker → ℕ → Bool
has_ended ws i = elim (get_elem? ws i) [
  | none ↦ false
  | some w ↦ elim w.pc [ ended ↦ true | _ ↦ false ]
]

all_ended : List Worker → List ℕ → Bool
unfolding has_ended
all_ended ws [] = true
all_ended ws (i ∷ is) = has_ended ws i && all_ended ws is

-- The rest of `~ThreadPool()`: the deletion of a worker waits until its thread has ended.
pub finish : Pool → Option Pool
unfolding all_ended
finish p = if all_ended p.threads p.workers then some (record p { tasks = [] }) else none
