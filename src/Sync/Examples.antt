-- ===== src/Sync/Examples.antt =====
-- Tests of src/sync/sem.cpp, and the theorems at concrete schedules.
use box_utils.Common.{
  ℕ, ◌+◌, ◌-◌, ◌^◌, ◌≡◌, refl, true, false, none, some, List, [], ◌∷◌, ◌++◌, arith, get_or, ok,
  undefined,
}
use box_utils.Sync.Semaphore
use box_utils.Sync.Semaphore.{Semaphore, post, go}
use box_utils.Sync.Semaphore.Laws.{run_calls, nonblocking_balance, post-underflow}
use box_utils.Sync.Event
use box_utils.Sync.Event.{Event, set_event, wait, sleep}
use box_utils.Sync.Event.Laws.{set-missed}
use box_utils.Sync.Pipe.{Pipe}
use box_utils.Sync.Pipe.Laws.{run, run_fifo}

abbrev two_asleep : Semaphore
two_asleep = record {
  sem_value = 0;
  val_mutex = none;
  threads = Semaphore.asleep ∷ Semaphore.asleep ∷ [];
}

nonblocking_balance_example :
    (g : ℕ) × (s' : Semaphore) × (run_calls (true ∷ false ∷ false ∷ []) two_asleep ≡ ok (g, s'))
    × (s'.sem_value + g ≡ 1)
    × (s'.val_mutex ≡ none)
nonblocking_balance_example =
    nonblocking_balance (true ∷ false ∷ false ∷ []) two_asleep refl (omega arith)

post-underflow_example :
    (s' : Semaphore) × (Semaphore.run (post ∷ go 0 ∷ go 0 ∷ go 1 ∷ go 1 ∷ []) two_asleep ≡ ok s')
    × (s'.sem_value ≡ 2 ^ 32 - 1)
    × (Semaphore.run (post ∷ go 0 ∷ go 0 ∷ go 1 ∷ go 1 ∷ go 0 ∷ []) two_asleep ≡ undefined)
post-underflow_example =
    post-underflow two_asleep 0 1 refl refl (omega arith) (omega arith) (omega arith) refl refl

-- A wait that does not sleep locks, counts down and unlocks.
abbrev one_free : Semaphore
one_free = record { sem_value = 1; val_mutex = none; threads = Semaphore.outside ∷ [] }

wait_counts_down :
    Semaphore.run (Semaphore.wait 0 ∷ go 0 ∷ go 0 ∷ go 0 ∷ go 0 ∷ []) one_free
    ≡ ok (record one_free { sem_value = 0 })
unfolding Semaphore.run Semaphore.step
wait_counts_down = refl

abbrev quiet : Event
quiet = record { val_isset = false; threads = Event.outside ∷ Event.asleep ∷ [] }

set-missed_example :
    (e' : Event) × (Event.run (wait 0 ∷ set_event ∷ sleep 0 ∷ set_event ∷ set_event ∷ []) quiet
      ≡ ok e')
    × (e'.val_isset ≡ true)
    × (get_or e'.threads 0 Event.outside ≡ Event.asleep)
set-missed_example = set-missed quiet 0 2 refl (omega arith) refl

abbrev one_waits : Pipe ℕ
one_waits = record { data_queue = 3 ∷ []; locked = false; is_set = true }

abbrev drained : Pipe ℕ
drained = record { data_queue = []; locked = false; is_set = true }

run_fifo_example :
    (xs : List ℕ) × (p' : Pipe ℕ) × (run (none ∷ some 4 ∷ some 5 ∷ none ∷ []) one_waits
      ≡ ok (xs, p'))
    × (p'.locked ≡ false)
    × (xs ++ p'.data_queue ≡ 3 ∷ 4 ∷ 5 ∷ [])
run_fifo_example = run_fifo (none ∷ some 4 ∷ some 5 ∷ none ∷ []) one_waits refl
