-- ===== src/Sync/Semaphore.antt =====
-- `Semaphore` (src/sync/sem.cpp): its value, its mutex and the threads that are in `wait()` or
-- `trywait(ms)`. `post()` and `trywait()` hold a guard of the mutex from end to end and are one
-- step each, possible while nobody holds the mutex; the waits, which count down without it after
-- a sleep, go on by single accesses.
pub mod Laws
use box_utils.Common.{
  ℕ, ◌+◌, ◌-◌, ◌%◌, ◌^◌, Bool, true, false, Option, none, some, List, [], ◌∷◌, ◌==◌, if◌then◌else◌,
  get_or, set, Run, ◌>>=◌, ok, throw, undefined,
}

-- Where a thread stands: outside, in front of the test of `sem_value`, behind it with the mutex
-- unlocked, asleep in `cond_var.wait`, in front of `sem_value --`, between its read and its write
-- of `sem_value`, or in front of the last `val_mutex.unlock()`.
pub data Pc : Type 0 where
  outside testing looked asleep counting leaving : Pc
  writing : ℕ → Pc

-- `val_mutex` is the thread that has locked it.
pub record Semaphore : Type 0 where
  pub sem_value : ℕ
  pub val_mutex : Option ℕ
  pub threads : List Pc

pub data Error : Type 0 where
  not_enabled : Error

-- The range of `unsigned int`.
abbrev pub uint_mod : ℕ
uint_mod = 2 ^ 32

-- `go` is the next access of a thread that is in a wait. `wake` is a wake-up that no `post` made,
-- and `time_out` the end of the time of a thread that is in `trywait(ms)`.
pub data Action : Type 0 where
  post trywait : Action
  wait timed_wait go wake time_out : ℕ → Action

-- `cond_var.notify_all()`
pub wake_all : List Pc → List Pc
wake_all [] = []
wake_all (asleep ∷ ts) = counting ∷ wake_all ts
wake_all (p ∷ ts) = p ∷ wake_all ts

pub decrement : ℕ → ℕ
decrement n = (n + uint_mod - 1) % uint_mod

move : ℕ → Pc → Semaphore → Semaphore
move i p s = record s { threads = set s.threads i p }

-- `val_mutex.lock()`
lock_mutex : ℕ → Semaphore → Run Error Semaphore
unfolding move
lock_mutex i s = elim s.val_mutex [
  | none ↦ ok (record (move i testing s) { val_mutex = some i })
  | some _ ↦ throw not_enabled
]

-- `val_mutex.unlock()`, undefined for a thread that has not locked the mutex; `p` is where the
-- thread stands behind it.
unlock_mutex : ℕ → Pc → Semaphore → Run Error Semaphore
unfolding move
unlock_mutex i p s = elim s.val_mutex [
  | none ↦ undefined
  | some owner ↦ if owner == i then ok (record (move i p s) { val_mutex = none }) else undefined
]

-- `wait()` and `trywait(ms)` behind their first line, access by access.
advance : ℕ → Pc → Semaphore → Run Error Semaphore
unfolding move unlock_mutex decrement
advance i outside s = throw not_enabled
advance i testing s = if s.sem_value == 0 then unlock_mutex i looked s else ok (move i counting s)
advance i looked s = ok (move i asleep s)
advance i asleep s = throw not_enabled
advance i counting s = ok (move i (writing s.sem_value) s)
advance i (writing n) s = ok (record (move i leaving s) { sem_value = decrement n })
advance i leaving s = unlock_mutex i outside s

is_asleep : Pc → Bool
is_asleep asleep = true
is_asleep p = false

is_outside : Pc → Bool
is_outside outside = true
is_outside p = false

increased : Semaphore → Semaphore
unfolding wake_all
increased s =
    let next = (s.sem_value + 1) % uint_mod in
    if s.sem_value == 0
    then record s { sem_value = next; threads = wake_all s.threads }
    else record s { sem_value = next }

-- `trywait()`: what it returns, and the semaphore behind it.
pub try_wait : Semaphore → Bool × Semaphore
unfolding decrement
try_wait s =
    if s.sem_value == 0 then (false, s) else (true, record s { sem_value = decrement s.sem_value })

-- The step of a thread that locks the mutex for all of it.
with_lock : (Semaphore → Semaphore) → Semaphore → Run Error Semaphore
with_lock f s = elim s.val_mutex [ none ↦ ok (f s) | some _ ↦ throw not_enabled ]

unfoldable pub step : Action → Semaphore → Run Error Semaphore
unfolding with_lock increased try_wait lock_mutex advance move is_asleep is_outside
step post s = with_lock increased s
step trywait s = with_lock (λ t. (try_wait t).1) s
step (wait i) s =
    if is_outside (get_or s.threads i outside) then lock_mutex i s else throw not_enabled
step (timed_wait i) s =
    if is_outside (get_or s.threads i outside) then lock_mutex i s else throw not_enabled
step (go i) s = advance i (get_or s.threads i outside) s
step (wake i) s =
    if is_asleep (get_or s.threads i outside) then ok (move i counting s) else throw not_enabled
step (time_out i) s =
    if is_asleep (get_or s.threads i outside) then ok (move i outside s) else throw not_enabled

unfoldable pub run : List Action → Semaphore → Run Error Semaphore
unfolding step
run [] s = ok s
run (a ∷ rest) s = step a s >>= run rest
