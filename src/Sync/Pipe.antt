-- ===== src/Sync/Pipe.antt =====
-- `Pipe` (include/Box/sync/pipe.hpp): the queue, its mutex, and the flag of `empty_ev`. A blocking
-- read is two steps, up to `empty_ev.wait` and behind it. Each operation runs alone from its
-- `lock` to its `unlock`; the mutex is part of the state since one operation leaves it locked.
pub mod Laws
use box_utils.Common.{
  ◌>>=◌, ℕ, Bool, true, false, List, [], ◌∷◌, ◌++◌, length, Run, ok, throw, undefined,
  if◌then◌else◌,
}

pub data Error : Type 0 where
  deadlock : Error

pub record Pipe {ℓ} (A : Type ℓ) : Type ℓ where
  pub data_queue : List A
  pub locked : Bool
  pub is_set : Bool

-- What a read comes to: a value, nothing, or a wait for `empty_ev`.
pub data Answer {ℓ} (A : Type ℓ) : Type ℓ where
  value : A → Answer A
  nothing : Answer A
  waiting : Answer A

module _ {ℓ} {A : Type ℓ} where
  pub is_empty : List A → Bool
  is_empty [] = true
  is_empty (x ∷ xs) = false

  -- `mtx.lock()`; nobody is there to unlock it.
  lock : Pipe A → Run Error (Pipe A)
  lock p = if p.locked then throw deadlock else ok (record p { locked = true })

  unlock : Pipe A → Pipe A
  unlock p = record p { locked = false }

  -- `data = data_queue.front(); data_queue.pop();`
  take_front : Pipe A → Run Error (A × Pipe A)
  take_front p = elim p.data_queue [
    | [] ↦ undefined
    | x ∷ xs ↦ ok (x, record p { data_queue = xs })
  ]

  pub empty : Pipe A → Run Error Bool
  unfolding lock is_empty
  empty p = do p ← lock p; ok (is_empty p.data_queue)

  pub size : Pipe A → Run Error ℕ
  unfolding lock
  size p = do p ← lock p; ok (length p.data_queue)

  pub write : A → Pipe A → Run Error (Pipe A)
  unfolding lock unlock is_empty
  write x p = do
    p ← lock p
    ok (
        unlock (record p {
          data_queue = p.data_queue ++ x ∷ [];
          is_set = (if is_empty p.data_queue then true else p.is_set);
        }))

  pub try_read : Pipe A → Run Error (Answer A × Pipe A)
  unfolding lock unlock is_empty take_front
  try_read p = do
    p ← lock p
    if is_empty p.data_queue
        then ok (nothing, unlock p)
        else do (x, p) ← take_front p; ok (value x, unlock p)

  -- `read(T &)` up to its end, or to where it waits.
  pub read : Pipe A → Run Error (Answer A × Pipe A)
  unfolding lock unlock is_empty take_front
  read p = do
    p ← lock p
    if is_empty p.data_queue
        then ok (waiting, unlock (record p { is_set = false }))
        else do (x, p) ← take_front p; ok (value x, unlock p)

  -- The rest of it, behind `empty_ev.wait()`.
  pub read_woken : Pipe A → Run Error (Answer A × Pipe A)
  unfolding lock unlock take_front
  read_woken p = do p ← lock p; (x, p) ← take_front p; ok (value x, unlock p)

  -- `read(T &, const Time &)`; there is no `unlock` behind the value.
  pub read_timed : Pipe A → Run Error (Answer A × Pipe A)
  unfolding lock unlock is_empty take_front
  read_timed p = do
    p ← lock p
    if is_empty p.data_queue
        then ok (waiting, unlock (record p { is_set = false }))
        else do (x, p) ← take_front p; ok (value x, p)

  -- The rest of it, behind `empty_ev.wait(time)`.
  pub read_timed_woken : Bool → Pipe A → Run Error (Answer A × Pipe A)
  unfolding lock take_front
  read_timed_woken in_time p =
      if in_time then (do p ← lock p; (x, p) ← take_front p; ok (value x, p)) else ok (nothing, p)
