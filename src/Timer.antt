-- ===== src/Timer.antt =====
-- `Timer` (src/timer.cpp): the list of timers and the loop of their thread. The clock and the
-- callbacks are arguments; one round of the loop runs alone, since it holds the mutex of the list.
pub mod Polling
mod Examples
use box_utils.Common.{
  ℕ, ◌+◌, ◌-◌, Bool, true, false, not, ◌||◌, Option, none, some, List, [], ◌∷◌, ◌++◌, ltb, leb,
  ◌==◌, if◌then◌else◌, Run, ◌>>=◌, ok, undefined,
}

-- A `std::chrono::microseconds`: from 0 on, or `below n` for - (n + 1).
pub data MicroSeconds : Type 0 where
  at below : ℕ → MicroSeconds

-- A timer's `id` is the address of its callback in the list; function pointers are numbers, 0 the
-- null pointer.
pub record TimerData : Type 0 where
  pub id : ℕ
  pub callback : ℕ
  pub ms : MicroSeconds
  pub delete_fn : ℕ
  pub param : ℕ

-- What a round does outside: calls of callbacks and of deleters, each with its parameter.
pub data Call : Type 0 where
  called deleted : ℕ → ℕ → Call

pub data Error : Type 0 where
  no_error : Error

-- `ms - dur_ms <= 0`
pub is_due : MicroSeconds → ℕ → Bool
is_due (at ms) dur_ms = leb ms dur_ms
is_due (below ms) dur_ms = true

pub is_zero : MicroSeconds → Bool
is_zero (at ms) = ms == 0
is_zero (below ms) = false

-- `ms -= dur_ms` where it is above 0 afterwards.
minus : MicroSeconds → ℕ → MicroSeconds
minus (at ms) dur_ms = at (ms - dur_ms)
minus (below ms) dur_ms = below (ms + dur_ms)

-- `timer.ms < sleep_ms or sleep_ms != zero_ms`; `sleep_ms` is 0 or the time of a timer.
wakes_sooner : MicroSeconds → ℕ → Bool
wakes_sooner (at ms) sleep_ms = ltb ms sleep_ms || not (sleep_ms == 0)
wakes_sooner (below ms) sleep_ms = true

time_of : MicroSeconds → ℕ
time_of (at ms) = ms
time_of (below ms) = 0

pub record Round : Type 0 where
  pub timers : List TimerData
  pub sleep_ms : ℕ
  pub calls : List Call

-- The body of the `for` loop at a timer that is due: the timer, or `none` where it is erased.
fire : (ℕ → MicroSeconds → ℕ → MicroSeconds) → TimerData → Option TimerData × List Call
unfolding is_zero
fire answer t =
    let ms = if t.callback == 0 then t.ms else answer t.callback t.ms t.param in
    let calls = if t.callback == 0 then [] else called t.callback t.param ∷ [] in
    if is_zero ms
    then (none, calls ++ (if t.delete_fn == 0 then [] else deleted t.delete_fn t.param ∷ []))
    else (some (record t { ms = ms }), calls)

-- The `for` loop.
pub round : (ℕ → MicroSeconds → ℕ → MicroSeconds) → ℕ → ℕ → List TimerData → Round
unfolding is_due minus wakes_sooner time_of fire
round answer dur_ms sleep_ms [] = record { timers = []; sleep_ms = sleep_ms; calls = [] }
round answer dur_ms sleep_ms (t ∷ rest) = elim (is_due t.ms dur_ms) [
  | true ↦
      let (kept, calls) = fire answer t in
      let r = round answer dur_ms sleep_ms rest in
      record {
        timers = elim kept [ none ↦ r.timers | some t' ↦ t' ∷ r.timers ];
        sleep_ms = r.sleep_ms;
        calls = calls ++ r.calls;
      }
  | false ↦
      let ms = minus t.ms dur_ms in
      let r =
        round answer dur_ms (if wakes_sooner ms sleep_ms then time_of ms else sleep_ms) rest in
      record { timers = record t { ms = ms } ∷ r.timers; sleep_ms = r.sleep_ms; calls = r.calls }
]

-- `dur_ms` from two readings of a clock in nanoseconds: their difference is taken for microseconds.
pub elapsed : ℕ → ℕ → ℕ
elapsed now timep = now - timep

-- `Create` on the list of an initialised implementation, `none` before `Init`; `id` is the address
-- of the new node.
pub create :
    MicroSeconds
    → ℕ
    → ℕ
    → ℕ
    → Option (List TimerData)
    → Run Error (Option ℕ × Option (List TimerData))
create ms callback param id impl = if callback == 0 then ok (none, impl) else elim impl [
  | none ↦ undefined
  | some timers ↦ ok (
    some id,
    some (record { id = id; callback = callback; ms = ms; delete_fn = 0; param = param } ∷ timers),
  )
]

-- The `for` loop of `Delete`: the node is erased, and then read.
pub delete_loop : ℕ → List TimerData → Run Error (Bool × List TimerData)
delete_loop id [] = ok (false, [])
delete_loop id (t ∷ rest) = elim (t.id == id) [
  | true ↦ undefined
  | false ↦ do (found, rest) ← delete_loop id rest; ok (found, t ∷ rest)
]

pub delete : ℕ → Option (List TimerData) → Run Error (Bool × Option (List TimerData))
unfolding delete_loop
delete id impl = if id == 0 then ok (false, impl) else elim impl [
  | none ↦ undefined
  | some timers ↦ do (found, timers) ← delete_loop id timers; ok (found, some timers)
]

-- `Init` and `Quit`
pub init : Option (List TimerData) → Option (List TimerData)
init none = some []
init (some timers) = some timers

pub quit : Option (List TimerData) → Option (List TimerData)
quit impl = none
