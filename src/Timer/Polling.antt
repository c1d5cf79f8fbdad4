-- ===== src/Timer/Polling.antt =====
-- How long the thread of src/timer.cpp sleeps between two rounds, and what becomes of a timer.
use box_utils.Common.{
  ℕ, ◌+◌, ◌-◌, ◌≤◌, ◌<◌, ◌≡◌, refl, ap, ◌∙◌, ◌≢◌, inl, inr, true, false, List, [], ◌∷◌, ◌++◌, arith,
  ◌==◌, if◌then◌else◌, Bool-cases,
}
use box_utils.Timer.{
  MicroSeconds, at, below, TimerData, Call, called, deleted, Round, is_due, round, minus,
  wakes_sooner, time_of, fire, is_zero,
}

-- The sleep that a timer asks for which is not due: none, from none on.
asks_nothing :
    (ms : MicroSeconds) (dur_ms : ℕ)
    → is_due ms dur_ms ≡ false
    → (if wakes_sooner (minus ms dur_ms) 0 then time_of (minus ms dur_ms) else 0) ≡ 0
unfolding is_due wakes_sooner minus time_of
asks_nothing (at ms) dur_ms h = ground arith
asks_nothing (below ms) dur_ms h = absurd (cc)

-- A round with `sleep_ms` at 0 leaves it at 0.
round-sleeps_not :
    (answer : ℕ → MicroSeconds → ℕ → MicroSeconds) (dur_ms : ℕ) (timers : List TimerData)
    → (round answer dur_ms 0 timers).sleep_ms ≡ 0
unfolding round
round-sleeps_not answer dur_ms [] = refl
round-sleeps_not answer dur_ms (t ∷ timers) = elim (Bool-cases (is_due t.ms dur_ms)) [
  | inl d ↦ rw (round, d) (round-sleeps_not answer dur_ms timers)
  | inr d ↦ rw (round, d) (rw (asks_nothing t.ms dur_ms d) (round-sleeps_not answer dur_ms timers))
]

-- The rounds of the loop one after the other, each with the time that it finds elapsed; nobody
-- adds or removes a timer in between.
pub rounds : (ℕ → MicroSeconds → ℕ → MicroSeconds) → List ℕ → ℕ → List TimerData → Round
rounds answer [] sleep_ms timers = record { timers = timers; sleep_ms = sleep_ms; calls = [] }
rounds answer (dur_ms ∷ durs) sleep_ms timers =
    let r = round answer dur_ms sleep_ms timers in
    let later = rounds answer durs r.sleep_ms r.timers in
    record { timers = later.timers; sleep_ms = later.sleep_ms; calls = r.calls ++ later.calls }

rounds-sleep_not :
    (answer : ℕ → MicroSeconds → ℕ → MicroSeconds) (durs : List ℕ) (timers : List TimerData)
    → (rounds answer durs 0 timers).sleep_ms ≡ 0
unfolding rounds
rounds-sleep_not answer [] timers = refl
rounds-sleep_not answer (dur_ms ∷ durs) timers =
    rw (round-sleeps_not answer dur_ms timers)
      (rounds-sleep_not answer durs (round answer dur_ms 0 timers).timers)

abbrev pub total : List ℕ → ℕ
total [] = 0
total (d ∷ ds) = d + total ds

-- A timer by itself, with `ms` microseconds to go.
abbrev pub alone : TimerData → ℕ → List TimerData
alone t ms = record t { ms = at ms } ∷ []

waits :
    (answer : ℕ → MicroSeconds → ℕ → MicroSeconds) (t : TimerData) (ms dur_ms : ℕ)
    → dur_ms < ms
    → ((round answer dur_ms 0 (alone t ms)).timers ≡ alone t (ms - dur_ms))
      × ((round answer dur_ms 0 (alone t ms)).calls ≡ [])
unfolding round is_due minus
waits answer t ms dur_ms h =
    let d : is_due (at ms) dur_ms ≡ false = ground arith in (rw (round, d) refl, rw (round, d) refl)

rounds-wait :
    (answer : ℕ → MicroSeconds → ℕ → MicroSeconds) (durs : List ℕ) (t : TimerData) (ms : ℕ)
    → total durs < ms
    → ((rounds answer durs 0 (alone t ms)).timers ≡ alone t (ms - total durs))
      × ((rounds answer durs 0 (alone t ms)).calls ≡ [])
unfolding rounds
rounds-wait answer [] t ms h = let same : ms ≡ ms - 0 = omega arith in (ap (alone t) same, refl)
rounds-wait answer (dur_ms ∷ durs) t ms h =
    let (left, silent) = waits answer t ms dur_ms (omega (arith, h)) in
    let (left', silent') = rounds-wait answer durs t (ms - dur_ms) (omega (arith, h)) in
    let less : ms - dur_ms - total durs ≡ ms - (dur_ms + total durs) = omega arith in
    (
      rw (round-sleeps_not answer dur_ms (alone t ms), left) (left' ∙ ap (alone t) less),
      rw (silent, round-sleeps_not answer dur_ms (alone t ms), left) silent',
    )

-- A timer that is due has its callback called, and perhaps its deleter after it.
due-calls :
    (answer : ℕ → MicroSeconds → ℕ → MicroSeconds) (t : TimerData) (dur_ms ms : ℕ)
    → ms ≤ dur_ms
    → t.callback ≢ 0
    → (rest : List Call) × ((round answer dur_ms 0 (alone t ms)).calls
        ≡ called t.callback t.param ∷ rest)
unfolding round is_due fire
due-calls answer t dur_ms ms reached given =
    let d : is_due (at ms) dur_ms ≡ true = ground arith in
    let set : (t.callback == 0) ≡ false = ground arith in
    elim (Bool-cases (is_zero (answer t.callback (at ms) t.param))) [
      | inl z ↦ (
        (if t.delete_fn == 0 then [] else deleted t.delete_fn t.param ∷ []) ++ [],
        rw (round, fire, d, set, z) refl,
      )
      | inr z ↦ ([], rw (round, fire, d, set, z) refl)
    ]

-- A timer by itself is not called in the rounds whose times add up to less than its own, and is
-- called in the round with which they reach it. Through all of them `sleep_ms` is 0.
pub rounds-fire :
    (answer : ℕ → MicroSeconds → ℕ → MicroSeconds) (durs : List ℕ) (dur_ms ms : ℕ) (t : TimerData)
    → total durs < ms
    → ms ≤ total durs + dur_ms
    → t.callback ≢ 0
    → ((rounds answer durs 0 (alone t ms)).calls ≡ [])
      × ((rounds answer durs 0 (alone t ms)).sleep_ms ≡ 0)
      × ((rest : List Call) × ((round answer dur_ms 0
              (rounds answer durs 0 (alone t ms)).timers).calls
            ≡ called t.callback t.param ∷ rest))
      × ((round answer dur_ms 0 (rounds answer durs 0 (alone t ms)).timers).sleep_ms ≡ 0)
rounds-fire answer durs dur_ms ms t before reached given =
    let (left, silent) = rounds-wait answer durs t ms before in
    (
      silent,
      rounds-sleep_not answer durs (alone t ms),
      rw left (due-calls answer t dur_ms (ms - total durs) (omega (arith, reached)) given),
      round-sleeps_not answer dur_ms (rounds answer durs 0 (alone t ms)).timers,
    )
