-- ===== src/Timer/Examples.antt =====
-- The theorem on the thread of src/timer.cpp at a timer of ten microseconds.
use box_utils.Common.{ℕ, ◌≡◌, List, [], ◌∷◌, arith}
use box_utils.Timer.{MicroSeconds, at, TimerData, Call, called, round}
use box_utils.Timer.Polling.{rounds, alone, rounds-fire}

abbrev t : TimerData
t = record { id = 1; callback = 7; ms = at 10; delete_fn = 0; param = 4 }

-- A callback that asks to be called again.
abbrev again : ℕ → MicroSeconds → ℕ → MicroSeconds
again callback ms param = at 5

rounds-fire_example :
    ((rounds again (3 ∷ 6 ∷ []) 0 (alone t 10)).calls ≡ [])
    × ((rounds again (3 ∷ 6 ∷ []) 0 (alone t 10)).sleep_ms ≡ 0)
    × ((rest : List Call) × ((round again 2 0
            (rounds again (3 ∷ 6 ∷ []) 0 (alone t 10)).timers).calls
          ≡ called 7 4 ∷ rest))
    × ((round again 2 0 (rounds again (3 ∷ 6 ∷ []) 0 (alone t 10)).timers).sleep_ms ≡ 0)
rounds-fire_example =
    rounds-fire again (3 ∷ 6 ∷ []) 2 10 t (ground arith) (ground arith) (ground arith)
