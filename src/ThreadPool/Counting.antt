-- ===== src/ThreadPool/Counting.antt =====
-- Counting the tasks of a `ThreadPool` (src/threadpool.cpp): in lists and at its threads.
use box_utils.Common.{
  ℕ, zero, suc, ◌+◌, ◌≡◌, refl, ap, ◌∙◌, none, some, List, [], ◌∷◌, ◌++◌, arith, ◌==◌,
  if◌then◌else◌, get_elem?, replicate,
}
use box_utils.ThreadPool.{
  Pc, at_loop, looking, seen_empty, falling_asleep, asleep, returned, ended, holding, calling,
  Worker, Pool, Action, add_task, new_worker, modify, modify_all, wake_pc, wake_worker, wake_all,
}

abbrev pub count : ℕ → List ℕ → ℕ
count x [] = 0
count x (y ∷ l) = (if y == x then 1 else 0) + count x l

-- The tasks that a thread has taken and not called yet.
abbrev pub held : ℕ → Pc → ℕ
held x (holding y) = if y == x then 1 else 0
held x (calling y) = if y == x then 1 else 0
held x pc = 0

abbrev pub held_all : ℕ → List Worker → ℕ
held_all x [] = 0
held_all x (w ∷ ws) = held x w.pc + held_all x ws

-- How often the task `x` is in the pool or was called.
abbrev pub amount : ℕ → Pool → ℕ
amount x p = count x p.called + (held_all x p.threads + count x p.tasks)

-- How often the actions add it.
abbrev pub added : ℕ → List Action → ℕ
added x [] = 0
added x (add_task y i ∷ rest) = (if y == x then 1 else 0) + added x rest
added x (a ∷ rest) = added x rest

module _ (x : ℕ) where
  pub count-append : (a b : List ℕ) → count x (a ++ b) ≡ count x a + count x b
  count-append [] b = omega arith
  count-append (y ∷ a) b = let rest = count-append a b in omega (arith, rest)

  pub held_all-append : (a b : List Worker) → held_all x (a ++ b) ≡ held_all x a + held_all x b
  held_all-append [] b = omega arith
  held_all-append (w ∷ a) b = let rest = held_all-append a b in omega (arith, rest)

  pub held_all-replicate : (n : ℕ) → held_all x (replicate n new_worker) ≡ 0
  held_all-replicate zero = refl
  held_all-replicate (suc n) = let rest = held_all-replicate n in omega (arith, rest)

  pub held-wake_pc : (pc : Pc) → held x (wake_pc pc) ≡ held x pc
  unfolding wake_pc
  held-wake_pc at_loop = refl
  held-wake_pc looking = refl
  held-wake_pc seen_empty = refl
  held-wake_pc falling_asleep = refl
  held-wake_pc asleep = refl
  held-wake_pc returned = refl
  held-wake_pc ended = refl
  held-wake_pc (holding y) = refl
  held-wake_pc (calling y) = refl

  pub held_all-wake_all : (ws : List Worker) → held_all x (wake_all ws) ≡ held_all x ws
  unfolding wake_all wake_worker
  held_all-wake_all [] = refl
  held_all-wake_all (w ∷ ws) =
      let here = held-wake_pc w.pc in let rest = held_all-wake_all ws in omega (arith, here, rest)

  -- A change of a worker that lets it hold what it holds.
  module _ (f : Worker → Worker) (keeps : (w : Worker) → held x (f w).pc ≡ held x w.pc) where
    pub held_all-modify : (i : ℕ) (ws : List Worker) → held_all x (modify f i ws) ≡ held_all x ws
    unfolding modify
    held_all-modify zero [] = refl
    held_all-modify (suc i) [] = refl
    held_all-modify zero (w ∷ ws) = ap (λ n. n + held_all x ws) (keeps w)
    held_all-modify (suc i) (w ∷ ws) = ap (λ n. held x w.pc + n) (held_all-modify i ws)

    pub held_all-modify_all :
        (is : List ℕ) (ws : List Worker) → held_all x (modify_all f is ws) ≡ held_all x ws
    unfolding modify_all
    held_all-modify_all [] ws = refl
    held_all-modify_all (i ∷ is) ws = held_all-modify_all is (modify f i ws) ∙ held_all-modify i ws

  -- The worker at a position replaced.
  pub held_all-replaced :
      (i : ℕ) (ws : List Worker) (w w' : Worker)
      → get_elem? ws i ≡ some w
      → held_all x (modify (λ _. w') i ws) + held x w.pc ≡ held_all x ws + held x w'.pc
  unfolding modify
  held_all-replaced i [] w w' there = absurd (cc)
  held_all-replaced zero (v ∷ ws) w w' there =
      let same : held x v.pc ≡ held x w.pc =
        ap (λ o. elim o [ none ↦ 0 | some u ↦ held x u.pc ]) there in
      omega (arith, same)
  held_all-replaced (suc i) (v ∷ ws) w w' there =
      let rest = held_all-replaced i ws w w' there in omega (arith, rest)
