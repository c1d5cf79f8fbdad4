-- ===== src/ThreadPool/Conserved.antt =====
-- Where the tasks of a `ThreadPool` (src/threadpool.cpp) are: in the queue, at a worker, or called.
use box_utils.Common.{
  ℕ, ◌+◌, ◌-◌, ◌≡◌, refl, ap, ◌∙◌, inl, inr, false, some, List, [], ◌∷◌, arith, ltb, ◌==◌,
  if◌then◌else◌, Bool-cases, Option-cases, length, get_elem?, take, replicate, Run, ◌>>=◌, ok,
  throw, undefined, aborted,
}
use mathlib.Core.Path.{subst}
use box_utils.ThreadPool.{
  Pc, at_loop, looking, seen_empty, falling_asleep, asleep, returned, ended, holding, calling,
  Worker, Pool, Error, Action, work, wake, add_task, set_workers, stop, new_worker, worker_main,
  modify, modify_all, wake_worker, wake_all, is_asleep, any_asleep, wake_at, notify_one, add,
  stopped, released, resize, stop_all, step, run, create,
}
use box_utils.ThreadPool.Counting.{
  count, held, held_all, amount, added, count-append, held_all-append, held_all-replicate,
  held-wake_pc, held_all-wake_all, held_all-modify, held_all-modify_all, held_all-replaced,
}

-- What holds of the result where there is one.
abbrev After : {A : Type 0} → (A → Type 0) → Run Error A → Type 0
After P (ok a) = P a
After P (throw e) = Unit
After P undefined = Unit
After P aborted = Unit

bind-After :
    {A B : Type 0} (P : A → Type 0) (Q : B → Type 0) (m : Run Error A) (k : A → Run Error B)
    → After P m
    → ((a : A) → P a → After Q (k a))
    → After Q (m >>= k)
bind-After P Q (ok a) k before rest = rest a before
bind-After P Q (throw e) k before rest = tt
bind-After P Q undefined k before rest = tt
bind-After P Q aborted k before rest = tt

After-imp :
    {A : Type 0} (P Q : A → Type 0) (m : Run Error A)
    → ((a : A) → P a → Q a)
    → After P m
    → After Q m
After-imp P Q (ok a) weaker holds = weaker a holds
After-imp P Q (throw e) weaker holds = tt
After-imp P Q undefined weaker holds = tt
After-imp P Q aborted weaker holds = tt

module _ (x : ℕ) where
  -- A part of `worker_main` moves a task on, and leaves the threads to the caller.
  abbrev Moves : Worker → Pool → Worker × Pool → Type 0
  Moves w p (w', p') =
      (count x p'.called + (held x w'.pc + count x p'.tasks)
        ≡ count x p.called + (held x w.pc + count x p.tasks))
      × (p'.threads ≡ p.threads)

  taken :
      (w : Worker) (p : Pool) (tasks : List ℕ)
      → p.tasks ≡ tasks
      → held x w.pc ≡ 0
      → After (Moves w p) (worker_main looking w p)
  unfolding worker_main
  taken w p [] queue free = rw queue (omega (arith, free), refl)
  taken w p (t ∷ ts) queue free = rw queue (omega (arith, free), refl)

  worker_main-Moves :
      (pc : Pc) (w : Worker) (p : Pool) → w.pc ≡ pc → After (Moves w p) (worker_main pc w p)
  unfolding worker_main
  worker_main-Moves at_loop w p here =
      let free = ap (held x) here in
      elim (Bool-cases w.running) [
        | inl r ↦ rw r (omega (arith, free), refl)
        | inr r ↦ rw r (omega (arith, free), refl)
      ]
  worker_main-Moves looking w p here = taken w p p.tasks refl (ap (held x) here)
  worker_main-Moves seen_empty w p here = let was = ap (held x) here in (omega (arith, was), refl)
  worker_main-Moves falling_asleep w p here =
      let was = ap (held x) here in (omega (arith, was), refl)
  worker_main-Moves asleep w p here = tt
  worker_main-Moves returned w p here = let was = ap (held x) here in (omega (arith, was), refl)
  worker_main-Moves ended w p here = tt
  worker_main-Moves (holding y) w p here = let was = ap (held x) here in (omega (arith, was), refl)
  worker_main-Moves (calling y) w p here = let was = ap (held x) here in (omega (arith, was), refl)

  -- What a step leaves of the amount, and adds to it.
  abbrev Adds : ℕ → Pool → Pool → Type 0
  Adds n p p' = amount x p' ≡ amount x p + n

  work-Adds : (i : ℕ) (p : Pool) → After (Adds 0 p) (step (work i) p)
  unfolding step
  work-Adds i p = elim (Option-cases (get_elem? p.threads i)) [
    | inl nobody ↦ rw nobody tt
    | inr (w, there) ↦ rw there (
        bind-After (Moves w p) (Adds 0 p) (worker_main w.pc w p)
          (λ r. ok (record r.1 { threads = modify (λ _. r.0) i r.1.threads }))
          (worker_main-Moves w.pc w p refl)
          (λ r moved.
            let there' : get_elem? r.1.threads i ≡ some w =
              ap (λ t. get_elem? t i) moved.1 ∙ there in
            let replaced = held_all-replaced x i r.1.threads w r.0 there' in
            let same = ap (held_all x) moved.1 in
            let balance = moved.0 in omega (arith, balance, replaced, same)))
  ]

  wake_at-Adds : (i : ℕ) (p : Pool) → After (Adds 0 p) (wake_at i p)
  unfolding wake_at wake_worker
  wake_at-Adds i p = elim (Option-cases (get_elem? p.threads i)) [
    | inl nobody ↦ rw nobody tt
    | inr (w, there) ↦ elim (Bool-cases (is_asleep w.pc)) [
      | inl s ↦
          rw (there, s)
            (let same = held_all-modify x wake_worker (λ w. held-wake_pc x w.pc) i p.threads in
              omega (arith, same))
      | inr s ↦ rw (there, s) tt
    ]
  ]

  notify_one-Adds : (i : ℕ) (p : Pool) → After (Adds 0 p) (notify_one i p)
  unfolding notify_one
  notify_one-Adds i p = elim (Bool-cases (any_asleep p.threads)) [
    | inl a ↦ rw a (wake_at-Adds i p)
    | inr a ↦ rw a (omega arith)
  ]

  add-Adds :
      (y i : ℕ) (p : Pool) (tasks : List ℕ)
      → p.tasks ≡ tasks
      → After (Adds (if y == x then 1 else 0) p) (add y i p)
  unfolding add
  add-Adds y i p [] queue =
      let p0 = record p { tasks = y ∷ [] } in
      rw queue (
        bind-After (Adds 0 p0) (Adds (if y == x then 1 else 0) (record p { tasks = [] }))
          (notify_one i p0) (λ p. ok (record p { empty_event = false })) (notify_one-Adds i p0)
          (λ p' same. omega (arith, same)))
  add-Adds y i p (t ∷ ts) queue =
      let more = count-append x ts (y ∷ []) in rw queue (omega (arith, more))

  wake_all-Adds :
      (f : Worker → Worker) (is : List ℕ) (p : Pool)
      → ((w : Worker) → held x (f w).pc ≡ held x w.pc)
      → held_all x (wake_all (modify_all f is p.threads)) ≡ held_all x p.threads
  wake_all-Adds f is p keeps =
      held_all-wake_all x (modify_all f is p.threads) ∙ held_all-modify_all x f keeps is p.threads

  resize-Adds : (wks : ℕ) (p : Pool) → Adds 0 p (resize wks p)
  unfolding resize released
  resize-Adds wks p =
      let size = length p.workers in
      elim (Bool-cases (wks == size)) [
        | inl e ↦ rw e (omega arith)
        | inr e ↦ elim (Bool-cases (ltb wks size)) [
          | inl l ↦
              rw (e, l)
                (let same = wake_all-Adds released (take (size - wks) p.workers) p (λ _. refl) in
                  omega (arith, same))
          | inr l ↦
              rw (e, l)
                (let more = held_all-append x p.threads (replicate (wks - size) new_worker) in
                  let none_held = held_all-replicate x (wks - size) in
                  omega (arith, more, none_held))
        ]
      ]

  step-Adds : (a : Action) (p : Pool) → After (Adds (added x (a ∷ [])) p) (step a p)
  unfolding step stop_all stopped
  step-Adds (work i) p = work-Adds i p
  step-Adds (wake i) p = wake_at-Adds i p
  step-Adds (add_task y i) p =
      After-imp (Adds (if y == x then 1 else 0) p) (Adds (added x (add_task y i ∷ [])) p)
        (add y i p) (λ p' sum. omega (arith, sum)) (add-Adds y i p p.tasks refl)
  step-Adds (set_workers wks) p = resize-Adds wks p
  step-Adds stop p = let same = wake_all-Adds stopped p.workers p (λ _. refl) in omega (arith, same)

  added-cons :
      (a : Action) (rest : List Action) → added x (a ∷ rest) ≡ added x (a ∷ []) + added x rest
  added-cons (work i) rest = omega arith
  added-cons (wake i) rest = omega arith
  added-cons (add_task y i) rest = omega arith
  added-cons (set_workers wks) rest = omega arith
  added-cons stop rest = omega arith

  run-Adds : (actions : List Action) (p : Pool) → After (Adds (added x actions) p) (run actions p)
  unfolding run
  run-Adds [] p = omega arith
  run-Adds (a ∷ rest) p =
      bind-After (Adds (added x (a ∷ [])) p) (Adds (added x (a ∷ rest)) p) (step a p) (run rest)
        (step-Adds a p)
        (λ p' first.
          After-imp (Adds (added x rest) p') (Adds (added x (a ∷ rest)) p) (run rest p')
            (λ p'' second. let split = added-cons a rest in omega (arith, first, second, split))
            (run-Adds rest p'))

-- However a fresh pool and its callers interleave, and whatever workers are added, given up or
-- stopped: the calls of a task, the workers that have taken it and not called it, and its places in
-- the queue are together as many as the calls of `add_task` with it.
pub run-conserves :
    (x wks : ℕ) (actions : List Action) (p : Pool)
    → run actions (create wks) ≡ ok p
    → count x p.called + (held_all x p.threads + count x p.tasks) ≡ added x actions
unfolding create
run-conserves x wks actions p ran =
    let start : Pool = record {
      tasks = [];
      empty_event = false;
      workers = [];
      threads = [];
      called = [];
    } in
    let fresh = resize-Adds x wks start in
    let sum : amount x p ≡ amount x (create wks) + added x actions =
      subst (After (λ p. amount x p ≡ amount x (create wks) + added x actions)) ran
        (run-Adds x actions (create wks)) in
    omega (arith, fresh, sum)
