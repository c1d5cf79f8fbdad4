-- ===== src/Sync/Semaphore/Laws.antt =====
-- What `Semaphore` (src/sync/sem.cpp) keeps, and what a `wait()` that slept comes to.
use box_utils.Common.{
  ℕ, zero, suc, ◌+◌, ◌-◌, ◌%◌, ◌<◌, ◌≡◌, ◌≢◌, sym, get_or-set_ne, refl, ap, ◌∙◌, Bool, true, false,
  none, List, [], ◌∷◌, arith, ◌==◌, if◌then◌else◌, length, get_or, set, length-set, set-set,
  get_or-set_self, Run, ◌>>=◌, ok, undefined,
}
use box_utils.Sync.Semaphore.{
  Pc, outside, testing, looked, asleep, counting, writing, leaving, Semaphore, Error, Action, post,
  trywait, go, uint_mod, wake_all, decrement, try_wait, step, run,
}

-- A call that does not sleep, as `true` for `post()` and `false` for `trywait()`.
abbrev pub call : Bool → Action
call true = post
call false = trywait

abbrev pub posts : List Bool → ℕ
posts [] = 0
posts (true ∷ calls) = suc (posts calls)
posts (false ∷ calls) = posts calls

-- One for a call of `trywait()` that returns true.
abbrev pub granted : Bool → Semaphore → ℕ
granted true s = 0
granted false s = if (try_wait s).0 then 1 else 0

-- The calls one after the other: how many calls of `trywait()` return true, and the semaphore.
unfoldable pub run_calls : List Bool → Semaphore → Run Error (ℕ × Semaphore)
run_calls [] s = ok (0, s)
run_calls (b ∷ calls) s = do
  s' ← step (call b) s
  r ← run_calls calls s'
  ok (granted b s + r.0, r.1)

balance :
    (calls : List Bool) (n : ℕ) (ts : List Pc)
    → n + posts calls < uint_mod
    → (g : ℕ) × (s' : Semaphore) × (run_calls calls
          (record { sem_value = n; val_mutex = none; threads = ts })
        ≡ ok (g, s'))
      × (s'.sem_value + g ≡ n + posts calls)
      × (s'.val_mutex ≡ none)
unfolding run_calls step try_wait
balance [] n ts h =
    (0, record { sem_value = n; val_mutex = none; threads = ts }, refl, omega arith, refl)
balance (true ∷ calls) zero ts h =
    let (g, s', run_on, sum, free) = balance calls 1 (wake_all ts) (omega arith) in
    (0 + g, s', rw run_on refl, omega (arith, sum), free)
balance (true ∷ calls) (suc n) ts h =
    let (g, s', run_on, sum, free) = balance calls (suc (suc n)) ts (omega arith) in
    let next : (suc n + 1) % uint_mod ≡ suc (suc n) = omega arith in
    let some_left : (suc n == 0) ≡ false = ground arith in
    (0 + g, s', rw (some_left, next, run_on) refl, omega (arith, sum), free)
balance (false ∷ calls) zero ts h =
    let (g, s', run_on, sum, free) = balance calls 0 ts h in
    (0 + g, s', rw run_on refl, omega (arith, sum), free)
balance (false ∷ calls) (suc n) ts h =
    let (g, s', run_on, sum, free) = balance calls n ts (omega arith) in
    let next : decrement (suc n) ≡ n = unfold decrement in omega arith in
    let some_left : (suc n == 0) ≡ false = ground arith in
    (1 + g, s', rw (some_left, next, run_on) refl, omega (arith, sum), free)

-- Through any sequence of `post()` and `trywait()` that does not overflow the counter, on a
-- semaphore whose mutex is free, the value and the number of calls of `trywait()` that return true
-- make up the first value and the calls of `post()`; the mutex is free again.
pub nonblocking_balance :
    (calls : List Bool) (s : Semaphore)
    → s.val_mutex ≡ none
    → s.sem_value + posts calls < uint_mod
    → (g : ℕ) × (s' : Semaphore) × (run_calls calls s ≡ ok (g, s'))
      × (s'.sem_value + g ≡ s.sem_value + posts calls)
      × (s'.val_mutex ≡ none)
nonblocking_balance calls s m h =
    let (g, s', run_on, sum, free) = balance calls s.sem_value s.threads h in
    (g, s', ap (λ o. run_calls calls (record s { val_mutex = o })) m ∙ run_on, sum, free)

wake_all-at :
    (ts : List Pc) (i : ℕ)
    → get_or ts i outside ≡ asleep
    → get_or (wake_all ts) i outside ≡ counting
unfolding wake_all
wake_all-at [] i h = cc
wake_all-at (outside ∷ ts) zero h = cc
wake_all-at (testing ∷ ts) zero h = cc
wake_all-at (looked ∷ ts) zero h = cc
wake_all-at (asleep ∷ ts) zero h = refl
wake_all-at (counting ∷ ts) zero h = cc
wake_all-at (leaving ∷ ts) zero h = cc
wake_all-at (writing n ∷ ts) zero h = cc
wake_all-at (outside ∷ ts) (suc i) h = wake_all-at ts i h
wake_all-at (testing ∷ ts) (suc i) h = wake_all-at ts i h
wake_all-at (looked ∷ ts) (suc i) h = wake_all-at ts i h
wake_all-at (asleep ∷ ts) (suc i) h = wake_all-at ts i h
wake_all-at (counting ∷ ts) (suc i) h = wake_all-at ts i h
wake_all-at (leaving ∷ ts) (suc i) h = wake_all-at ts i h
wake_all-at (writing n ∷ ts) (suc i) h = wake_all-at ts i h

length-wake_all : (ts : List Pc) → length (wake_all ts) ≡ length ts
unfolding wake_all
length-wake_all [] = refl
length-wake_all (outside ∷ ts) = ap suc (length-wake_all ts)
length-wake_all (testing ∷ ts) = ap suc (length-wake_all ts)
length-wake_all (looked ∷ ts) = ap suc (length-wake_all ts)
length-wake_all (asleep ∷ ts) = ap suc (length-wake_all ts)
length-wake_all (counting ∷ ts) = ap suc (length-wake_all ts)
length-wake_all (leaving ∷ ts) = ap suc (length-wake_all ts)
length-wake_all (writing n ∷ ts) = ap suc (length-wake_all ts)

-- A thread in front of `sem_value --` reads the value and writes it, and nobody comes between.
count_down :
    (i v : ℕ) (ts : List Pc) (rest : List Action)
    → i < length ts
    → get_or ts i outside ≡ counting
    → run (go i ∷ go i ∷ rest) (record { sem_value = v; val_mutex = none; threads = ts })
      ≡ run rest (record { sem_value = decrement v; val_mutex = none; threads = set ts i leaving })
unfolding run step
count_down i v ts rest l c = rw (c, get_or-set_self ts i (writing v) outside l, set-set) refl

woken :
    (ts : List Pc) (rest : List Action)
    → run (post ∷ rest) (record { sem_value = 0; val_mutex = none; threads = ts })
      ≡ run rest (record { sem_value = 1; val_mutex = none; threads = wake_all ts })
unfolding run step
woken ts rest = refl

-- What two woken threads leave.
abbrev behind : ℕ → ℕ → List Pc → Semaphore
behind i j ts = record {
  sem_value = uint_mod - 1;
  val_mutex = none;
  threads = set (set (wake_all ts) i leaving) j leaving;
}

both_count_down :
    (i j : ℕ) (ts : List Pc) (rest : List Action)
    → i ≢ j
    → i < length ts
    → j < length ts
    → get_or ts i outside ≡ asleep
    → get_or ts j outside ≡ asleep
    → run
        (post ∷ go i ∷ go i ∷ go j ∷ go j ∷ rest)
        (record { sem_value = 0; val_mutex = none; threads = ts })
      ≡ run rest (behind i j ts)
unfolding decrement
both_count_down i j ts rest ne l k a b =
    woken ts (go i ∷ go i ∷ go j ∷ go j ∷ rest)
    ∙ count_down i 1 (wake_all ts) (go j ∷ go j ∷ rest) (rw length-wake_all l) (wake_all-at ts i a)
    ∙ count_down j 0 (set (wake_all ts) i leaving) rest (rw (length-set, length-wake_all) k)
        (get_or-set_ne (wake_all ts) i j leaving outside ne ∙ wake_all-at ts j b)

unlocks :
    (i v : ℕ) (ts : List Pc)
    → get_or ts i outside ≡ leaving
    → run (go i ∷ []) (record { sem_value = v; val_mutex = none; threads = ts }) ≡ undefined
unfolding run step
unlocks i v ts e = rw e refl

all_done : (t : Semaphore) → run [] t ≡ ok t
unfolding run
all_done t = refl

-- Two threads sleep in `wait()` on a semaphore of value 0 whose mutex is free. One `post()` wakes
-- both; each counts down, one behind the other, and the value is then the largest `unsigned int`.
-- The first of them, which goes on to its `unlock()`, has not locked the mutex: that is undefined.
pub post-underflow :
    (s : Semaphore) (i j : ℕ)
    → s.sem_value ≡ 0
    → s.val_mutex ≡ none
    → i ≢ j
    → i < length s.threads
    → j < length s.threads
    → get_or s.threads i outside ≡ asleep
    → get_or s.threads j outside ≡ asleep
    → (s' : Semaphore) × (run (post ∷ go i ∷ go i ∷ go j ∷ go j ∷ []) s ≡ ok s')
      × (s'.sem_value ≡ uint_mod - 1)
      × (run (post ∷ go i ∷ go i ∷ go j ∷ go j ∷ go i ∷ []) s ≡ undefined)
post-underflow s i j z m ne l k a b =
    let ts = s.threads in
    let start : s ≡ record { sem_value = 0; val_mutex = none; threads = ts } =
      ap (λ v. record s { sem_value = v }) z
      ∙ ap (λ o. record s { sem_value = 0; val_mutex = o }) m in
    let last_i : get_or (set (set (wake_all ts) i leaving) j leaving) i outside ≡ leaving =
      get_or-set_ne (set (wake_all ts) i leaving) j i leaving outside (λ e. ne (sym e))
      ∙ get_or-set_self (wake_all ts) i leaving outside (rw length-wake_all l) in
    (
      behind i j ts,
      ap (run (post ∷ go i ∷ go i ∷ go j ∷ go j ∷ [])) start
          ∙ both_count_down i j ts [] ne l k a b
          ∙ all_done (behind i j ts),
      refl,
      ap (run (post ∷ go i ∷ go i ∷ go j ∷ go j ∷ go i ∷ [])) start
          ∙ both_count_down i j ts (go i ∷ []) ne l k a b
          ∙ unlocks i (uint_mod - 1) (behind i j ts).threads last_i,
    )
