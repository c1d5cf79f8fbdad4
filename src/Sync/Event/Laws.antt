-- ===== src/Sync/Event/Laws.antt =====
-- What `Event::set` (src/sync/sem.cpp) does for the threads that wait, and the one that it misses.
use box_utils.Common.{
  ℕ, zero, suc, ◌<◌, ◌≡◌, refl, ap, true, false, List, [], ◌∷◌, length, replicate, get_or, set,
  length-set, get_or-set_self, ok,
}
use box_utils.Sync.Event.{
  Pc, outside, looked, asleep, Event, set_event, wait, sleep, wake_all, step, run,
}

abbrev pub at : Event → ℕ → Pc
at e i = get_or e.threads i outside

wake_all-looked :
    (ts : List Pc) (i : ℕ) → get_or ts i outside ≡ looked → get_or (wake_all ts) i outside ≡ looked
unfolding wake_all
wake_all-looked [] i h = h
wake_all-looked (outside ∷ ts) zero h = h
wake_all-looked (looked ∷ ts) zero h = h
wake_all-looked (asleep ∷ ts) zero h = cc
wake_all-looked (outside ∷ ts) (suc i) h = wake_all-looked ts i h
wake_all-looked (looked ∷ ts) (suc i) h = wake_all-looked ts i h
wake_all-looked (asleep ∷ ts) (suc i) h = wake_all-looked ts i h

length-wake_all : (ts : List Pc) → length (wake_all ts) ≡ length ts
unfolding wake_all
length-wake_all [] = refl
length-wake_all (outside ∷ ts) = ap suc (length-wake_all ts)
length-wake_all (looked ∷ ts) = ap suc (length-wake_all ts)
length-wake_all (asleep ∷ ts) = ap suc (length-wake_all ts)

set_again :
    (n : ℕ) (ts : List Pc)
    → run (replicate n set_event) (record { val_isset = true; threads = ts })
      ≡ ok (record { val_isset = true; threads = ts })
unfolding run step
set_again zero ts = refl
set_again (suc n) ts = set_again n ts

-- A `set` between a waiter's look at the flag and its sleep is lost: the waiter sleeps although
-- the event is set, and no number of further calls of `set` wakes it.
pub set-missed :
    (e : Event) (i n : ℕ)
    → e.val_isset ≡ false
    → i < length e.threads
    → at e i ≡ outside
    → (e' : Event) × (run (wait i ∷ set_event ∷ sleep i ∷ replicate n set_event) e ≡ ok e')
      × (e'.val_isset ≡ true)
      × (at e' i ≡ asleep)
unfolding run step
set-missed e i n h l o =
    let ts = set e.threads i looked in
    let stays : get_or (wake_all ts) i outside ≡ looked =
      wake_all-looked ts i (get_or-set_self e.threads i looked outside l) in
    let last : Event = record { val_isset = true; threads = set (wake_all ts) i asleep } in
    (
      last,
      rw (o, h, stays) (set_again n (set (wake_all ts) i asleep)),
      refl,
      get_or-set_self (wake_all ts) i asleep outside (rw (length-wake_all, length-set) l),
    )
