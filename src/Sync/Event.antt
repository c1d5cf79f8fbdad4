-- ===== src/Sync/Event.antt =====
-- `Event` (src/sync/sem.cpp).
pub mod Laws
use box_utils.Common.{
  ℕ, Bool, true, false, List, [], ◌∷◌, if◌then◌else◌, get_or, set, Run, ◌>>=◌, ok, throw,
}

-- Where a thread stands: outside, behind its look at `val_isset` but not yet asleep, or asleep in
-- `cond_var.wait`.
pub data Pc : Type 0 where
  outside looked asleep : Pc

pub record Event : Type 0 where
  pub val_isset : Bool
  pub threads : List Pc

pub data Error : Type 0 where
  not_enabled : Error

pub data Action : Type 0 where
  set_event clear : Action
  wait sleep wake : ℕ → Action

-- `cond_var.notify_all()`
pub wake_all : List Pc → List Pc
wake_all [] = []
wake_all (asleep ∷ ts) = outside ∷ wake_all ts
wake_all (p ∷ ts) = p ∷ wake_all ts

is_outside : Pc → Bool
is_outside outside = true
is_outside p = false

has_looked : Pc → Bool
has_looked looked = true
has_looked p = false

is_asleep : Pc → Bool
is_asleep asleep = true
is_asleep p = false

-- `wake` is the end of the time of `wait(ms)`, or a wake-up that no `set` made.
unfoldable pub step : Action → Event → Run Error Event
unfolding wake_all is_outside has_looked is_asleep
step set_event e =
    if e.val_isset then ok e else ok (record { val_isset = true; threads = wake_all e.threads })
step clear e = ok (record e { val_isset = false })
step (wait i) e =
    if is_outside (get_or e.threads i outside)
    then (if e.val_isset then ok e else ok (record e { threads = set e.threads i looked }))
    else throw not_enabled
step (sleep i) e =
    if has_looked (get_or e.threads i outside)
    then ok (record e { threads = set e.threads i asleep })
    else throw not_enabled
step (wake i) e =
    if is_asleep (get_or e.threads i outside)
    then ok (record e { threads = set e.threads i outside })
    else throw not_enabled

pub run : List Action → Event → Run Error Event
unfolding step
run [] e = ok e
run (a ∷ rest) e = step a e >>= run rest
