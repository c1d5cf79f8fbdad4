-- ===== src/RefData.antt =====
-- `RefData<T>` and `DataGuard<T>` (include/Box/dataguard.hpp): data of a C library with the
-- function that frees it. Shared data are a cell of an explicit heap, whose address 0 is the null
-- pointer; `deleted` records the calls of those functions, the last one first.
pub mod Sharing
mod Examples
use box_utils.Common.{
  ℕ, ◌+◌, ◌-◌, ◌^◌, Bool, true, false, Option, none, some, List, ◌∷◌, leb, ◌==◌, if◌then◌else◌, ok,
  undefined,
}
use box_utils.Common.Commands.{Command, pure, crash, fail, update, ◌>>=◌, ◌>>◌}

pub data Error : Type 0 where
  no_error : Error

-- The data and the function are numbers, 0 the null pointer.
pub record Data : Type 0 where
  pub data_of : ℕ
  pub delete_fn : ℕ
  pub refcount : ℕ

pub record Heap : Type 0 where
  pub cells : ℕ → Option Data
  pub next : ℕ
  pub deleted : List (ℕ × ℕ)

abbrev pub Cmd : Type 0 → Type 0
Cmd = Command Heap Error

-- A `RefData` is its `ptr`.
abbrev pub RefData : Type 0
RefData = ℕ

abbrev pub int_max : ℕ
int_max = 2 ^ 31 - 1

pub load : RefData → Cmd Data
load ptr h =
    if ptr == 0 then undefined else elim (h.cells ptr) [ none ↦ undefined | some d ↦ ok (d, h) ]

pub store : RefData → Option Data → Cmd (Unit {0})
store ptr d h = ok (tt, record h { cells = update h.cells ptr d })

-- `delete_fn(data)`, undefined on the null pointer.
pub call_delete : ℕ → ℕ → Cmd (Unit {0})
call_delete fn x h =
    if fn == 0 then undefined else ok (tt, record h { deleted = (fn, x) ∷ h.deleted })

-- `new Data`
pub new_data : ℕ → ℕ → Cmd RefData
new_data x fn h = ok (
  h.next,
  record h {
    cells = update h.cells h.next (some (record { data_of = x; delete_fn = fn; refcount = 1 }));
    next = h.next + 1;
  },
)

-- `RefData(T data, void (*fn)(T))`
pub construct : ℕ → ℕ → Cmd RefData
unfolding new_data
construct x fn = if fn == 0 then fail else new_data x fn

pub empty : RefData → Bool
empty ptr = ptr == 0

-- `ptr->refcount ++`, undefined where the `int` overflows.
pub increment : RefData → Cmd (Unit {0})
unfolding load store
increment ptr = do
  d ← load ptr
  if d.refcount == int_max then crash else store ptr (some (record d { refcount = d.refcount + 1 }))

-- `ptr->refcount --`, and the deletion where the counter is not above 0 any more; whether it was.
pub decrement : RefData → Cmd Bool
unfolding load store call_delete
decrement ptr = do
  d ← load ptr
  store ptr (some (record d { refcount = d.refcount - 1 }))
  if leb d.refcount 1
      then (do call_delete d.delete_fn d.data_of; store ptr none; pure true)
      else pure false

-- `RefData(const RefData &)`
pub copy : RefData → Cmd RefData
unfolding increment empty
copy ptr = if empty ptr then pure ptr else do increment ptr; pure ptr

-- `RefData(RefData &&)`: the new one, and what is left of the old one.
pub move : RefData → RefData × RefData
move ptr = (ptr, 0)

-- `~RefData()`
pub destroy : RefData → Cmd (Unit {0})
unfolding decrement empty
destroy ptr = if empty ptr then pure tt else do decrement ptr; pure tt

-- `reset()`
pub reset : RefData → Cmd RefData
unfolding decrement empty
reset ptr = if empty ptr then pure ptr else do gone ← decrement ptr; pure (if gone then 0 else ptr)

-- `reset(T new_val, void (*fn)(T))`; its `throw` has no exception to pass on.
pub reset_to : RefData → ℕ → ℕ → Cmd RefData
unfolding decrement empty load new_data
reset_to ptr new_val fn =
    if empty ptr
    then (if fn == 0 then fail else new_data new_val fn)
    else do d ← load ptr; decrement ptr; new_data new_val (if fn == 0 then d.delete_fn else fn)

-- `operator =(RefData &)`; `same` is `this == &ref`.
pub assign : Bool → RefData → RefData → Cmd RefData
unfolding reset increment empty
assign same ptr other =
    if same
    then pure ptr
    else do reset ptr; if empty other then pure other else do increment other; pure other

-- `operator =(RefData &&)`: both afterwards.
pub move_assign : Bool → RefData → RefData → Cmd (RefData × RefData)
unfolding reset
move_assign same ptr other = if same then pure (ptr, other) else do reset ptr; pure (other, 0)

pub unique : RefData → Cmd Bool
unfolding load
unique ptr = do d ← load ptr; pure (d.refcount == 1)

pub get_count : RefData → Cmd ℕ
unfolding load
get_count ptr = do d ← load ptr; pure d.refcount

pub get : RefData → Cmd ℕ
unfolding load
get ptr = do d ← load ptr; pure d.data_of

pub record DataGuard : Type 0 where
  pub guarded : ℕ
  pub scoped : Bool
  pub guard_fn : ℕ

-- `DataGuard(T dat, void (*fn)(T))`
pub guard : ℕ → ℕ → DataGuard
guard dat fn = record { guarded = dat; scoped = true; guard_fn = fn }

pub guard_release : DataGuard → DataGuard
guard_release g = record g { scoped = false }

-- `~DataGuard()`
pub guard_destroy : DataGuard → Cmd (Unit {0})
unfolding call_delete
guard_destroy g =
    if g.scoped
    then (if g.guard_fn == 0 then pure tt else call_delete g.guard_fn g.guarded)
    else pure tt
