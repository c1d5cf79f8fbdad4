-- ===== src/RefPtr.antt =====
-- `RefPtr<T>` (include/Box/refptr.hpp): a pointer and a counter that its copies share, on an
-- explicit heap. Address 0 is the null pointer; counters and the objects they guard are two
-- kinds of cells, each with a supply of unused addresses.
mod Memory
mod World
mod Counting
mod Valid
pub mod Safety
pub mod Dangling
mod Examples
use box_utils.Common.{ℕ, ◌+◌, ◌-◌, ◌^◌, Bool, false, leb, ◌==◌, if◌then◌else◌}
use box_utils.Common.Commands.{pure, crash, fail, ◌>>=◌, ◌>>◌}
use Memory.{Heap, Error, Cmd, load, store, new_count, delete_count, delete_object}

pub record RefPtr : Type 0 where
  pub refcount : ℕ
  pub ptr : ℕ

abbrev pub null : RefPtr
null = record { refcount = 0; ptr = 0 }

-- The largest `int`.
abbrev pub int_max : ℕ
int_max = 2 ^ 31 - 1

-- `(*refcount) ++`, undefined where the `int` overflows.
pub increment : ℕ → Cmd (Unit {0})
unfolding load store
increment a = do n ← load a; if n == int_max then crash else store a (n + 1)

-- `(*refcount) --; if(*refcount <= 0){ delete ptr; delete refcount; }`
pub release : RefPtr → Cmd (Unit {0})
unfolding load store delete_object delete_count
release r = do
  n ← load r.refcount
  store r.refcount (n - 1)
  if leb n 1 then (do delete_object r.ptr; delete_count r.refcount) else pure tt

pub is_null : RefPtr → Bool
is_null r = r.ptr == 0

-- `RefPtr(T *ptr)`
pub construct : ℕ → Cmd RefPtr
unfolding new_count
construct ptr =
    if ptr == 0 then fail else do a ← new_count 1; pure (record { refcount = a; ptr = ptr })

-- `RefPtr(const RefPtr &)`
pub copy : RefPtr → Cmd RefPtr
unfolding increment
copy r = do increment r.refcount; pure r

-- `RefPtr(RefPtr &&)`: the new pointer, and what is left of the old one.
pub move : RefPtr → RefPtr × RefPtr
move r = (r, null)

-- `~RefPtr()`
pub destroy : RefPtr → Cmd (Unit {0})
unfolding release
destroy r = if r.refcount == 0 then pure tt else release r

-- `reset()`
pub reset : RefPtr → Cmd RefPtr
unfolding release is_null
reset r = if is_null r then pure r else do release r; pure null

-- `reset(T *ptr)`: a null pointer stays as it is. Its `delete ptr` names the parameter, not the
-- field.
pub reset_to : RefPtr → ℕ → Cmd RefPtr
unfolding release is_null construct
reset_to r ptr = if is_null r then pure r else do release (record r { ptr = ptr }); construct ptr

-- `operator =(const RefPtr &)`; `same` is `this == &refptr`.
pub assign : Bool → RefPtr → RefPtr → Cmd RefPtr
unfolding reset increment
assign same r other = if same then pure r else do reset r; increment other.refcount; pure other

-- `operator =(RefPtr &&)`: both pointers afterwards.
pub move_assign : Bool → RefPtr → RefPtr → Cmd (RefPtr × RefPtr)
unfolding reset
move_assign same r other = if same then pure (r, other) else do reset r; pure (other, null)

pub get_count : RefPtr → Cmd ℕ
unfolding load
get_count r = load r.refcount

pub unique : RefPtr → Cmd Bool
unfolding load
unique r = if r.refcount == 0 then pure false else do n ← load r.refcount; pure (n == 1)
