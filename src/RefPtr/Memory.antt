-- ===== src/RefPtr/Memory.antt =====
-- Counters and objects at addresses, and commands over them.
use box_utils.Common.{
  ℕ, ◌+◌, Bool, true, false, Option, none, some, ◌==◌, if◌then◌else◌, ok, undefined,
}
use box_utils.Common.Commands.{Command, update}

pub data Error : Type 0 where
  no_error : Error

pub record Heap : Type 0 where
  pub counts : ℕ → Option ℕ
  pub objects : ℕ → Bool
  pub next_count : ℕ
  pub next_object : ℕ

abbrev pub Cmd : Type 0 → Type 0
Cmd = Command Heap Error

-- A counter is read and written where it exists; the null pointer leads nowhere.
unfoldable pub load : ℕ → Cmd ℕ
load a h = if a == 0 then undefined else elim (h.counts a) [ none ↦ undefined | some n ↦ ok (n, h) ]

unfoldable pub store : ℕ → ℕ → Cmd (Unit {0})
store a n h = if a == 0 then undefined else elim (h.counts a) [
  | none ↦ undefined
  | some _ ↦ ok (tt, record h { counts = update h.counts a (some n) })
]

-- `new int(n)`
unfoldable pub new_count : ℕ → Cmd ℕ
new_count n h = ok (
  h.next_count,
  record h { counts = update h.counts h.next_count (some n); next_count = h.next_count + 1 },
)

-- The heap behind `new T`.
abbrev pub grown : Heap → Heap
grown h = record h {
  objects = update h.objects h.next_object true;
  next_object = h.next_object + 1;
}

-- `new T`
unfoldable pub new_object : Cmd ℕ
new_object h = ok (h.next_object, grown h)

-- `delete` of a counter or an object, undefined where there is none any more.
unfoldable pub delete_count : ℕ → Cmd (Unit {0})
delete_count a h = elim (h.counts a) [
  | none ↦ undefined
  | some _ ↦ ok (tt, record h { counts = update h.counts a none })
]

unfoldable pub delete_object : ℕ → Cmd (Unit {0})
delete_object p h =
    if h.objects p then ok (tt, record h { objects = update h.objects p false }) else undefined
