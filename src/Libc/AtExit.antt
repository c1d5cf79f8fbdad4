-- ===== src/Libc/AtExit.antt =====
-- The list of handlers of src/libc/atexit.c, from its head `exit_handlers` on. A function is a
-- number, 0 the null pointer.
pub mod Laws
use box_utils.Common.{ℕ, Bool, true, false, ◌&&◌, ◌||◌, List, [], ◌∷◌, leb, ◌==◌, if◌then◌else◌}

pub record BoxExitHandler : Type 0 where
  pub fn : ℕ
  pub param : ℕ
  pub nice : ℕ

-- The address of `__Box_stdc_handler`.
abbrev pub stdc_handler : ℕ
stdc_handler = 1

-- The calls that `call_handlers` makes: each function with its parameter.
pub call_handlers : List BoxExitHandler → List (ℕ × ℕ)
call_handlers [] = []
call_handlers (current ∷ next) = (current.fn, current.param) ∷ call_handlers next

-- The `while` loop behind a `prev`: `prev->next` is what it returns.
pub insert_behind : BoxExitHandler → List BoxExitHandler → List BoxExitHandler
insert_behind hd [] = []
insert_behind hd (current ∷ []) = hd ∷ current ∷ []
insert_behind hd (current ∷ next ∷ rest) = elim (leb hd.nice current.nice) [
  | true ↦ hd ∷ current ∷ next ∷ rest
  | false ↦ current ∷ insert_behind hd (next ∷ rest)
]

-- `Box_atexit_ex`. In front of the head there is no `prev`, and nothing points to the new node.
pub atexit_ex : BoxExitHandler → List BoxExitHandler → List BoxExitHandler
unfolding insert_behind
atexit_ex hd exit_handlers = if hd.fn == 0 then exit_handlers else elim exit_handlers [
  | [] ↦ hd ∷ []
  | current ∷ [] ↦ current ∷ []
  | current ∷ next ∷ rest ↦
      if leb hd.nice current.nice
      then current ∷ next ∷ rest
      else current ∷ insert_behind hd (next ∷ rest)
]

-- `Box_atexit`
pub atexit : ℕ → ℕ → List BoxExitHandler → List BoxExitHandler
unfolding atexit_ex
atexit fn nice = atexit_ex (record { fn = stdc_handler; param = fn; nice = nice })

-- The `for` loop of `Box_atexit_once`.
pub is_registered : ℕ → List BoxExitHandler → Bool
is_registered fn [] = false
is_registered fn (current ∷ next) =
    ((current.fn == stdc_handler) && (current.param == fn)) || is_registered fn next

-- `Box_atexit_once`
pub atexit_once : ℕ → ℕ → List BoxExitHandler → List BoxExitHandler
unfolding atexit is_registered
atexit_once fn nice exit_handlers =
    if is_registered fn exit_handlers then exit_handlers else atexit fn nice exit_handlers
