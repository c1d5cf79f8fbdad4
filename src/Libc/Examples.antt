-- ===== src/Libc/Examples.antt =====
-- Tests of src/libc, and the theorems at concrete inputs.
use box_utils.Common.{codes, ℕ, ◌+◌, ◌≡◌, ◌&&◌, some, [], ◌∷◌, arith, leb, if◌then◌else◌}
use box_utils.Libc.Blocks.{Error, memdup, agree}
use box_utils.Libc.Blocks
use box_utils.Libc.Blocks.Laws.{search, memmem-search}
use box_utils.Libc.AtExit.{BoxExitHandler, call_handlers, atexit_once}
use box_utils.Libc.AtExit.Laws.{register, register-only_first}

memmem-search_example :
    Blocks.memmem 6 (some (codes "xabca")) (some (codes "ca")) ≡ some (some (codes "ca"))
unfolding search agree
memmem-search_example = memmem-search 6 (codes "xabca") b'c' (codes "a") (omega arith)

-- `tolower` on the letters of ASCII.
abbrev lower : ℕ → ℕ
lower c = if leb 65 c && leb c 90 then c + 32 else c

abbrev handler : ℕ → ℕ → BoxExitHandler
handler p nice = record { fn = 7; param = p; nice = nice }

register-only_first_example :
    (call_handlers (register (handler 3 5 ∷ handler 4 9 ∷ []) []) ≡ (7, 3) ∷ [])
    × (call_handlers (atexit_once 8 2 (register (handler 3 5 ∷ handler 4 9 ∷ []) [])) ≡ (7, 3) ∷ [])
register-only_first_example = register-only_first (handler 3 5) (handler 4 9 ∷ []) 8 2 (omega arith)
