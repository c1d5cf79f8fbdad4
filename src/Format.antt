-- ===== src/Format.antt =====
-- `VFormat` and `Format` (src/fmt.cpp). The arguments are the texts that `Fmt::Format` makes of its
-- own with `ToString`; `va_arg` behind the last one is undefined.
pub mod Filled
mod Examples
use box_utils.Common.{
  Bytes, ℕ, zero, suc, ◌+◌, Bool, true, false, ◌&&◌, Option, none, some, List, [], ◌∷◌, ◌++◌, ◌==◌,
  take, drop, Run, ok, undefined,
}

pub data Error : Type 0 where
  no_error : Error

-- Whether `{}` stands at the start of a text, whose first character is `c`.
pub at_braces : ℕ → Bytes → Bool
at_braces c [] = false
at_braces c (d ∷ fmt) = c == b'{' && d == b'}'

-- `strstr(fmt, "{}") - fmt`
pub find_braces : Bytes → Option ℕ
find_braces [] = none
find_braces (c ∷ fmt) = elim (at_braces c fmt) [
  | true ↦ some 0
  | false ↦ elim (find_braces fmt) [ none ↦ none | some n ↦ some (suc n) ]
]

-- The loop of `VFormat`, with `ret` so far; `ok none` where the fuel does not do.
pub vformat_loop : ℕ → Bytes → List Bytes → Bytes → Run Error (Option Bytes)
vformat_loop zero fmt args ret = ok none
vformat_loop (suc fuel) fmt args ret = elim (find_braces fmt) [
  | none ↦ ok (some (ret ++ fmt))
  | some n ↦ elim args [
    | [] ↦ undefined
    | arg ∷ args ↦ vformat_loop fuel (drop (n + 2) fmt) args ((ret ++ take n fmt) ++ arg)
  ]
]

pub vformat : ℕ → Bytes → List Bytes → Run Error (Option Bytes)
unfolding vformat_loop
vformat fuel fmt args = vformat_loop fuel fmt args []
