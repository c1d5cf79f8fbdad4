-- ===== src/String.antt =====
-- `String` (src/string.cpp, include/Box/string.hpp), a text over `std::string`. A position is a
-- number and `npos` is `none`; loops recur on fuel, and `none` is where it does not do.
pub mod Trim
pub mod Replace
mod Examples
use box_utils.Common.{
  Bytes, ℕ, zero, suc, ◌+◌, ◌-◌, Bool, true, false, ◌&&◌, Option, none, some, List, [], ◌∷◌, ◌++◌,
  ltb, ◌==◌, if◌then◌else◌, length, get_elem?, take, drop, Run, ◌>>=◌, deref, ok, undefined,
}

pub data Error : Type 0 where
  no_error : Error

-- `*iter`, undefined at `end()`.
at : Bytes → ℕ → Run Error ℕ
at str i = deref (get_elem? str i)

-- The loop of `trim` on `i_begin`; the character is read before the test for `end()`.
pub begin_loop : Bytes → ℕ → Run Error ℕ
begin_loop [] i = undefined
begin_loop (x ∷ rest) i = elim (x == 32) [ true ↦ begin_loop rest (i + 1) | false ↦ ok i ]

-- The loop on `i_end`, from a position downwards.
pub end_loop : Bytes → ℕ → Run Error ℕ
unfolding at
end_loop str zero = do x ← at str 0; ok 0
end_loop str (suc i) = do
  x ← at str (suc i)
  elim (x == 32) [ true ↦ end_loop str i | false ↦ ok (suc i) ]

-- `trim`; `--end()` is undefined on the empty text.
pub trim : Bytes → Run Error Bytes
unfolding begin_loop end_loop
trim str = if length str == 0 then undefined else do
  i_begin ← begin_loop str 0
  i_end ← end_loop str (length str - 1)
  if ltb i_end i_begin then undefined else ok (take (i_end - i_begin) (drop i_begin str))

-- The text starts with `old`.
pub starts : Bytes → Bytes → Bool
starts [] str = true
starts (c ∷ old) [] = false
starts (c ∷ old) (x ∷ str) = (c == x) && starts old str

pub find_from : Bytes → Bytes → Option ℕ
unfolding starts
find_from old [] = if starts old [] then some 0 else none
find_from old (x ∷ str) = elim (starts old (x ∷ str)) [
  | true ↦ some 0
  | false ↦ elim (find_from old str) [ none ↦ none | some pos ↦ some (suc pos) ]
]

-- `str.find(old, first)`
pub find : Bytes → Bytes → ℕ → Option ℕ
unfolding find_from
find str old first =
    if ltb (length str) first
    then none
    else elim (find_from old (drop first str)) [ none ↦ none | some pos ↦ some (first + pos) ]

-- `str.replace(pos, len, ne)`, at a position in the text.
pub replace : Bytes → ℕ → ℕ → Bytes → Bytes
replace str pos len ne = take pos str ++ ne ++ drop (pos + len) str

pub replace_loop : ℕ → Bytes → Bytes → Bytes → ℕ → Option Bytes
unfolding find replace
replace_loop zero old ne str first = none
replace_loop (suc fuel) old ne str first = elim (find str old first) [
  | none ↦ some str
  | some pos ↦ replace_loop fuel old ne (replace str pos (length old) ne) (pos + length ne)
]

pub replace_all : ℕ → Bytes → Bytes → Bytes → Option Bytes
unfolding replace_loop
replace_all fuel str old ne = replace_loop fuel old ne str 0

-- `impl_split`: `substr(first, pos)` takes up to `pos` characters.
pub split_loop : ℕ → Bytes → Bytes → ℕ → Option (List Bytes)
unfolding find
split_loop zero str delim first = none
split_loop (suc fuel) str delim first = elim (find str delim first) [
  | none ↦ some []
  | some pos ↦ elim (split_loop fuel str delim (pos + length delim)) [
    | none ↦ none
    | some out ↦ some (take pos (drop first str) ∷ out)
  ]
]

pub split : ℕ → Bytes → Bytes → Option (List Bytes)
unfolding split_loop
split fuel str delim = split_loop fuel str delim 0
