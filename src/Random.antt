-- ===== src/Random.antt =====
-- `Random` (src/random.cpp, include/Box/random.hpp): the seed is an `unsigned int`. The bounds of
-- `randint` are `int`s that are not negative.
pub mod Bounds
mod Examples
use box_utils.Common.{ℕ, ◌+◌, ◌*◌, ◌/◌, ◌%◌, ◌^◌, ltb, leb, if◌then◌else◌, Run, ok, undefined}

-- `set_seed`, and the constructor, which is given the time.
pub set_seed : ℕ → ℕ
set_seed seed = seed % 2 ^ 32

-- The seed behind the first line of `randint`.
pub next_seed : ℕ → ℕ
next_seed seed = (seed * 1103515245 + 12345) % 2 ^ 32

pub number_of : ℕ → ℕ → ℕ
number_of seed end = ((seed / 65536) % 32768) % (end + 1)

abbrev pub int_mod : ℕ
int_mod = 2 ^ 31

-- `randint`: the number, and the seed that it leaves. `end + 1` and `number + begin` are sums of
-- `int`, undefined where they overflow.
pub randint : ℕ → ℕ → ℕ → Run (Unit {0}) (ℕ × ℕ)
unfolding next_seed number_of
randint seed begin end =
    let number = number_of (next_seed seed) end in
    if leb int_mod (end + 1)
    then undefined
    else if ltb number begin
    then (if leb int_mod (number + begin) then undefined else ok (number + begin, next_seed seed))
    else ok (number, next_seed seed)
