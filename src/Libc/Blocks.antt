-- ===== src/Libc/Blocks.antt =====
-- Blocks of memory in src/libc/mem.c. A pointer is the list of the bytes from it to the end of its
-- block.
pub mod Laws
use box_utils.Common.{
  Bytes, ℕ, zero, suc, ◌+◌, ◌-◌, ◌*◌, ◌/◌, ◌%◌, ◌^◌, Bool, true, false, ◌&&◌, Option, none, some,
  [], ◌∷◌, leb, ◌==◌, if◌then◌else◌, drop, replicate, Run, ok,
}
use box_utils.Buffer.Memory.{Block, Allocation, malloc, realloc, memcpy}

pub data Error : Type 0 where
  no_error : Error

-- `memset(mem + off, 0, n)`
memset : Block → ℕ → ℕ → Run Error Block
unfolding memcpy
memset mem off n = memcpy mem off (some (replicate n 0)) n

pub malloc0 : ℕ → Allocation → Run Error Block
unfolding memset
malloc0 n alloc = let size : ℕ = if n == 0 then 1 else n in memset (malloc size alloc) 0 size

pub realloc0 : Block → ℕ → ℕ → Allocation → Run Error Block
unfolding memset malloc0
realloc0 none old_n new_n alloc = if old_n == 0 then malloc0 new_n alloc else ok none
realloc0 (some ptr) old_n new_n alloc = elim (realloc (some ptr) new_n alloc) [
  | none ↦ ok none
  | some mem ↦ if leb new_n old_n then ok (some mem) else memset (some mem) old_n (new_n - old_n)
]

unfoldable pub memdup : Bytes → ℕ → Allocation → Run Error Block
unfolding memcpy
memdup mem size alloc = memcpy (malloc size alloc) 0 (some mem) size

-- `memchr(mem, c, n)` over a whole block.
pub memchr : ℕ → Bytes → Option Bytes
memchr c [] = none
memchr c (x ∷ mem) = elim (x == c) [ true ↦ some (x ∷ mem) | false ↦ memchr c mem ]

-- `_memncmp(mem1, n1, mem2, n2) == 0`: the bytes agree as far as both blocks go.
unfoldable pub agree : (ℕ → ℕ → Bool) → Bytes → Bytes → Bool
agree eq [] b = true
agree eq (x ∷ a) [] = true
agree eq (x ∷ a) (y ∷ b) = eq x y && agree eq a b

-- The loop of `Box_memmem`, `none` where the fuel does not do.
pub memmem_loop : ℕ → Bytes → ℕ → Bytes → Option (Option Bytes)
unfolding memchr agree
memmem_loop zero mem1 c mem2 = none
memmem_loop (suc fuel) [] c mem2 = some none
memmem_loop (suc fuel) (x ∷ mem1) c mem2 = elim (memchr c (x ∷ mem1)) [
  | none ↦ some none
  | some pos ↦ elim (agree (λ a b. a == b) pos (c ∷ mem2)) [
    | true ↦ some (some pos)
    | false ↦ memmem_loop fuel (drop 1 pos) c mem2
  ]
]

-- `Box_memmem`; the null pointer is `none`, and the blocks have their whole lengths.
pub memmem : ℕ → Block → Block → Option (Option Bytes)
unfolding memmem_loop
memmem fuel none mem2 = some none
memmem fuel (some mem1) none = some none
memmem fuel (some mem1) (some []) = some none
memmem fuel (some mem1) (some (c ∷ mem2)) = memmem_loop fuel mem1 c mem2

-- The bytes that `Box_memrand` writes where the system has none to give.
pub memrand : ℕ → ℕ → Bytes
memrand zero seed = []
memrand (suc n) seed =
    let next = (seed * 1103515245 + 12345) % 2 ^ 32 in (next / 65536 % 32768 % 256) ∷ memrand n next
