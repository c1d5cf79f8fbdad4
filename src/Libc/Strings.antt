-- ===== src/Libc/Strings.antt =====
-- Strings in src/libc/mem.c. A `const char *` is the list of the bytes from it on.
pub mod Laws
use box_utils.Common.{
  Bytes, strlen, ℕ, zero, suc, ◌+◌, ◌-◌, Bool, true, false, ◌||◌, none, some, [], ◌∷◌, ltb, leb,
  ◌==◌, if◌then◌else◌, Run, ◌>>=◌, ok, undefined,
}
use box_utils.Buffer.Memory.{Block, Allocation, malloc, memcpy}
use box_utils.Libc.Blocks.{Error, memdup}

pub strdup : Bytes → Allocation → Run Error Block
unfolding memdup strlen
strdup str alloc = do len ← strlen str; memdup str (len + 1) alloc

-- `mem = allocate(n + 1); memcpy(mem, str, n); mem[n] = 0;`
terminated : Bytes → ℕ → Allocation → Run Error Block
unfolding memcpy
terminated str n alloc = do
  mem ← memcpy (malloc (n + 1) alloc) 0 (some str) n
  memcpy mem n (some (0 ∷ [])) 1

pub strndup : Bytes → ℕ → Allocation → Run Error Block
unfolding memdup strlen terminated
strndup str n alloc = do
  len ← strlen str
  if ltb len n then memdup str (len + 1) alloc else terminated str n alloc

-- The pointers are addresses here, 0 the null pointer; `str` is what stands from `str_begin` on.
pub strdupfrom : ℕ → ℕ → Bytes → Allocation → Run Error Block
unfolding strdup terminated
strdupfrom str_begin str_end str alloc =
    if (str_begin == 0) || leb str_end str_begin
    then ok none
    else if str_end == 0
    then strdup str alloc
    else terminated str (str_end - str_begin) alloc

module _ (tolower : ℕ → ℕ) where
  unfoldable pub same_char : ℕ → ℕ → Bool
  same_char c d = (c == d) || (tolower c == tolower d)

  pub strcasecmp_loop : Bytes → Bytes → Run Error ℕ
  unfolding same_char
  strcasecmp_loop [] s2 = undefined
  strcasecmp_loop (zero ∷ s1) s2 = ok 0
  strcasecmp_loop (suc c ∷ s1) [] = undefined
  strcasecmp_loop (suc c ∷ s1) (zero ∷ s2) = ok 0
  strcasecmp_loop (suc c ∷ s1) (suc d ∷ s2) = elim (same_char (suc c) (suc d)) [
    | true ↦ strcasecmp_loop s1 s2
    | false ↦ ok 1
  ]

  -- `same` is `s1 == s2` on the pointers.
  pub strcasecmp : Bool → Block → Block → Run Error ℕ
  unfolding strcasecmp_loop
  strcasecmp same none s2 = ok 1
  strcasecmp same (some s1) none = ok 1
  strcasecmp same (some s1) (some s2) = if same then ok 0 else strcasecmp_loop s1 s2

  -- The loop reads both characters before it looks at the count.
  pub strncasecmp_loop : Bytes → Bytes → ℕ → Run Error ℕ
  unfolding same_char
  strncasecmp_loop [] s2 n = undefined
  strncasecmp_loop (zero ∷ s1) s2 n = ok 0
  strncasecmp_loop (suc c ∷ s1) [] n = undefined
  strncasecmp_loop (suc c ∷ s1) (zero ∷ s2) n = ok 0
  strncasecmp_loop (suc c ∷ s1) (suc d ∷ s2) zero = ok 0
  strncasecmp_loop (suc c ∷ s1) (suc d ∷ s2) (suc n) = elim (same_char (suc c) (suc d)) [
    | true ↦ strncasecmp_loop s1 s2 n
    | false ↦ ok 1
  ]

  pub strncasecmp : Bool → Block → Block → ℕ → Run Error ℕ
  unfolding strncasecmp_loop
  strncasecmp same none s2 n = ok 1
  strncasecmp same (some s1) none n = ok 1
  strncasecmp same (some s1) (some s2) n = if same then ok 0 else strncasecmp_loop s1 s2 n
