-- ===== src/Common/CString.antt =====
-- Bytes and characters as numbers, C strings, and the checks of a small range by evaluation.
use Prim.Native.Nat.{ℕ, zero, suc, ◌^◌, ◌<◌}
use Prim.Native.Char.{code}
use Prim.Native.String.{String}
use mathlib.Core.Path.{◌≡◌, refl}
use mathlib.Core.Bool.{Bool, true, ◌&&◌}
use mathlib.Core.List.{List, [], ◌∷◌, ◌++◌}
use native.Mathlib.Omega.{arith}
use box_utils.Common.Lists.{length, All}
use box_utils.Common.Results.{Run, ok, undefined, ◌>>=◌}

abbrev pub Bytes : Type 0
Bytes = List ℕ

abbrev pub IsBytes : Bytes → Type 0
IsBytes = All (λ b. b < 256)

-- No byte is NUL.
abbrev pub NoNul : Bytes → Type 0
NoNul = All (λ b. 0 < b)

-- The characters of a literal.
abbrev pub codes : String → Bytes
codes String.[] = []
codes (String.◌∷◌ c s) = code c ∷ codes s

-- The range of `size_t`.
abbrev pub size_mod : ℕ
size_mod = 2 ^ 64

-- `s.c_str()`: the characters and the NUL behind them.
abbrev pub c_str : Bytes → Bytes
c_str s = s ++ 0 ∷ []

-- `strlen`: the characters before the first NUL; a read past the end where there is none.
unfoldable pub strlen {ℓ} : {E : Type ℓ} → Bytes → Run E ℕ
strlen [] = undefined
strlen (zero ∷ s) = ok 0
strlen (suc c ∷ s) = strlen s >>= λ n. ok (suc n)

pub strlen-text {ℓ} :
    {E : Type ℓ} (s r : Bytes) → NoNul s → strlen {E = E} (s ++ 0 ∷ r) ≡ ok (length s)
unfolding strlen
strlen-text [] r h = refl
strlen-text (zero ∷ s) r h = absurd (omega arith)
strlen-text {E} (suc c ∷ s) r h = rw (strlen-text {E = E} s r h.1)

-- `test` passes at every number below the bound.
unfoldable pub every : (ℕ → Bool) → ℕ → Bool
every test zero = true
every test (suc bound) = every test bound && test bound

pub every_lem :
    (test : ℕ → Bool) (bound k : ℕ) → every test bound ≡ true → k < bound → test k ≡ true
unfolding every
every_lem test zero k passed small = absurd (omega (arith, small))
every_lem test (suc bound) k passed small = ground (arith, every_lem test bound k)
