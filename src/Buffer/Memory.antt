-- ===== src/Buffer/Memory.antt =====
-- The memory functions of the C library that src/buffer.cpp calls.
use box_utils.Common.{
  Bytes, ℕ, zero, suc, ◌+◌, ◌≤◌, ◌≡◌, refl, sym, ap, ◌&&◌, Option, none, some, [], ◌∷◌, ◌++◌, arith,
  leb, if◌then◌else◌, length, take, Run, ok, undefined,
}

abbrev pub Block : Type 0
Block = Option Bytes

abbrev pub Allocation : Type 0
Allocation = Option (ℕ → ℕ)

-- The bytes from `i` on, `n` of them.
abbrev pub cells : (ℕ → ℕ) → ℕ → ℕ → Bytes
cells f i zero = []
cells f i (suc n) = f i ∷ cells f (suc i) n

abbrev pub malloc : ℕ → Allocation → Block
malloc size none = none
malloc size (some f) = some (cells f 0 size)

-- What stood in the old block stays, as far as both reach.
abbrev pub resized : Bytes → ℕ → (ℕ → ℕ) → ℕ → Bytes
resized old i f zero = []
resized [] i f (suc n) = f i ∷ resized [] (suc i) f n
resized (x ∷ old) i f (suc n) = x ∷ resized old (suc i) f n

abbrev pub realloc : Block → ℕ → Allocation → Block
realloc mem size none = none
realloc none size (some f) = some (cells f 0 size)
realloc (some old) size (some f) = some (resized old 0 f size)

-- Bytes written over those from `off` on.
abbrev pub overwrite : Bytes → ℕ → Bytes → Bytes
overwrite dst zero [] = dst
overwrite [] zero (x ∷ src) = []
overwrite (d ∷ dst) zero (x ∷ src) = x ∷ overwrite dst zero src
overwrite [] (suc off) src = []
overwrite (d ∷ dst) (suc off) src = d ∷ overwrite dst off src

-- `memcpy(dst + off, src, n)`; nothing happens where `n` is 0.
unfoldable pub memcpy {ℓ} : {E : Type ℓ} → Block → ℕ → Block → ℕ → Run E Block
memcpy dst off src zero = ok dst
memcpy none off src (suc n) = undefined
memcpy (some dst) off none (suc n) = undefined
memcpy (some dst) off (some src) (suc n) =
    if leb (off + suc n) (length dst) && leb (suc n) (length src)
    then ok (some (overwrite dst off (take (suc n) src)))
    else undefined

pub length-cells : (f : ℕ → ℕ) (i n : ℕ) → length (cells f i n) ≡ n
length-cells f i zero = refl
length-cells f i (suc n) = ap suc (length-cells f (suc i) n)

pub length-resized : (old : Bytes) (i : ℕ) (f : ℕ → ℕ) (n : ℕ) → length (resized old i f n) ≡ n
length-resized old i f zero = refl
length-resized [] i f (suc n) = ap suc (length-resized [] (suc i) f n)
length-resized (x ∷ old) i f (suc n) = ap suc (length-resized old (suc i) f n)

pub take-resized :
    (old : Bytes) (i : ℕ) (f : ℕ → ℕ) (n k : ℕ)
    → k ≤ n
    → k ≤ length old
    → take k (resized old i f n) ≡ take k old
take-resized old i f n zero h l = refl
take-resized [] i f n (suc k) h l = absurd (omega arith)
take-resized (x ∷ old) i f zero (suc k) h l = absurd (omega arith)
take-resized (x ∷ old) i f (suc n) (suc k) h l =
    ap (λ t. x ∷ t) (take-resized old (suc i) f n k (omega arith) (omega arith))

pub length-overwrite :
    (dst : Bytes) (off : ℕ) (src : Bytes) → length (overwrite dst off src) ≡ length dst
length-overwrite dst zero [] = refl
length-overwrite [] zero (x ∷ src) = refl
length-overwrite (d ∷ dst) zero (x ∷ src) = ap suc (length-overwrite dst zero src)
length-overwrite [] (suc off) src = refl
length-overwrite (d ∷ dst) (suc off) src = ap suc (length-overwrite dst off src)

-- Up to the end of the write there is what stood before it, and what was written.
pub take-overwrite :
    (dst : Bytes) (off : ℕ) (src : Bytes)
    → off + length src ≤ length dst
    → take (off + length src) (overwrite dst off src) ≡ take off dst ++ src
take-overwrite dst zero [] h = refl
take-overwrite [] zero (x ∷ src) h = absurd (omega arith)
take-overwrite (d ∷ dst) zero (x ∷ src) h =
    let e : 0 + suc (length src) ≡ suc (0 + length src) = omega arith in
    rw e (ap (λ t. x ∷ t) (take-overwrite dst zero src (omega arith)))
take-overwrite [] (suc off) src h = absurd (omega arith)
take-overwrite (d ∷ dst) (suc off) src h =
    let e : suc off + length src ≡ suc (off + length src) = omega arith in
    rw e (ap (λ t. d ∷ t) (take-overwrite dst off src (omega arith)))

overwrite_nothing : (dst : Bytes) (off : ℕ) → overwrite dst off [] ≡ dst
overwrite_nothing dst zero = refl
overwrite_nothing [] (suc off) = refl
overwrite_nothing (d ∷ dst) (suc off) = ap (λ t. d ∷ t) (overwrite_nothing dst off)

pub memcpy-ok {ℓ} :
    {E : Type ℓ} (dst : Bytes) (off : ℕ) (src : Bytes) (n : ℕ)
    → off + n ≤ length dst
    → n ≤ length src
    → memcpy {E = E} (some dst) off (some src) n ≡ ok (some (overwrite dst off (take n src)))
unfolding memcpy
memcpy-ok dst off src zero h l = ap (λ t. ok (some t)) (sym (overwrite_nothing dst off))
memcpy-ok dst off src (suc n) h l = ground arith
