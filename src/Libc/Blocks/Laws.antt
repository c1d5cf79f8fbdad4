-- ===== src/Libc/Blocks/Laws.antt =====
-- What `Box_memmem` and `Box_realloc0` (src/libc/mem.c) give.
use box_utils.Common.{
  Bytes, ℕ, zero, suc, ◌<◌, ◌≡◌, refl, sym, ap, ◌∙◌, ◌⊎◌, inl, inr, Option, none, some, [], ◌∷◌,
  arith, ◌==◌, if◌then◌else◌, Bool-cases, length,
}
use box_utils.Libc.Blocks.{agree, memchr, memmem_loop, memmem}

-- The first place from which on the block and `needle` agree as far as both go.
unfoldable pub search : Bytes → Bytes → Option Bytes
search [] needle = none
search (x ∷ mem) needle =
    if agree (λ a b. a == b) (x ∷ mem) needle then some (x ∷ mem) else search mem needle

-- `memchr` skips only places where nothing is found.
memchr-search :
    (c : ℕ) (needle mem : Bytes)
    → ((memchr c mem ≡ none) × (search mem (c ∷ needle) ≡ none))
      ⊎ ((rest : Bytes) × (memchr c mem ≡ some (c ∷ rest))
          × (search mem (c ∷ needle) ≡ search (c ∷ rest) (c ∷ needle))
          × (length rest < length mem))
unfolding memchr search agree
memchr-search c needle [] = inl (refl, refl)
memchr-search c needle (x ∷ mem) = elim (Bool-cases (x == c)) [
  | inl t ↦
      let same : x ≡ c = ground arith in
      inr (
        mem,
        rw (memchr, t) (ap (λ y. some (y ∷ mem)) same),
        ap (λ y. search (y ∷ mem) (c ∷ needle)) same,
        omega arith,
      )
  | inr f ↦ elim (memchr-search c needle mem) [
    | inl (missing, nowhere) ↦ inl (rw (memchr, f) missing, rw (search, agree, f) nowhere)
    | inr (rest, there, same, shorter) ↦
        inr (rest, rw (memchr, f) there, rw (search, agree, f) same, omega (arith, shorter))
  ]
]

-- With fuel for each byte of the block, `Box_memmem` is the search from one place to the next:
-- it ends, and answers the first place where block and needle agree as far as both go.
pub memmem-search :
    (fuel : ℕ) (mem1 : Bytes) (c : ℕ) (mem2 : Bytes)
    → length mem1 < fuel
    → memmem fuel (some mem1) (some (c ∷ mem2)) ≡ some (search mem1 (c ∷ mem2))
unfolding memmem memmem_loop search
memmem-search zero mem1 c mem2 h = absurd (omega arith)
memmem-search (suc fuel) [] c mem2 h = refl
memmem-search (suc fuel) (x ∷ mem1) c mem2 h = elim (memchr-search c mem2 (x ∷ mem1)) [
  | inl (missing, nowhere) ↦ rw (memmem_loop, missing) (ap some (sym nowhere))
  | inr (rest, there, same, shorter) ↦
      elim (Bool-cases (agree (λ a b. a == b) (c ∷ rest) (c ∷ mem2))) [
        | inl t ↦
            let found : search (c ∷ rest) (c ∷ mem2) ≡ some (c ∷ rest) = rw (search, t) refl in
            rw (memmem_loop, there, t) (ap some (sym (same ∙ found)))
        | inr f ↦
            let missed : search (c ∷ rest) (c ∷ mem2) ≡ search rest (c ∷ mem2) =
              rw (search, f) refl in
            rw (memmem_loop, there, f)
              (memmem-search fuel rest c mem2 (omega (arith, h, shorter))
                ∙ ap some (sym (same ∙ missed)))
      ]
]
