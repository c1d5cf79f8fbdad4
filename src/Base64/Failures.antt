-- ===== src/Base64/Failures.antt =====
-- How `Base64::Decode` (src/base64.cpp) fails.
use box_utils.Common.{
  ℕ, zero, suc, ◌-◌, ◌%◌, ◌≤◌, ◌<◌, ◌≡◌, ◌≢◌, inl, inr, refl, Bool-cases, arith, get_elem?, drop,
  ltb, Bytes, throw, Quiet, Quiet-cases, undefined, ok, ◌⊎◌, deref, ◌>>=◌, deref-Quiet, bind-Quiet,
}
use box_utils.Base64.{
  Error, invalid_argument, query_table, decode_tail, decode_loop, before, decode,
}

look-Quiet : (cptr : Bytes) (i : ℕ) → Quiet (deref (get_elem? cptr i) >>= query_table)
unfolding query_table
look-Quiet cptr i = bind-Quiet _ _ (deref-Quiet Error (get_elem? cptr i)) (λ c. deref-Quiet Error _)

decode_tail-Quiet :
    (cptr : Bytes) (n : ℕ) (buf : Bytes) → n < 4 → n ≢ 1 → Quiet (decode_tail cptr n buf)
unfolding decode_tail
decode_tail-Quiet cptr zero buf h ne = tt
decode_tail-Quiet cptr (suc zero) buf h ne = absurd (ne refl)
decode_tail-Quiet cptr (suc (suc zero)) buf h ne =
    bind-Quiet _ _ (look-Quiet cptr 0) λ a0. bind-Quiet _ _ (look-Quiet cptr 1) λ a1. tt
decode_tail-Quiet cptr (suc (suc (suc zero))) buf h ne =
    bind-Quiet _ _ (look-Quiet cptr 0)
      λ a0. bind-Quiet _ _ (look-Quiet cptr 1) λ a1. bind-Quiet _ _ (look-Quiet cptr 2) λ a2. tt
decode_tail-Quiet cptr (suc (suc (suc (suc n)))) buf h ne = absurd (omega arith)

decode_loop-Quiet :
    (cptr : Bytes) (n : ℕ) (buf : Bytes) → n % 4 ≢ 1 → Quiet (decode_loop cptr n buf)
unfolding decode_loop
decode_loop-Quiet cptr zero buf ne = decode_tail-Quiet cptr 0 buf (omega arith) (omega arith)
decode_loop-Quiet cptr (suc zero) buf ne = absurd (ne refl)
decode_loop-Quiet cptr (suc (suc zero)) buf ne =
    decode_tail-Quiet cptr 2 buf (omega arith) (omega arith)
decode_loop-Quiet cptr (suc (suc (suc zero))) buf ne =
    decode_tail-Quiet cptr 3 buf (omega arith) (omega arith)
decode_loop-Quiet cptr (suc (suc (suc (suc n)))) buf ne = bind-Quiet _ _ (look-Quiet cptr 0) λ a0.
    bind-Quiet _ _ (look-Quiet cptr 1) λ a1. bind-Quiet _ _ (look-Quiet cptr 2) λ a2.
      bind-Quiet _ _ (look-Quiet cptr 3) λ a3. decode_loop-Quiet (drop 4 cptr) n _ (omega arith)

before-Quiet : (s : Bytes) (n k : ℕ) → Quiet (before s n k)
unfolding before
before-Quiet s n k = elim (Bool-cases (ltb n k)) [
  | inl e ↦ rw e tt
  | inr e ↦ rw e (deref-Quiet Error (get_elem? s (n - k)))
]

left_over : (n p q : ℕ) → p ≤ 1 → q ≤ 1 → n % 4 ≡ 0 → (n - p - q) % 4 ≢ 1
left_over n p q hp hq h = omega arith

-- `Decode` throws on every length that is no multiple of four. On the others it either answers or
-- is undefined, as it is for the empty string: it does not throw, and the `abort` in its last
-- `switch` is never reached.
pub decode_failures :
    (str : Bytes) (n : ℕ) (buf : Bytes)
    → (n % 4 ≢ 0 → decode str n buf ≡ throw invalid_argument)
      × (n % 4 ≡ 0
          → ((text : Bytes) × (decode str n buf ≡ ok text)) ⊎ (decode str n buf ≡ undefined))
      × (decode str 0 buf ≡ undefined)
unfolding decode before
decode_failures str n buf = (
  λ h. ground arith,
  λ h. rw h (
      Quiet-cases _ (
        bind-Quiet _ _ (before-Quiet str n 1) λ a.
          bind-Quiet _ _ (before-Quiet str n 2)
            λ b. decode_loop-Quiet str _ buf (left_over n _ _ (ground arith) (ground arith) h))),
  refl,
)
