-- ===== src/Libc/Strings/Laws.antt =====
-- What the comparisons without case of src/libc/mem.c answer.
use box_utils.Common.{
  Bytes, NoNul, c_str, ℕ, zero, suc, ◌≡◌, refl, sym, ap, inl, inr, Bool, true, false, some, [], ◌∷◌,
  arith, if◌then◌else◌, Bool-cases, take, take_all, ok,
}
use box_utils.Libc.Blocks.{agree}
use box_utils.Libc.Strings.{same_char, strcasecmp_loop, strcasecmp, strncasecmp_loop, strncasecmp}

agree_nil : (eq : ℕ → ℕ → Bool) (a : Bytes) → agree eq a [] ≡ true
unfolding agree
agree_nil eq [] = refl
agree_nil eq (x ∷ a) = refl

module _ (tolower : ℕ → ℕ) where
  abbrev pub answer : Bytes → Bytes → ℕ
  answer a b = if agree (same_char tolower) a b then 0 else 1

  strcasecmp_loop-agree :
      (a b : Bytes)
      → NoNul a
      → NoNul b
      → strcasecmp_loop tolower (c_str a) (c_str b) ≡ ok (answer a b)
  unfolding strcasecmp_loop agree
  strcasecmp_loop-agree [] b ha hb = refl
  strcasecmp_loop-agree (zero ∷ a) b (h, ha) hb = absurd (omega arith)
  strcasecmp_loop-agree (suc c ∷ a) [] ha hb = refl
  strcasecmp_loop-agree (suc c ∷ a) (zero ∷ b) ha (h, hb) = absurd (omega arith)
  strcasecmp_loop-agree (suc c ∷ a) (suc d ∷ b) ha hb =
      elim (Bool-cases (same_char tolower (suc c) (suc d))) [
        | inl t ↦ rw (strcasecmp_loop, agree, t) (strcasecmp_loop-agree a b ha.1 hb.1)
        | inr f ↦ rw (strcasecmp_loop, agree, f) refl
      ]

  strncasecmp_loop-agree :
      (a b : Bytes) (n : ℕ)
      → NoNul a
      → NoNul b
      → strncasecmp_loop tolower (c_str a) (c_str b) n ≡ ok (answer (take n a) (take n b))
  unfolding strncasecmp_loop agree
  strncasecmp_loop-agree [] b n ha hb =
      ap (λ l. ok (answer l (take n b))) (sym (take_all {A = ℕ} n [] (omega arith)))
  strncasecmp_loop-agree (zero ∷ a) b n (h, ha) hb = absurd (omega arith)
  strncasecmp_loop-agree (suc c ∷ a) [] n ha hb =
      rw (take_all {A = ℕ} n [] (omega arith), agree_nil (same_char tolower) (take n (suc c ∷ a)))
        refl
  strncasecmp_loop-agree (suc c ∷ a) (zero ∷ b) n ha (h, hb) = absurd (omega arith)
  strncasecmp_loop-agree (suc c ∷ a) (suc d ∷ b) zero ha hb = refl
  strncasecmp_loop-agree (suc c ∷ a) (suc d ∷ b) (suc n) ha hb =
      elim (Bool-cases (same_char tolower (suc c) (suc d))) [
        | inl t ↦ rw (strncasecmp_loop, agree, t) (strncasecmp_loop-agree a b n ha.1 hb.1)
        | inr f ↦ rw (strncasecmp_loop, agree, f) refl
      ]

  -- On two strings without a NUL in them, `Box_strcasecmp` answers 0 exactly when they agree but
  -- for case as far as the shorter one goes, and `Box_strncasecmp` when their first `n` characters
  -- do: a string counts as equal to each of its beginnings.
  pub strcasecmp-agree :
      (a b : Bytes) (n : ℕ)
      → NoNul a
      → NoNul b
      → (strcasecmp tolower false (some (c_str a)) (some (c_str b)) ≡ ok (answer a b))
        × (strncasecmp tolower false (some (c_str a)) (some (c_str b)) n
            ≡ ok (answer (take n a) (take n b)))
  unfolding strcasecmp strncasecmp
  strcasecmp-agree a b n ha hb =
      (strcasecmp_loop-agree a b ha hb, strncasecmp_loop-agree a b n ha hb)
