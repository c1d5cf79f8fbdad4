-- ===== src/String/Trim.antt =====
-- What `String::trim` (src/string.cpp) makes of a text with spaces around it.
use box_utils.Common.{
  Bytes, ℕ, zero, suc, ◌+◌, ◌-◌, ◌≤◌, ◌<◌, ◌≡◌, refl, sym, ap, ◌∙◌, ◌≢◌, false, some, [], ◌∷◌, ◌++◌,
  append_assoc, arith, ltb, ◌==◌, length, get_elem?, take, drop, replicate, length-append,
  length-replicate, take-append_left, drop-append_left, get_elem?-append_right, ◌>>=◌, ok,
}
use box_utils.String.{at, begin_loop, end_loop, trim}

abbrev pub spaces : ℕ → Bytes
spaces n = replicate n 32

-- The text does not start with a space.
abbrev pub StartsVisible : Bytes → Type 0
StartsVisible [] = ⊥
StartsVisible (x ∷ str) = x ≢ 32

begin_loop-spaces :
    (a i : ℕ) (str : Bytes) → StartsVisible str → begin_loop (spaces a ++ str) i ≡ ok (a + i)
unfolding begin_loop
begin_loop-spaces zero i [] visible = absurd visible
begin_loop-spaces zero i (x ∷ str) visible =
    let other : (x == 32) ≡ false = ground arith in
    let same : i ≡ 0 + i = omega arith in rw (begin_loop, other) (ap ok same)
begin_loop-spaces (suc a) i str visible =
    let same : a + (i + 1) ≡ suc a + i = omega arith in
    begin_loop-spaces a (i + 1) str visible ∙ ap ok same

get_elem?-spaces : (b k : ℕ) → k < b → get_elem? (spaces b) k ≡ some 32
get_elem?-spaces zero k h = absurd (omega arith)
get_elem?-spaces (suc b) zero h = refl
get_elem?-spaces (suc b) (suc k) h = get_elem?-spaces b k (omega arith)

module _ (pre : Bytes) (x b : ℕ) (visible : x ≢ 32) where
  abbrev text : Bytes
  text = pre ++ (x ∷ spaces b)

  at-last : at text (length pre) ≡ ok x
  unfolding at
  at-last =
      let here : length pre ≡ length pre + 0 = omega arith in
      let e : get_elem? text (length pre) ≡ some x =
        ap (get_elem? text) here ∙ get_elem?-append_right pre (x ∷ spaces b) 0 in
      rw e refl

  at-behind : (k : ℕ) → k < b → at text (length pre + suc k) ≡ ok 32
  unfolding at
  at-behind k h =
      let e : get_elem? text (length pre + suc k) ≡ some 32 =
        get_elem?-append_right pre (x ∷ spaces b) (suc k) ∙ get_elem?-spaces b k h in
      rw e refl

  -- `i_end` comes down to the last character that is no space.
  end_loop-spaces : (k n : ℕ) → k ≤ b → n ≡ length pre + k → end_loop text n ≡ ok (length pre)
  unfolding end_loop
  end_loop-spaces zero zero h e =
      let none_before : length pre ≡ 0 = omega (arith, e) in
      let last : at text 0 ≡ ok x = ap (at text) (sym none_before) ∙ at-last in
      rw (end_loop, last) (ap ok (sym none_before))
  end_loop-spaces zero (suc n) h e =
      let there : suc n ≡ length pre = omega (arith, e) in
      let last : at text (suc n) ≡ ok x = ap (at text) there ∙ at-last in
      let other : (x == 32) ≡ false = ground arith in
      rw (end_loop, last) (rw (◌>>=◌, other) (ap ok there))
  end_loop-spaces (suc k) zero h e = absurd (omega (arith, e))
  end_loop-spaces (suc k) (suc n) h e =
      let space : at text (suc n) ≡ ok 32 = ap (at text) e ∙ at-behind k (omega (arith, h)) in
      rw (end_loop, space) (end_loop-spaces k n (omega (arith, h)) (omega (arith, e)))

StartsVisible-append :
    (core rest : Bytes) (x : ℕ)
    → StartsVisible (core ++ x ∷ [])
    → StartsVisible (core ++ (x ∷ rest))
StartsVisible-append [] rest x visible = visible
StartsVisible-append (y ∷ core) rest x visible = visible

-- `trim` of a text that starts and ends with a character that is no space, with spaces around it,
-- is that text without its last character.
pub trim-drops_last :
    (a b x : ℕ) (core : Bytes)
    → StartsVisible (core ++ x ∷ [])
    → x ≢ 32
    → trim (spaces a ++ (core ++ (x ∷ spaces b))) ≡ ok core
unfolding trim
trim-drops_last a b x core start visible =
    let pre = spaces a ++ core in
    let str = spaces a ++ (core ++ (x ∷ spaces b)) in
    let same : pre ++ (x ∷ spaces b) ≡ str = append_assoc (spaces a) core (x ∷ spaces b) in
    let blanks : length (spaces a) ≡ a = length-replicate {A = ℕ} a 32 in
    let behind = length-replicate {A = ℕ} b 32 in
    let ahead = length-append (spaces a) core in
    let rest = length-append core (x ∷ spaces b) in
    let size : length str ≡ length pre + suc b =
      let all = length-append (spaces a) (core ++ (x ∷ spaces b)) in
      omega (arith, ahead, rest, all, behind) in
    let first : begin_loop str 0 ≡ ok a =
      let zero_more : a + 0 ≡ a = omega arith in
      begin_loop-spaces a 0 (core ++ (x ∷ spaces b)) (StartsVisible-append core (spaces b) x start)
      ∙ ap ok zero_more in
    let last : end_loop str (length str - 1) ≡ ok (length pre) =
      ap (λ s. end_loop s (length str - 1)) (sym same)
      ∙ end_loop-spaces pre x b visible b (length str - 1) (omega arith) (omega (arith, size)) in
    let given : (length str == 0) ≡ false = ground (arith, size) in
    let order : ltb (length pre) a ≡ false = ground (arith, ahead, blanks) in
    let long : length pre - a ≡ length core = omega (arith, ahead, blanks) in
    let left : drop a str ≡ core ++ (x ∷ spaces b) =
      ap (λ n. drop n str) (sym blanks) ∙ drop-append_left (spaces a) (core ++ (x ∷ spaces b)) in
    rw (given, first)
      (rw last (
        rw order (
          ap ok (
            ap (λ n. take n (drop a str)) long
            ∙ ap (take (length core)) left
            ∙ take-append_left core (x ∷ spaces b)))))
