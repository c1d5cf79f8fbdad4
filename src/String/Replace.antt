-- ===== src/String/Replace.antt =====
-- What `String::replace_all` (src/string.cpp) makes of a text.
use box_utils.Common.{
  Bytes, ℕ, zero, suc, ◌+◌, ◌-◌, ◌<◌, ◌≡◌, refl, sym, ap, ◌∙◌, ◌⊎◌, inl, inr, true, false, none,
  some, [], ◌∷◌, ◌++◌, append-nil, append_assoc, arith, ltb, ◌==◌, Bool-cases, length, take, drop,
  length-append, take-append_left, drop-append_left,
}
use box_utils.String.{starts, find_from, find, replace, replace_loop, replace_all}

-- From left to right, `skip` characters being passed over: where `old` starts it is replaced.
unfoldable pub replaced : Bytes → Bytes → ℕ → Bytes → Bytes
unfolding starts
replaced old ne skip [] = []
replaced old ne (suc skip) (x ∷ str) = replaced old ne skip str
replaced old ne zero (x ∷ str) = elim (starts old (x ∷ str)) [
  | true ↦ ne ++ replaced old ne (length old - 1) str
  | false ↦ x ∷ replaced old ne zero str
]

starts-append : (old str : Bytes) → starts old str ≡ true → (after : Bytes) × (str ≡ old ++ after)
unfolding starts
starts-append [] str h = (str, refl)
starts-append (c ∷ old) [] h = absurd (cc)
starts-append (c ∷ old) (x ∷ str) h =
    let both : ((c == x) ≡ true) × (starts old str ≡ true) = ground arith in
    let (after, split) = starts-append old str both.1 in
    let same : c ≡ x = ground (arith, both) in
    (after, ap (λ y. y ∷ str) (sym same) ∙ ap (λ l. c ∷ l) split)

find-append :
    (o done rest : Bytes)
    → find (done ++ rest) o (length done)
      ≡ elim (find_from o rest) [ none ↦ none | some pos ↦ some (length done + pos) ]
unfolding find
find-append o done rest =
    let sum = length-append done rest in
    let inside : ltb (length (done ++ rest)) (length done) ≡ false = ground (arith, sum) in
    rw (inside, drop-append_left done rest) refl

replace-append :
    (ne p o after : Bytes) → replace (p ++ o ++ after) (length p) (length o) ne ≡ p ++ ne ++ after
unfolding replace
replace-append ne p o after =
    let front : take (length p) (p ++ o ++ after) ≡ p =
      ap (take (length p)) (append_assoc p o after) ∙ take-append_left p (o ++ after) in
    let behind : drop (length p + length o) (p ++ o ++ after) ≡ after =
      ap (λ n. drop n (p ++ o ++ after)) (sym (length-append p o))
      ∙ drop-append_left (p ++ o) after in
    ap (λ l. l ++ ne ++ drop (length p + length o) (p ++ o ++ after)) front
    ∙ ap (λ l. p ++ ne ++ l) behind

module _ (c : ℕ) (old ne : Bytes) where
  replaced-skip :
      (w after : Bytes)
      → replaced (c ∷ old) ne (length w) (w ++ after) ≡ replaced (c ∷ old) ne 0 after
  unfolding replaced
  replaced-skip [] after = refl
  replaced-skip (x ∷ w) after = replaced-skip w after

  -- Up to the first place that is found nothing is replaced.
  find_from-replaced :
      (str : Bytes)
      → ((find_from (c ∷ old) str ≡ none) × (replaced (c ∷ old) ne 0 str ≡ str))
        ⊎ ((before : Bytes) × (after : Bytes) × (str ≡ before ++ (c ∷ old) ++ after)
            × (find_from (c ∷ old) str ≡ some (length before))
            × (replaced (c ∷ old) ne 0 str ≡ before ++ ne ++ replaced (c ∷ old) ne 0 after))
  unfolding find_from starts replaced
  find_from-replaced [] = inl (refl, refl)
  find_from-replaced (x ∷ str) = elim (Bool-cases (starts (c ∷ old) (x ∷ str))) [
    | inl t ↦
        let (after, split) = starts-append (c ∷ old) (x ∷ str) t in
        let rest : str ≡ old ++ after = ap (drop 1) split in
        let one : suc (length old) - 1 ≡ length old = omega arith in
        inr (
          [],
          after,
          split,
          rw (find_from, t) refl,
          rw (replaced, t) (rw (one, rest) (ap (λ l. ne ++ l) (replaced-skip old after))),
        )
    | inr f ↦ elim (find_from-replaced str) [
      | inl (missing, same) ↦
          inl (rw (find_from, f, missing) refl, rw (replaced, f) (ap (λ l. x ∷ l) same))
      | inr (before, after, split, found, made) ↦ inr (
        x ∷ before,
        after,
        ap (λ l. x ∷ l) split,
        rw (find_from, f, found) refl,
        rw (replaced, f) (ap (λ l. x ∷ l) made),
      )
    ]
  ]

  -- The part of the text in front of `first` is done.
  replace_loop-replaced :
      (fuel : ℕ) (done rest : Bytes)
      → length rest < fuel
      → replace_loop fuel (c ∷ old) ne (done ++ rest) (length done)
        ≡ some (done ++ replaced (c ∷ old) ne 0 rest)
  unfolding replace_loop
  replace_loop-replaced zero done rest h = absurd (omega arith)
  replace_loop-replaced (suc fuel) done rest h = elim (find_from-replaced rest) [
    | inl (missing, same) ↦
        let nowhere : find (done ++ rest) (c ∷ old) (length done) ≡ none =
          find-append (c ∷ old) done rest ∙ rw missing refl in
        rw (replace_loop, nowhere) (ap (λ l. some (done ++ l)) (sym same))
    | inr (before, after, split, found, made) ↦
        let p = done ++ before in
        let whole : done ++ rest ≡ p ++ (c ∷ old) ++ after =
          ap (λ l. done ++ l) split
          ∙ sym (append_assoc done (before ++ (c ∷ old)) after)
          ∙ ap (λ l. l ++ after) (sym (append_assoc done before (c ∷ old))) in
        let place : length done + length before ≡ length p = sym (length-append done before) in
        let there : find (done ++ rest) (c ∷ old) (length done) ≡ some (length p) =
          find-append (c ∷ old) done rest ∙ rw found (ap some place) in
        let less : length after < fuel =
          let sum = ap length split in
          let sums = length-append (before ++ (c ∷ old)) after in
          let more = length-append before (c ∷ old) in omega (arith, h, sum, sums, more) in
        rw (replace_loop, there)
          (ap (λ s. replace_loop fuel (c ∷ old) ne s (length p + length ne))
              (ap (λ s. replace s (length p) (length (c ∷ old)) ne) whole
                ∙ replace-append ne p (c ∷ old) after)
            ∙ ap (replace_loop fuel (c ∷ old) ne (p ++ ne ++ after)) (sym (length-append p ne))
            ∙ replace_loop-replaced fuel (p ++ ne) after less
            ∙ ap some (
                ap (λ l. l ++ replaced (c ∷ old) ne 0 after) (append_assoc done before ne)
                ∙ append_assoc done (before ++ ne) (replaced (c ∷ old) ne 0 after)
                ∙ ap (λ l. done ++ l) (sym made)))
  ]

find_from-empty : (str : Bytes) → find_from [] str ≡ some 0
unfolding find_from starts
find_from-empty [] = refl
find_from-empty (x ∷ str) = refl

replace_loop-endless :
    (fuel : ℕ) (ne done rest : Bytes) → replace_loop fuel [] ne (done ++ rest) (length done) ≡ none
unfolding replace_loop
replace_loop-endless zero ne done rest = refl
replace_loop-endless (suc fuel) ne done rest =
    let place : length done + 0 ≡ length done = omega arith in
    let there : find (done ++ rest) [] (length done) ≡ some (length done) =
      find-append [] done rest ∙ rw (find_from-empty rest) (ap some place) in
    rw (replace_loop, there)
      (ap (λ s. replace_loop fuel [] ne s (length done + length ne))
          (ap (λ l. replace (l ++ rest) (length done) 0 ne) (sym (append-nil done))
            ∙ replace-append ne done [] rest)
        ∙ ap (replace_loop fuel [] ne (done ++ ne ++ rest)) (sym (length-append done ne))
        ∙ replace_loop-endless fuel ne (done ++ ne) rest)

-- With fuel for each character `replace_all` of a text that is not empty ends: it gives the text
-- with that text replaced at each place from left to right, going on behind what was replaced. Of
-- the empty text it never ends, whatever the fuel.
pub replace_all-replaced :
    (fuel c : ℕ) (old ne str : Bytes)
    → length str < fuel
    → (replace_all fuel str (c ∷ old) ne ≡ some (replaced (c ∷ old) ne 0 str))
      × ((more : ℕ) → replace_all more str [] ne ≡ none)
unfolding replace_all
replace_all-replaced fuel c old ne str enough =
    (replace_loop-replaced c old ne fuel [] str enough, λ more. replace_loop-endless more ne [] str)
