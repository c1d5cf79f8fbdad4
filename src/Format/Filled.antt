-- ===== src/Format/Filled.antt =====
-- What src/fmt.cpp makes of a text with places to fill.
use box_utils.Common.{
  Bytes, ℕ, suc, ◌+◌, ◌≡◌, refl, ap, ◌∙◌, ◌≢◌, false, none, some, List, [], ◌∷◌, ◌++◌, append_assoc,
  arith, ◌==◌, length, take, drop, All, ok,
}
use box_utils.Format.{at_braces, find_braces, vformat_loop, vformat}

-- A text without an opening brace.
abbrev pub NoBrace : Bytes → Type 0
NoBrace = All (λ c. c ≢ b'{')

-- A text, then for each pair an argument and the text behind it.
abbrev pub template : Bytes → List (Bytes × Bytes) → Bytes
template text [] = text
template text ((arg, next) ∷ rest) = text ++ b'{' ∷ b'}' ∷ template next rest

abbrev pub filled : Bytes → List (Bytes × Bytes) → Bytes
filled text [] = text
filled text ((arg, next) ∷ rest) = text ++ (arg ++ filled next rest)

abbrev pub arguments : List (Bytes × Bytes) → List Bytes
arguments [] = []
arguments ((arg, next) ∷ rest) = arg ∷ arguments rest

at_braces-other : (c : ℕ) (fmt : Bytes) → c ≢ b'{' → at_braces c fmt ≡ false
unfolding at_braces
at_braces-other c [] differs = refl
at_braces-other c (d ∷ fmt) differs =
    let not_brace : (c == b'{') ≡ false = ground arith in rw not_brace refl

find_braces-none : (text : Bytes) → NoBrace text → find_braces text ≡ none
unfolding find_braces
find_braces-none [] h = refl
find_braces-none (c ∷ text) (differs, h) =
    rw (find_braces, at_braces-other c text differs, find_braces-none text h) refl

find_braces-text :
    (text after : Bytes)
    → NoBrace text
    → find_braces (text ++ b'{' ∷ b'}' ∷ after) ≡ some (length text)
unfolding find_braces at_braces
find_braces-text [] after h = refl
find_braces-text (c ∷ text) after (differs, h) =
    rw
      (
        find_braces,
        at_braces-other c (text ++ b'{' ∷ b'}' ∷ after) differs,
        find_braces-text text after h,
      )
      refl

take-text : (text after : Bytes) → take (length text) (text ++ after) ≡ text
take-text [] after = refl
take-text (c ∷ text) after = ap (λ t. c ∷ t) (take-text text after)

drop-text : (text after : Bytes) → drop (length text + 2) (text ++ b'{' ∷ b'}' ∷ after) ≡ after
drop-text [] after = refl
drop-text (c ∷ text) after =
    let next : suc (length text) + 2 ≡ suc (length text + 2) = omega arith in
    rw next (drop-text text after)

vformat_loop-step :
    (fuel : ℕ) (fmt arg : Bytes) (args : List Bytes) (ret : Bytes) (n : ℕ)
    → find_braces fmt ≡ some n
    → vformat_loop (suc fuel) fmt (arg ∷ args) ret
      ≡ vformat_loop fuel (drop (n + 2) fmt) args ((ret ++ take n fmt) ++ arg)
unfolding vformat_loop
vformat_loop-step fuel fmt arg args ret n found = rw (vformat_loop, found) refl

vformat_loop-filled :
    (text : Bytes) (rest : List (Bytes × Bytes)) (more : List Bytes) (ret : Bytes)
    → NoBrace text
    → All (λ p. NoBrace p.1) rest
    → vformat_loop (suc (length rest)) (template text rest) (arguments rest ++ more) ret
      ≡ ok (some (ret ++ filled text rest))
unfolding vformat_loop
vformat_loop-filled text [] more ret no_brace h =
    rw (vformat_loop, find_braces-none text no_brace) refl
vformat_loop-filled text ((arg, next) ∷ rest) more ret no_brace (next_text, h) =
    let fmt = template text ((arg, next) ∷ rest) in
    let taken : take (length text) fmt ≡ text = take-text text (b'{' ∷ b'}' ∷ template next rest) in
    let left : drop (length text + 2) fmt ≡ template next rest =
      drop-text text (template next rest) in
    vformat_loop-step (suc (length rest)) fmt arg (arguments rest ++ more) ret (length text)
      (find_braces-text text (template next rest) no_brace)
    ∙ rw (taken, left)
        (vformat_loop-filled next rest more ((ret ++ text) ++ arg) next_text h
          ∙ ap (λ l. ok (some l))
              (append_assoc (ret ++ text) arg (filled next rest)
                ∙ append_assoc ret text (arg ++ filled next rest)))

-- A text with places {} between pieces without an opening brace, an argument for each place, and
-- any more arguments: with fuel for each place and one more, each place is filled with its argument
-- in their order (which is not searched for places again), and the other arguments are passed over.
pub vformat-filled :
    (text : Bytes) (rest : List (Bytes × Bytes)) (more : List Bytes)
    → NoBrace text
    → All (λ p. NoBrace p.1) rest
    → vformat (suc (length rest)) (template text rest) (arguments rest ++ more)
      ≡ ok (some (filled text rest))
unfolding vformat
vformat-filled text rest more no_brace h = vformat_loop-filled text rest more [] no_brace h
