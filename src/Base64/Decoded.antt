-- ===== src/Base64/Decoded.antt =====
-- `Base64::Decode` (src/base64.cpp) on the text of `Encode`.
use box_utils.Common.{
  ℕ, suc, ◌+◌, ◌-◌, ◌*◌, ◌/◌, ◌%◌, ◌≤◌, ◌<◌, bit_or, ◌≡◌, refl, sym, ◌∙◌, ap, [], ◌∷◌, ◌++◌,
  append-nil, append_assoc, arith, ◌==◌, length, if◌then◌else◌, Bytes, IsBytes, ok,
}
use box_utils.Common.Bits.{bit_or_add}
use box_utils.Base64.{decode_loop, before, decode}
use box_utils.Base64.Symbols.{symbol, query-symbol, symbol-ne-pad}
use box_utils.Base64.Encoded.{encoded, field_one, field_two}

-- What decoding gives back: where one byte is over, its two low bits are gone.
unfoldable pub rounded : Bytes → Bytes
rounded [] = []
rounded (b0 ∷ []) = (b0 / 4 * 4) ∷ []
rounded (b0 ∷ b1 ∷ []) = b0 ∷ b1 ∷ []
rounded (b0 ∷ b1 ∷ b2 ∷ s) = b0 ∷ b1 ∷ b2 ∷ rounded s

-- The characters of `encoded s` before the padding, and those of the padding.
symbols : Bytes → ℕ
symbols [] = 0
symbols (b0 ∷ []) = 2
symbols (b0 ∷ b1 ∷ []) = 3
symbols (b0 ∷ b1 ∷ b2 ∷ s) = suc (suc (suc (suc (symbols s))))

pads : Bytes → ℕ
pads [] = 0
pads (b0 ∷ []) = 2
pads (b0 ∷ b1 ∷ []) = 1
pads (b0 ∷ b1 ∷ b2 ∷ s) = pads s

-- Each decoded byte, from the fields of its group.
first_lem : (b0 c : ℕ) → b0 < 256 → c < 16 → bit_or (b0 / 4 * 4) ((b0 % 4 * 16 + c) / 16) % 256 ≡ b0
first_lem b0 c h k =
    ap (λ x. x % 256) (bit_or_add 2 (b0 / 4) ((b0 % 4 * 16 + c) / 16) (omega arith)) ∙ omega arith

second_lem :
    (x b1 c : ℕ)
    → b1 < 256
    → c < 4
    → bit_or ((x * 16 + b1 / 16) * 16) ((b1 % 16 * 4 + c) / 4) % 256 ≡ b1
second_lem x b1 c h k =
    ap (λ y. y % 256) (bit_or_add 4 (x * 16 + b1 / 16) ((b1 % 16 * 4 + c) / 4) (omega arith))
    ∙ omega arith

second_of_two :
    (x b1 : ℕ) → b1 < 256 → bit_or ((x * 16 + b1 / 16) * 16) (b1 % 16 * 4 / 4) % 256 ≡ b1
second_of_two x b1 h =
    ap (λ y. y % 256) (bit_or_add 4 (x * 16 + b1 / 16) (b1 % 16 * 4 / 4) (omega arith))
    ∙ omega arith

third_lem : (x b2 : ℕ) → b2 < 256 → bit_or ((x * 4 + b2 / 64) * 64) (b2 % 64) % 256 ≡ b2
third_lem x b2 h =
    ap (λ y. y % 256) (bit_or_add 6 (x * 4 + b2 / 64) (b2 % 64) (omega arith)) ∙ omega arith

decode_loop-encoded :
    (s r buf : Bytes)
    → IsBytes s
    → decode_loop (encoded s ++ r) (symbols s) buf ≡ ok (buf ++ rounded s)
unfolding decode_loop encoded symbols rounded
decode_loop-encoded [] r buf h = ap ok (sym (append-nil buf))
decode_loop-encoded (b0 ∷ []) r buf h =
    rw (query-symbol (b0 / 4) (omega arith), bit_or_add 2 (b0 / 4) 0 (omega arith))
      (ap (λ x. ok (buf ++ x ∷ [])) (omega arith))
decode_loop-encoded (b0 ∷ b1 ∷ []) r buf h = rw (
  query-symbol (b0 / 4) (omega arith),
  query-symbol (field_one b0 b1) (omega arith),
  query-symbol (b1 % 16 * 4) (omega arith),
  first_lem b0 (b1 / 16) (omega arith) (omega arith),
  second_of_two (b0 % 4) b1 (omega arith),
)
decode_loop-encoded (b0 ∷ b1 ∷ b2 ∷ s) r buf h =
    rw
      (
        query-symbol (b0 / 4) (omega arith),
        query-symbol (field_one b0 b1) (omega arith),
        query-symbol (field_two b1 b2) (omega arith),
        query-symbol (b2 % 64) (omega arith),
        first_lem b0 (b1 / 16) (omega arith) (omega arith),
        second_lem (b0 % 4) b1 (b2 / 64) (omega arith) (omega arith),
        third_lem (b1 % 16) b2 (omega arith),
        decode_loop-encoded s r _ h.1.1.1,
      )
      (simp append_assoc)

-- The last two characters of the text, and the length of it.
record Ends (s r : Bytes) : Type 0 where
  last : ℕ
  next_to_last : ℕ
  reads_last : before (encoded s ++ r) (length (encoded s)) 1 ≡ ok last
  reads_next : before (encoded s ++ r) (length (encoded s)) 2 ≡ ok next_to_last
  padded : (if last == b'=' then 1 else 0) + (if next_to_last == b'=' then 1 else 0) ≡ pads s

length-encoded : (s : Bytes) → length (encoded s) ≡ symbols s + pads s
unfolding encoded symbols pads
length-encoded [] = refl
length-encoded (b0 ∷ []) = refl
length-encoded (b0 ∷ b1 ∷ []) = refl
length-encoded (b0 ∷ b1 ∷ b2 ∷ s) = omega (arith, length-encoded s)

pub length-encoded_mod : (s : Bytes) → length (encoded s) % 4 ≡ 0
unfolding encoded
length-encoded_mod [] = refl
length-encoded_mod (b0 ∷ []) = refl
length-encoded_mod (b0 ∷ b1 ∷ []) = refl
length-encoded_mod (b0 ∷ b1 ∷ b2 ∷ s) = omega (arith, length-encoded_mod s)

four-le-length : (b0 : ℕ) (s : Bytes) → 4 ≤ length (encoded (b0 ∷ s))
unfolding encoded
four-le-length b0 [] = omega arith
four-le-length b0 (b1 ∷ []) = omega arith
four-le-length b0 (b1 ∷ b2 ∷ s) = omega arith

-- A group in front does not change what stands before the end.
before-group :
    (c0 c1 c2 c3 : ℕ) (xs : Bytes) (n k : ℕ)
    → k ≤ n
    → before (c0 ∷ c1 ∷ c2 ∷ c3 ∷ xs) (suc (suc (suc (suc n)))) k ≡ before xs n k
unfolding before
before-group c0 c1 c2 c3 xs n k h =
    let e : suc (suc (suc (suc n))) - k ≡ suc (suc (suc (suc (n - k)))) = omega arith in
    rw e (ground arith)

encoded-Ends : (b0 : ℕ) (s r : Bytes) → IsBytes (b0 ∷ s) → Ends (b0 ∷ s) r
unfolding encoded before pads
encoded-Ends b0 [] r h = record {
  last = b'=';
  next_to_last = b'=';
  reads_last = refl;
  reads_next = refl;
  padded = refl;
}
encoded-Ends b0 (b1 ∷ []) r h = record {
  last = b'=';
  next_to_last = symbol (b1 % 16 * 4);
  reads_last = refl;
  reads_next = refl;
  padded = rw (symbol-ne-pad (b1 % 16 * 4) (omega arith));
}
encoded-Ends b0 (b1 ∷ b2 ∷ []) r h = record {
  last = symbol (b2 % 64);
  next_to_last = symbol (field_two b1 b2);
  reads_last = refl;
  reads_next = refl;
  padded =
      rw (symbol-ne-pad (b2 % 64) (omega arith), symbol-ne-pad (field_two b1 b2) (omega arith));
}
encoded-Ends b0 (b1 ∷ b2 ∷ b3 ∷ s) r h =
    let rest = encoded-Ends b3 s r h.1.1.1 in
    let big = four-le-length b3 s in
    record {
      last = rest.last;
      next_to_last = rest.next_to_last;
      reads_last = before-group _ _ _ _ (encoded (b3 ∷ s) ++ r) _ 1 (omega arith) ∙ rest.reads_last;
      reads_next = before-group _ _ _ _ (encoded (b3 ∷ s) ++ r) _ 2 (omega arith) ∙ rest.reads_next;
      padded = rest.padded;
    }

stripped :
    {s r : Bytes} (e : Ends s r)
    → length (encoded s)
        - (if e.last == b'=' then 1 else 0)
        - (if e.next_to_last == b'=' then 1 else 0)
      ≡ symbols s
stripped {s} e =
    take_away (length (encoded s)) (if e.last == b'=' then 1 else 0)
      (if e.next_to_last == b'=' then 1 else 0) (symbols s)
      (omega (arith, length-encoded s, e.padded))
  where
    take_away : (n p q m : ℕ) → n ≡ m + (p + q) → n - p - q ≡ m
    take_away n p q m e = omega arith

-- Decoding the text of a non-empty input gives the input back, rounded.
pub decode-encoded :
    (b0 : ℕ) (s r buf : Bytes)
    → IsBytes (b0 ∷ s)
    → decode (encoded (b0 ∷ s) ++ r) (length (encoded (b0 ∷ s))) buf ≡ ok (buf ++ rounded (b0 ∷ s))
unfolding decode
decode-encoded b0 s r buf h =
    let ends = encoded-Ends b0 s r h in
    rw (length-encoded_mod (b0 ∷ s), ends.reads_last, ends.reads_next)
      (ap (λ n. decode_loop (encoded (b0 ∷ s) ++ r) n buf) (stripped ends)
        ∙ decode_loop-encoded (b0 ∷ s) r buf h)
