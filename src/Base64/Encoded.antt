-- ===== src/Base64/Encoded.antt =====
-- `Base64::Encode` (src/base64.cpp) computes the text `encoded`, groups of four symbols.
use box_utils.Common.{
  ℕ, ◌+◌, ◌*◌, ◌/◌, ◌%◌, ◌<◌, bit_and, bit_or, ◌≡◌, sym, ◌∙◌, ap, [], ◌∷◌, ◌++◌, append-nil,
  append_assoc, arith, length, Bytes, IsBytes, ok,
}
use box_utils.Common.Bits.{bit_or_add, bit_and_low}
use box_utils.Base64.{encode}
use box_utils.Base64.Symbols.{symbol, put-symbol}

-- The six-bit fields of a group.
abbrev pub field_one : ℕ → ℕ → ℕ
field_one b0 b1 = b0 % 4 * 16 + b1 / 16

abbrev pub field_two : ℕ → ℕ → ℕ
field_two b1 b2 = b1 % 16 * 4 + b2 / 64

-- The text that `Encode` writes when a NUL follows the input.
unfoldable pub encoded : Bytes → Bytes
encoded [] = []
encoded (b0 ∷ []) = symbol (b0 / 4) ∷ b'A' ∷ b'=' ∷ b'=' ∷ []
encoded (b0 ∷ b1 ∷ []) =
    symbol (b0 / 4) ∷ symbol (field_one b0 b1) ∷ symbol (b1 % 16 * 4) ∷ b'=' ∷ []
encoded (b0 ∷ b1 ∷ b2 ∷ s) =
    symbol (b0 / 4)
    ∷ symbol (field_one b0 b1)
    ∷ symbol (field_two b1 b2)
    ∷ symbol (b2 % 64)
    ∷ encoded s

pub one_lem : (b0 b1 : ℕ) → b1 < 256 → bit_and (bit_or (b0 * 16) (b1 / 16)) 0x3f ≡ field_one b0 b1
one_lem b0 b1 h =
    ap (λ x. bit_and x 63) (bit_or_add 4 b0 (b1 / 16) (omega arith))
    ∙ bit_and_low 6 (b0 * 16 + b1 / 16)
    ∙ omega arith

pub two_lem : (b1 b2 : ℕ) → b2 < 256 → bit_and (bit_or (b1 * 4) (b2 / 64)) 0x3f ≡ field_two b1 b2
two_lem b1 b2 h =
    ap (λ x. bit_and x 63) (bit_or_add 2 b1 (b2 / 64) (omega arith))
    ∙ bit_and_low 6 (b1 * 4 + b2 / 64)
    ∙ omega arith

pub encode-encoded :
    (s r buf : Bytes) → IsBytes s → encode (s ++ 0 ∷ r) (length s) buf ≡ ok (buf ++ encoded s)
unfolding encode encoded
encode-encoded [] r buf h = ap ok (sym (append-nil buf))
encode-encoded (b0 ∷ []) r buf h = rw (put-symbol _ (b0 / 4) (omega arith)) (simp append_assoc)
encode-encoded (b0 ∷ b1 ∷ []) r buf h =
    let one = buf ++ symbol (b0 / 4) ∷ [] in
    let two = one ++ symbol (field_one b0 b1) ∷ [] in
    rw
      (
        one_lem b0 b1 h.1.0,
        bit_and_low 4 b1,
        put-symbol buf (b0 / 4) (omega arith),
        put-symbol one (field_one b0 b1) (omega arith),
        put-symbol two (b1 % 16 * 4) (omega arith),
      )
      (simp append_assoc)
encode-encoded (b0 ∷ b1 ∷ b2 ∷ s) r buf h =
    let one = buf ++ symbol (b0 / 4) ∷ [] in
    let two = one ++ symbol (field_one b0 b1) ∷ [] in
    let three = two ++ symbol (field_two b1 b2) ∷ [] in
    let four = three ++ symbol (b2 % 64) ∷ [] in
    rw
      (
        one_lem b0 b1 h.1.0,
        two_lem b1 b2 h.1.1.0,
        bit_and_low 6 b2,
        put-symbol buf (b0 / 4) (omega arith),
        put-symbol one (field_one b0 b1) (omega arith),
        put-symbol two (field_two b1 b2) (omega arith),
        put-symbol three (b2 % 64) (omega arith),
        encode-encoded s r four h.1.1.1,
      )
      (simp append_assoc)
