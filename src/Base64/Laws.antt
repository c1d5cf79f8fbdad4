-- ===== src/Base64/Laws.antt =====
-- What `Base64::Encode` and `Base64::Decode` (src/base64.cpp) do together, and how `Decode` fails.
use box_utils.Common.{
  ℕ, ◌*◌, ◌/◌, ◌%◌, ◌<◌, ◌≡◌, ◌≢◌, refl, sym, ◌∙◌, ap, [], ◌∷◌, ◌++◌, append_assoc, arith, length,
  Bytes, IsBytes, NoNul, strlen-text, ok,
}
use box_utils.Base64.{encode_string, decode_string}
use box_utils.Base64.Symbols.{symbol, symbol-ne-nul}
use box_utils.Base64.Encoded.{encoded, encode-encoded}
use box_utils.Base64.Decoded.{rounded, decode-encoded}

symbol-pos : (x : ℕ) → x < 64 → 0 < symbol x
symbol-pos x h = ground (arith, symbol-ne-nul x h)

encoded-NoNul : (s : Bytes) → IsBytes s → NoNul (encoded s)
unfolding encoded
encoded-NoNul [] h = tt
encoded-NoNul (b0 ∷ []) h = (symbol-pos _ (omega arith), omega arith)
encoded-NoNul (b0 ∷ b1 ∷ []) h = (
  symbol-pos _ (omega arith),
  (symbol-pos _ (omega arith), (symbol-pos _ (omega arith), omega arith)),
)
encoded-NoNul (b0 ∷ b1 ∷ b2 ∷ s) h = (
  symbol-pos _ (omega arith),
  (
    symbol-pos _ (omega arith),
    (symbol-pos _ (omega arith), (symbol-pos _ (omega arith), encoded-NoNul s h.1.1.1)),
  ),
)

encode_string-eq-encoded : (s : Bytes) → IsBytes s → NoNul s → encode_string s ≡ ok (encoded s)
unfolding encode_string
encode_string-eq-encoded s h n = rw (strlen-text s [] n) (encode-encoded s [] [] h)

-- `Encode(const std::string &)` reads up to the first NUL only: what follows it is dropped.
encode_string_stops_at_nul :
    (s r : Bytes) → IsBytes s → NoNul s → encode_string (s ++ 0 ∷ r) ≡ encode_string s
unfolding encode_string
encode_string_stops_at_nul s r h n =
    rw (append_assoc, strlen-text s (r ++ 0 ∷ []) n, strlen-text s [] n)
      (encode-encoded s (r ++ 0 ∷ []) [] h ∙ sym (encode-encoded s [] [] h))

decode_string-encoded :
    (b0 : ℕ) (s : Bytes)
    → IsBytes (b0 ∷ s)
    → decode_string (encoded (b0 ∷ s)) ≡ ok (rounded (b0 ∷ s))
unfolding decode_string
decode_string-encoded b0 s h =
    rw (strlen-text (encoded (b0 ∷ s)) [] (encoded-NoNul (b0 ∷ s) h))
      (decode-encoded b0 s (0 ∷ []) [] h)

rounded_whole : (s : Bytes) → length s % 3 ≢ 1 → rounded s ≡ s
unfolding rounded
rounded_whole [] h = refl
rounded_whole (b0 ∷ []) h = absurd (h refl)
rounded_whole (b0 ∷ b1 ∷ []) h = refl
rounded_whole (b0 ∷ b1 ∷ b2 ∷ s) h =
    ap (λ t. b0 ∷ b1 ∷ b2 ∷ t) (rounded_whole s (λ e. h (omega (arith, e))))

rounded_one_over :
    (s : Bytes) (b : ℕ) → length s % 3 ≡ 0 → rounded (s ++ b ∷ []) ≡ s ++ (b / 4 * 4) ∷ []
unfolding rounded
rounded_one_over [] b h = refl
rounded_one_over (b0 ∷ []) b h = absurd (omega arith)
rounded_one_over (b0 ∷ b1 ∷ []) b h = absurd (omega arith)
rounded_one_over (b0 ∷ b1 ∷ b2 ∷ s) b h =
    ap (λ t. b0 ∷ b1 ∷ b2 ∷ t) (rounded_one_over s b (omega arith))

-- Decoding the encoding of a text gives it back, for a text that is not empty, has no NUL and
-- has no length of the form 3 k + 1.
pub decode_string-encode_string :
    (b0 : ℕ) (s : Bytes)
    → IsBytes (b0 ∷ s)
    → NoNul (b0 ∷ s)
    → length (b0 ∷ s) % 3 ≢ 1
    → (t : Bytes) × (encode_string (b0 ∷ s) ≡ ok t) × (decode_string t ≡ ok (b0 ∷ s))
decode_string-encode_string b0 s h n k = (
  encoded (b0 ∷ s),
  encode_string-eq-encoded (b0 ∷ s) h n,
  decode_string-encoded b0 s h ∙ ap ok (rounded_whole (b0 ∷ s) k),
)

-- Where one byte is over behind the groups of three, the way there and back clears the two low
-- bits of it.
pub decode_string-encode_string_one_over :
    (s : Bytes) (b : ℕ)
    → IsBytes (s ++ b ∷ [])
    → NoNul (s ++ b ∷ [])
    → length s % 3 ≡ 0
    → (t : Bytes) × (encode_string (s ++ b ∷ []) ≡ ok t)
      × (decode_string t ≡ ok (s ++ (b / 4 * 4) ∷ []))
decode_string-encode_string_one_over [] b h n k = (
  encoded (b ∷ []),
  encode_string-eq-encoded (b ∷ []) h n,
  decode_string-encoded b [] h ∙ ap ok (rounded_one_over [] b k),
)
decode_string-encode_string_one_over (b0 ∷ s) b h n k = (
  encoded (b0 ∷ s ++ b ∷ []),
  encode_string-eq-encoded (b0 ∷ s ++ b ∷ []) h n,
  decode_string-encoded b0 (s ++ b ∷ []) h ∙ ap ok (rounded_one_over (b0 ∷ s) b k),
)
