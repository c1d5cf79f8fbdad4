-- ===== src/Base64/Examples.antt =====
-- Tests of src/base64.cpp, and the theorems at concrete texts.
use box_utils.Common.{
  ◌%◌, ◌≡◌, ◌≢◌, refl, [], arith, Bytes, codes, strlen, ok, throw, undefined, ◌⊎◌,
}
use box_utils.Base64.{invalid_argument, encode_string, decode, decode_string}
use box_utils.Base64.Laws.{decode_string-encode_string}
use box_utils.Base64.Failures.{decode_failures}

encode_hello : encode_string (codes "Hello!") ≡ ok (codes "SGVsbG8h")
unfolding encode_string strlen
encode_hello = refl

encode_two_over : encode_string (codes "Hello") ≡ ok (codes "SGVsbG8=")
unfolding encode_string strlen
encode_two_over = refl

-- The standard has "TQ==".
encode_one_over : encode_string (codes "M") ≡ ok (codes "TA==")
unfolding encode_string strlen
encode_one_over = refl

decode_standard : decode_string (codes "TQ==") ≡ ok (codes "M")
unfolding decode_string strlen
decode_standard = refl

decode_empty : decode_string [] ≡ undefined
unfolding decode_string strlen
decode_empty = refl

decode_stray_pad : decode_string (codes "SG=s") ≡ undefined
unfolding decode_string strlen
decode_stray_pad = refl

decode_string-encode_string_example :
    (t : Bytes) × (encode_string (codes "Hello") ≡ ok t) × (decode_string t ≡ ok (codes "Hello"))
decode_string-encode_string_example =
    decode_string-encode_string b'H' (codes "ello") (omega arith) (omega arith) (omega arith)

decode_failures_example :
    (5 % 4 ≢ 0 → decode (codes "SGVsb") 5 [] ≡ throw invalid_argument)
    × (5 % 4 ≡ 0
        → ((text : Bytes) × (decode (codes "SGVsb") 5 [] ≡ ok text))
          ⊎ (decode (codes "SGVsb") 5 [] ≡ undefined))
    × (decode (codes "SGVsb") 0 [] ≡ undefined)
decode_failures_example = decode_failures (codes "SGVsb") 5 []
