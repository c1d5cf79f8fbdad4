-- ===== src/Base64.antt =====
-- `Base64` (src/base64.cpp). A pointer is the list of the bytes that it can read; a read behind
-- them is undefined. `buf` is the string that both directions append to.
mod Symbols
mod Encoded
mod Decoded
pub mod Laws
pub mod Failures
mod Examples
use box_utils.Common.{
  ℕ, suc, ◌-◌, ◌*◌, ◌/◌, ◌%◌, bit_and, bit_or, true, not, Option, none, some, [], ◌∷◌, ◌++◌, ◌==◌,
  ltb, if◌then◌else◌, get_elem?, drop, Bytes, codes, c_str, strlen, Run, ok, throw, undefined,
  aborted, ◌>>=◌, deref,
}

pub data Error : Type 0 where
  invalid_argument : Error

abbrev pub table : Bytes
table = codes "ABCDEFGHIJKLMNOPQRSTUVWXYZabcdefghijklmnopqrstuvwxyz0123456789+/"

-- The position of the first occurrence, as `strchr(s, c) - s` has it.
pub position : ℕ → Bytes → Option ℕ
position c [] = none
position c (x ∷ s) = elim (x == c) [
  | true ↦ some 0
  | _ ↦ elim (position c s) [ none ↦ none | some i ↦ some (suc i) ]
]

-- `strchr` finds the terminator too; where it finds nothing, the null pointer is subtracted from.
pub query_table : ℕ → Run Error ℕ
unfolding position
query_table ch = deref (position ch (c_str table))

-- `buf += table[x]`
pub put : Bytes → ℕ → Run Error Bytes
put buf x = do s ← deref (get_elem? (c_str table) x); ok (buf ++ s ∷ [])

-- The `switch` over what is left.
pub encode_tail : Bytes → ℕ → Bytes → Run Error Bytes
unfolding put
encode_tail cptr datalen buf =
    if datalen == 2
    then (do
      c0 ← deref (get_elem? cptr 0)
      c1 ← deref (get_elem? cptr 1)
      buf ← put buf (c0 / 4)
      buf ← put buf (bit_and (bit_or (c0 * 16) (c1 / 16)) 0x3f)
      buf ← put buf (bit_and c1 0x0f * 4)
      ok (buf ++ b'=' ∷ []))
    else if datalen == 1
    then (do
      c0 ← deref (get_elem? cptr 0)
      c1 ← deref (get_elem? cptr 1)
      buf ← put buf (c0 / 4)
      buf ← put buf (bit_and (c1 * 16) 0x3f)
      ok (buf ++ b'=' ∷ b'=' ∷ []))
    else ok buf

-- The `while (datalen > 2)` loop, and the `switch` behind it.
pub encode : Bytes → ℕ → Bytes → Run Error Bytes
unfolding put encode_tail
encode cptr (suc (suc (suc datalen))) buf = do
  c0 ← deref (get_elem? cptr 0)
  c1 ← deref (get_elem? cptr 1)
  c2 ← deref (get_elem? cptr 2)
  buf ← put buf (c0 / 4)
  buf ← put buf (bit_and (bit_or (c0 * 16) (c1 / 16)) 0x3f)
  buf ← put buf (bit_and (bit_or (c1 * 4) (c2 / 64)) 0x3f)
  buf ← put buf (bit_and c2 0x3f)
  encode (drop 3 cptr) datalen buf
encode cptr datalen buf = encode_tail cptr datalen buf

-- `Encode(const std::string &)`
pub encode_string : Bytes → Run Error Bytes
unfolding encode
encode_string str = do n ← strlen (c_str str); encode (c_str str) n []

pub decode_tail : Bytes → ℕ → Bytes → Run Error Bytes
unfolding query_table
decode_tail cptr datalen buf =
    if datalen == 0
    then ok buf
    else if datalen == 2
    then (do
      a0 ← deref (get_elem? cptr 0) >>= query_table
      a1 ← deref (get_elem? cptr 1) >>= query_table
      ok (buf ++ (bit_or (a0 * 4) (a1 / 16) % 256) ∷ []))
    else if datalen == 3
    then (do
      a0 ← deref (get_elem? cptr 0) >>= query_table
      a1 ← deref (get_elem? cptr 1) >>= query_table
      a2 ← deref (get_elem? cptr 2) >>= query_table
      ok (buf ++ (bit_or (a0 * 4) (a1 / 16) % 256) ∷ (bit_or (a1 * 16) (a2 / 4) % 256) ∷ []))
    else aborted

-- The `while (datalen > 3)` loop, and the `switch` behind it.
pub decode_loop : Bytes → ℕ → Bytes → Run Error Bytes
unfolding query_table decode_tail
decode_loop cptr (suc (suc (suc (suc datalen)))) buf = do
  a0 ← deref (get_elem? cptr 0) >>= query_table
  a1 ← deref (get_elem? cptr 1) >>= query_table
  a2 ← deref (get_elem? cptr 2) >>= query_table
  a3 ← deref (get_elem? cptr 3) >>= query_table
  decode_loop (drop 4 cptr) datalen (
      buf
      ++ (bit_or (a0 * 4) (a1 / 16) % 256)
        ∷ (bit_or (a1 * 16) (a2 / 4) % 256)
        ∷ (bit_or (a2 * 64) a3 % 256)
        ∷ [])
decode_loop cptr datalen buf = decode_tail cptr datalen buf

-- `data[datalen - k]`; the index is before the string where `datalen` is below `k`.
pub before : Bytes → ℕ → ℕ → Run Error ℕ
before str datalen k = if ltb datalen k then undefined else deref (get_elem? str (datalen - k))

pub decode : Bytes → ℕ → Bytes → Run Error Bytes
unfolding decode_loop before
decode str datalen buf = if not (datalen % 4 == 0) then throw invalid_argument else do
  last ← before str datalen 1
  next_to_last ← before str datalen 2
  decode_loop str
      (datalen - (if last == b'=' then 1 else 0) - (if next_to_last == b'=' then 1 else 0)) buf

-- `Decode(const std::string &)`
pub decode_string : Bytes → Run Error Bytes
unfolding decode
decode_string str = do n ← strlen (c_str str); decode (c_str str) n []
