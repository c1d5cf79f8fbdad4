-- ===== src/Net/Easy/Callbacks.antt =====
-- The callbacks of `Easy` (src/net/easy.cpp) that libcurl hands blocks of bytes to. What they
-- answer is how many bytes they took.
pub mod Response
use box_utils.Common.{
  Bytes, ℕ, zero, suc, ◌*◌, Bool, ◌||◌, Option, none, some, List, [], ◌∷◌, ◌++◌, leb, ◌==◌,
  if◌then◌else◌, length, take, Run, ◌>>=◌, deref, ok, undefined,
}
use box_utils.Net.Easy.{Error}
use box_utils.Headers.{colon, add_string}

-- `std::string(buf, n)`
pub string_of : Bytes → ℕ → Run Error Bytes
string_of buf n = if leb n (length buf) then ok (take n buf) else undefined

unfoldable pub is_line_end : ℕ → Bool
is_line_end c = c == 13 || c == 10

-- The loop that takes `\r` and `\n` from the end, `none` where nothing is left to look at.
unfoldable pub strip_end : Bytes → Option Bytes
unfolding is_line_end
strip_end [] = none
strip_end (c ∷ str) = elim (strip_end str) [
  | none ↦ if is_line_end c then none else some (c ∷ [])
  | some rest ↦ some (c ∷ rest)
]

-- `str.c_str()` as a C string reads it: up to the first NUL.
pub c_text : Bytes → Bytes
c_text [] = []
c_text (zero ∷ str) = []
c_text (suc c ∷ str) = suc c ∷ c_text str

-- `WriteToHeaders`
pub write_to_headers : Bytes → ℕ → ℕ → List Bytes → Run Error (ℕ × List Bytes)
unfolding string_of strip_end c_text
write_to_headers buf size block slist = do
  strbuf ← string_of buf block
  elim (colon strbuf) [
    | none ↦ ok (size * block, slist)
    | some n ↦ do line ← deref (strip_end strbuf); ok (size * block, add_string (c_text line) slist)
  ]

-- `WriteToString`
pub write_to_string : Bytes → ℕ → ℕ → Bytes → Run Error (ℕ × Bytes)
unfolding string_of
write_to_string buf size block str = do
  piece ← string_of buf (size * block)
  ok (size * block, str ++ piece)

-- The callback of `set_ostream(std::ostream &)`; `bad` is the state of the stream behind the write.
pub write_to_stream : Bytes → ℕ → ℕ → Bool → Bytes → Run Error (ℕ × Bytes)
unfolding string_of
write_to_stream buf num blk bad out = do
  piece ← string_of buf (blk * num)
  ok (if bad then 0 else blk * num, out ++ piece)
