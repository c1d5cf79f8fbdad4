-- ===== src/Net/Easy/Callbacks/Response.antt =====
-- A response, line by line, through the callbacks of src/net/easy.cpp.
use box_utils.Common.{
  Bytes, NoNul, zero, suc, ◌*◌, ◌≡◌, refl, sym, ap, ◌∙◌, true, false, none, some, List, [], ◌∷◌,
  ◌++◌, append-nil, append_assoc, arith, leb, ◌==◌, length, All, take_all, Run, ◌>>=◌, ok,
}
use box_utils.Headers.{colon, add_string, for_each}
use box_utils.Net.Easy.{Error}
use box_utils.Headers.Laws.{NoColon, colon-pair, lines, for_each-lines}
use box_utils.Net.Easy.Callbacks.{string_of, is_line_end, strip_end, c_text, write_to_headers}

-- A line of a response: a header, or another text (the status line, the empty line at the end).
pub data Line : Type 0 where
  header : Bytes → Bytes → Line
  other : Bytes → Line

-- Its bytes, with the line end.
abbrev pub bytes_of : Line → Bytes
bytes_of (header key value) = (key ++ b':' ∷ value) ++ 13 ∷ 10 ∷ []
bytes_of (other text) = text ++ 13 ∷ 10 ∷ []

-- A key has no colon, a value does not end in a line end, neither has a NUL; other lines have no
-- colon.
abbrev pub IsLine : Line → Type 0
IsLine (header key value) =
    NoColon key × NoNul key × NoNul value × (strip_end (b':' ∷ value) ≡ some (b':' ∷ value))
IsLine (other text) = NoColon text

abbrev pub pairs : List Line → List (Bytes × Bytes)
pairs [] = []
pairs (header key value ∷ lines) = (key, value) ∷ pairs lines
pairs (other text ∷ lines) = pairs lines

-- libcurl hands each line to `WriteToHeaders` with `size` 1.
pub receive : List Line → List Bytes → Run Error (List Bytes)
receive [] slist = ok slist
receive (line ∷ lines) slist = do
  (taken, slist) ← write_to_headers (bytes_of line) 1 (length (bytes_of line)) slist
  receive lines slist

string_of-whole : (buf : Bytes) → string_of buf (length buf) ≡ ok buf
unfolding string_of
string_of-whole buf =
    let all : leb (length buf) (length buf) ≡ true = ground arith in
    rw (all, take_all (length buf) buf (omega arith)) refl

strip_end-line : (str : Bytes) → strip_end (str ++ 13 ∷ 10 ∷ []) ≡ strip_end str
unfolding strip_end is_line_end
strip_end-line [] = refl
strip_end-line (c ∷ str) = rw (strip_end-line str) refl

strip_end-append :
    (front str : Bytes) → strip_end str ≡ some str → strip_end (front ++ str) ≡ some (front ++ str)
unfolding strip_end
strip_end-append [] str h = h
strip_end-append (c ∷ front) str h = rw (strip_end-append front str h) refl

c_text-NoNul : (str : Bytes) → NoNul str → c_text str ≡ str
unfolding c_text
c_text-NoNul [] h = refl
c_text-NoNul (zero ∷ str) (pos, h) = absurd (omega (arith, pos))
c_text-NoNul (suc c ∷ str) (pos, h) = ap (λ s. suc c ∷ s) (c_text-NoNul str h)

NoNul-append : (a b : Bytes) → NoNul a → NoNul b → NoNul (a ++ b)
NoNul-append [] b h k = k
NoNul-append (c ∷ a) b (pos, h) k = (pos, NoNul-append a b h k)

colon-none : (str : Bytes) → NoColon str → colon str ≡ none
unfolding colon
colon-none [] h = refl
colon-none (c ∷ str) (differs, h) =
    let not_colon : (c == b':') ≡ false = ground arith in
    rw (colon, not_colon, colon-none str h) refl

NoColon-append : (a b : Bytes) → NoColon a → NoColon b → NoColon (a ++ b)
NoColon-append [] b h k = k
NoColon-append (c ∷ a) b (differs, h) k = (differs, NoColon-append a b h k)

-- A header is added without its line end, another line is passed over.
write_to_headers-line :
    (line : Line) (slist : List Bytes)
    → IsLine line
    → write_to_headers (bytes_of line) 1 (length (bytes_of line)) slist
      ≡ ok (1 * length (bytes_of line), slist ++ lines (pairs (line ∷ [])))
unfolding write_to_headers add_string
write_to_headers-line (header key value) slist (no_colon, key_text, value_text, end) =
    let str = key ++ b':' ∷ value in
    let found : colon (str ++ 13 ∷ 10 ∷ []) ≡ some (length key) =
      ap colon (append_assoc key (b':' ∷ value) (13 ∷ 10 ∷ []))
      ∙ colon-pair key (value ++ 13 ∷ 10 ∷ []) no_colon in
    let stripped : strip_end (str ++ 13 ∷ 10 ∷ []) ≡ some str =
      strip_end-line str ∙ strip_end-append key (b':' ∷ value) end in
    let text : c_text str ≡ str =
      c_text-NoNul str (NoNul-append key (b':' ∷ value) key_text (omega arith, value_text)) in
    rw (string_of-whole (str ++ 13 ∷ 10 ∷ []))
      (rw (◌>>=◌, found) (rw (stripped, ◌>>=◌) (rw text refl)))
write_to_headers-line (other text) slist no_colon =
    let missing : colon (text ++ 13 ∷ 10 ∷ []) ≡ none =
      colon-none (text ++ 13 ∷ 10 ∷ [])
        (NoColon-append text (13 ∷ 10 ∷ []) no_colon (omega arith, (omega arith, tt))) in
    rw (string_of-whole (text ++ 13 ∷ 10 ∷ [])) (
      rw (◌>>=◌, missing)
        (ap (λ l. ok (1 * length (text ++ 13 ∷ 10 ∷ []), l)) (sym (append-nil slist))))

lines-cons :
    (line : Line) (response : List Line)
    → lines (pairs (line ∷ response)) ≡ lines (pairs (line ∷ [])) ++ lines (pairs response)
lines-cons (header key value) response = refl
lines-cons (other text) response = refl

receive-lines :
    (response : List Line) (slist : List Bytes)
    → All IsLine response
    → receive response slist ≡ ok (slist ++ lines (pairs response))
unfolding receive
receive-lines [] slist h = ap ok (sym (append-nil slist))
receive-lines (line ∷ response) slist (here, h) = rw (write_to_headers-line line slist here) (
    receive-lines response (slist ++ lines (pairs (line ∷ []))) h
    ∙ ap ok (
        append_assoc slist (lines (pairs (line ∷ []))) (lines (pairs response))
        ∙ ap (λ l. slist ++ l) (sym (lines-cons line response))))

pairs-NoColon :
    (response : List Line) → All IsLine response → All (λ p. NoColon p.0) (pairs response)
pairs-NoColon [] h = tt
pairs-NoColon (header key value ∷ response) ((no_colon, k, v, e), h) =
    (no_colon, pairs-NoColon response h)
pairs-NoColon (other text ∷ response) (here, h) = pairs-NoColon response h

-- The headers that are collected from a response are the pairs of its header lines in their order:
-- `for_each` comes to each key with its value, without the line end.
pub for_each-receive :
    (response : List Line)
    → All IsLine response
    → (slist : List Bytes) × (receive response [] ≡ ok slist)
      × (for_each slist ≡ ok (pairs response))
for_each-receive response h = (
  lines (pairs response),
  receive-lines response [] h,
  for_each-lines (pairs response) (pairs-NoColon response h),
)
