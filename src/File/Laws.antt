-- ===== src/File/Laws.antt =====
-- Closing streams and reading lines (src/filesystem.cpp).
use box_utils.Common.{
  Bytes, ℕ, zero, suc, ◌≡◌, refl, ◌≢◌, true, false, Option, none, some, [], ◌∷◌, ◌++◌, arith, ◌==◌,
  if◌then◌else◌, ok, undefined,
}
use box_utils.File.{
  Stream, Streams, File, on_stream, fclose, fgetc, destroy, close, detach, is_eof, is_newline,
  goes_on, readline_loop, readline,
}

goes_on_always : (ch : Option ℕ) → goes_on ch ≡ true
unfolding goes_on is_eof is_newline
goes_on_always none = refl
goes_on_always (some ch) = refl

-- A character, or the end, is read from a stream that stays open.
fgetc-opened :
    (fptr : ℕ) (s : Streams) (t : Stream)
    → fptr ≢ 0
    → s.opened fptr ≡ some t
    → (ch : Option ℕ) × (s' : Streams) × (t' : Stream) × (fgetc fptr s ≡ ok (ch, s'))
      × (s'.opened fptr ≡ some t')
unfolding fgetc on_stream
fgetc-opened fptr s t given here =
    let set : (fptr == 0) ≡ false = ground arith in
    let same : (fptr == fptr) ≡ true = ground arith in
    let r : Option ℕ × Stream = elim t.unread [
      | [] ↦ (none, record t { at_end = true })
      | ch ∷ rest ↦ (some ch, record t { unread = rest })
    ] in
    (
      r.0,
      record { opened = λ p. if p == fptr then some r.1 else s.opened p },
      r.1,
      rw (set, here) refl,
      rw same refl,
    )

readline_loop-endless :
    (fuel fptr : ℕ) (ch : Option ℕ) (str : Bytes) (s : Streams) (t : Stream)
    → fptr ≢ 0
    → s.opened fptr ≡ some t
    → (s' : Streams) × (readline_loop fuel fptr ch str s ≡ ok (none, s'))
unfolding readline_loop
readline_loop-endless zero fptr ch str s t given here = (s, refl)
readline_loop-endless (suc fuel) fptr ch str s t given here =
    let (next, s1, t1, got, here1) = fgetc-opened fptr s t given here in
    let str1 : Bytes = str ++ (elim ch [ none ↦ 255 | some c ↦ c ]) ∷ [] in
    let (s', ran) = readline_loop-endless fuel fptr next str1 s1 t1 given here1 in
    (s', rw (readline_loop, goes_on_always ch) (rw got ran))

-- `readline` on an open stream never comes to an end, whatever the stream holds.
pub readline-endless :
    (fuel : ℕ) (f : File) (str : Bytes) (s : Streams) (t : Stream)
    → f.fptr ≢ 0
    → s.opened f.fptr ≡ some t
    → (s' : Streams) × (readline fuel f str s ≡ ok (none, s'))
unfolding readline
readline-endless fuel f str s t given here =
    let (ch, s1, t1, got, here1) = fgetc-opened f.fptr s t given here in
    let (s', ran) = readline_loop-endless fuel f.fptr ch str s1 t1 given here1 in (s', rw got ran)

-- The destructor closes the stream of a `File`, and not that of one that was detached. A call of
-- `close` closes it too and leaves the pointer: the destructor is then undefined.
pub close-closes_twice :
    (f : File) (s : Streams) (t : Stream)
    → f.fptr ≢ 0
    → s.opened f.fptr ≡ some t
    → (closed : Streams) × (left : File) × (destroy f s ≡ ok (tt, closed))
      × (closed.opened f.fptr ≡ none)
      × (detach f ≡ ok (f.fptr, left))
      × (destroy left s ≡ ok (tt, s))
      × (close f s ≡ ok (tt, closed))
      × (destroy f closed ≡ undefined)
unfolding destroy close fclose detach
close-closes_twice f s t given here =
    let set : (f.fptr == 0) ≡ false = ground arith in
    let same : (f.fptr == f.fptr) ≡ true = ground arith in
    (
      record { opened = λ p. if p == f.fptr then none else s.opened p },
      record { fptr = 0 },
      rw set (rw (fclose, here) refl),
      rw same refl,
      rw set refl,
      refl,
      rw set (rw (fclose, here) refl),
      rw set (rw (fclose, same) refl),
    )
