-- ===== src/Buffer/Grow.antt =====
-- The operations of `Buffer` (src/buffer.cpp) that ask for memory.
use box_utils.Common.{
  ◌>>=◌, Bytes, size_mod, ℕ, ◌+◌, ◌%◌, ◌≤◌, ◌<◌, ◌≡◌, refl, sym, ap, ◌∙◌, inl, inr, false, some,
  ◌++◌, arith, ltb, ◌==◌, ==_iff, Bool-cases, length, take, length-take, take_all, take-take, Run,
  ok,
}
use box_utils.Buffer.{Error, Buffer, available_size, copy, extend, resize, append}
use box_utils.Buffer.Memory.{
  cells, resized, overwrite, memcpy, length-cells, length-resized, take-resized, length-overwrite,
  take-overwrite, memcpy-ok,
}
use box_utils.Buffer.Contents.{contents, IsValid, Holds, fill}

-- `extend` with memory to be had keeps the contents and adds `size` to the capacity.
pub extend-Holds :
    (b : Buffer) (size : ℕ) (f : ℕ → ℕ)
    → IsValid b
    → b.mem_size + size < size_mod
    → Holds (extend size (some f) b) (contents b) (b.mem_size + size)
unfolding extend
extend-Holds b size f v s = elim (Bool-cases (size == 0)) [
  | inl e ↦
      rw e (record { valid = v; content = refl; capacity = omega (arith, (==_iff size 0).0 e) })
  | inr e ↦
      rw (e, v.holds)
        (record {
          valid = record {
            block = resized v.block 0 f ((size + b.mem_size) % size_mod);
            holds = refl;
            sized = omega (arith, length-resized v.block 0 f ((size + b.mem_size) % size_mod));
            within = omega (arith, v.within);
            small = omega arith;
          };
          content =
              unfold contents in
              take-resized v.block 0 f ((size + b.mem_size) % size_mod) b.used_size
                (omega (arith, v.within)) (omega (arith, v.within, v.sized));
          capacity = omega arith;
        })
]

-- The part of `append` behind the enlargement, in a buffer with room.
store : Bytes → ℕ → Buffer → Run Error Buffer
store src size b = do
  mem ← memcpy b.mem b.used_size (some src) size
  ok (record b { mem = mem; used_size = (b.used_size + size) % size_mod })

store-fills :
    (b : Buffer) (src : Bytes) (size : ℕ)
    → IsValid b
    → size ≤ length src
    → b.used_size + size ≤ b.mem_size
    → (b' : Buffer) × (store src size b ≡ ok b') × Holds b' (contents b ++ take size src) b.mem_size
unfolding store
store-fills b src size v l fits = (
  _,
  rw (v.holds, memcpy-ok v.block b.used_size src size (omega (arith, v.sized)) l),
  fill b v src size fits l,
)

-- With room for `size` bytes, or memory to be had, `append` adds the first `size` bytes of the
-- source to what the buffer holds.
pub append-grows :
    (b : Buffer) (src : Bytes) (size : ℕ) (f : ℕ → ℕ)
    → IsValid b
    → size ≤ length src
    → b.mem_size + size < size_mod
    → (b' : Buffer) × (append src size (some f) b ≡ ok b')
      × (contents b' ≡ contents b ++ take size src)
      × IsValid b'
unfolding append
append-grows b src size f v l s = elim (Bool-cases (ltb (available_size b) size)) [
  | inl short ↦
      let big = extend-Holds b size f v s in
      let used : (extend size (some f) b).used_size ≡ b.used_size = unfold extend in ground arith in
      let (b', run, held) =
        store-fills (extend size (some f) b) src size big.valid l
          (omega (arith, used, big.capacity, v.within)) in
      (
        b',
        rw short (unfold store in run),
        held.content ∙ ap (λ t. t ++ take size src) big.content,
        held.valid,
      )
  | inr enough ↦
      let (b', run, held) = store-fills b src size v l (room b v size enough) in
      (b', rw enough (unfold store in run), held.content, held.valid)
]
  where
    room :
        (b : Buffer) (v : IsValid b) (size : ℕ)
        → ltb (available_size b) size ≡ false
        → b.used_size + size ≤ b.mem_size
    room b v size e = unfold available_size in ground (arith, v.within, v.small)

-- `resize` with memory to be had keeps the contents up to the new size.
pub resize-Holds :
    (b : Buffer) (size : ℕ) (f : ℕ → ℕ)
    → IsValid b
    → size < size_mod
    → Holds (resize size (some f) b) (take size (contents b)) size
unfolding resize
resize-Holds b size f v s = record {
  valid = record {
    block = resized v.block 0 f size;
    holds = rw v.holds;
    sized = length-resized v.block 0 f size;
    within = ground arith;
    small = s;
  };
  content =
      unfold contents in
      rw v.holds (elim (Bool-cases (ltb size b.used_size)) [
        | inl cut ↦ rw cut (
            take-resized v.block 0 f size size (omega arith) (ground (arith, v.within, v.sized))
            ∙ sym (take-take size b.used_size v.block (ground arith)))
        | inr whole ↦ rw whole (
            take-resized v.block 0 f size b.used_size (ground arith)
              (omega (arith, v.within, v.sized))
            ∙ sym (
                take_all size (take b.used_size v.block)
                  (ground (arith, length-take b.used_size v.block))))
      ]);
  capacity = refl;
}

-- The copy of a valid buffer holds the same bytes, where there is memory for it.
copy-Holds :
    (b : Buffer) (f : ℕ → ℕ)
    → IsValid b
    → (b' : Buffer) × (copy b (some f) ≡ ok b') × Holds b' (contents b) b.mem_size
unfolding copy
copy-Holds b f v =
    let blank = cells f 0 b.mem_size in
    let written = overwrite blank 0 (take b.used_size v.block) in
    let len : length (take b.used_size v.block) ≡ b.used_size =
      omega (arith, length-take b.used_size v.block, v.within, v.sized) in
    let fits : 0 + b.used_size ≤ length blank =
      omega (arith, length-cells f 0 b.mem_size, v.within) in
    (
      record { mem = some written; mem_size = b.mem_size; used_size = b.used_size },
      rw (v.holds, memcpy-ok blank 0 v.block b.used_size fits (omega (arith, v.within, v.sized))),
      record {
        valid = record {
          block = written;
          holds = refl;
          sized = length-overwrite blank 0 (take b.used_size v.block) ∙ length-cells f 0 b.mem_size;
          within = v.within;
          small = v.small;
        };
        content =
            unfold contents in
            let e : b.used_size ≡ 0 + length (take b.used_size v.block) = omega (arith, len) in
            rw v.holds (
              ap (λ n. take n written) e
              ∙ take-overwrite blank 0 (take b.used_size v.block) (omega (arith, fits, len)));
        capacity = refl;
      },
    )
