-- ===== src/Buffer/Write.antt =====
-- `Buffer::write` (src/buffer.cpp).
use box_utils.Common.{
  Bytes, size_mod, ℕ, ◌+◌, ◌-◌, ◌%◌, ◌≤◌, ◌<◌, min, ◌≡◌, refl, sym, true, false, some, [], ◌++◌,
  append-nil, arith, dec_lt, ltb, ◌==◌, length, take, ok,
}
use box_utils.Buffer.{Buffer, full, write}
use box_utils.Buffer.Memory.{overwrite, memcpy-ok}
use box_utils.Buffer.Contents.{contents, IsValid, Holds, fill}

valid_self : (b : Buffer) → IsValid b → Holds b (contents b ++ []) b.mem_size
valid_self b v = record { valid = v; content = sym (append-nil (contents b)); capacity = refl }

-- Once the test on the room has come out, the write is one `memcpy`.
write-full :
    (b : Buffer) (src : Bytes) (size : ℕ) → b.mem_size ≡ b.used_size → write src size b ≡ ok (0, b)
unfolding write full
write-full b src size e = ground arith

write-part :
    (b : Buffer) (v : IsValid b) (src : Bytes) (size : ℕ)
    → size ≤ length src
    → b.used_size < b.mem_size
    → b.mem_size < b.used_size + size
    → b.used_size + size < size_mod
    → write src size b
      ≡ ok (
        b.mem_size - b.used_size,
        record {
          mem = some (overwrite v.block b.used_size (take (b.mem_size - b.used_size) src));
          mem_size = b.mem_size;
          used_size = (b.used_size + (b.mem_size - b.used_size)) % size_mod;
        },
      )
unfolding write full
write-part b v src size l room over small =
    let over' : ltb b.mem_size ((b.used_size + size) % size_mod) ≡ true = ground arith in
    let not_full : (b.mem_size == b.used_size) ≡ false = ground arith in
    let left : (b.mem_size + size_mod - b.used_size) % size_mod ≡ b.mem_size - b.used_size =
      omega (arith, v.small, v.within) in
    rw (
      not_full,
      over',
      left,
      v.holds,
      memcpy-ok v.block b.used_size src (b.mem_size - b.used_size) (omega (arith, v.sized))
          (omega arith),
    )

write-whole :
    (b : Buffer) (v : IsValid b) (src : Bytes) (size : ℕ)
    → size ≤ length src
    → b.used_size < b.mem_size
    → b.used_size + size ≤ b.mem_size
    → write src size b
      ≡ ok (
        size,
        record {
          mem = some (overwrite v.block b.used_size (take size src));
          mem_size = b.mem_size;
          used_size = (b.used_size + size) % size_mod;
        },
      )
unfolding write full
write-whole b v src size l room fits =
    let fits' : ltb b.mem_size ((b.used_size + size) % size_mod) ≡ false =
      ground (arith, v.small) in
    let not_full : (b.mem_size == b.used_size) ≡ false = ground arith in
    rw (
      not_full,
      fits',
      v.holds,
      memcpy-ok v.block b.used_size src size (omega (arith, v.sized)) (omega arith),
    )

-- `write` keeps what the buffer holds, adds as many of the first `size` bytes as there is room for,
-- and returns their number.
pub write-fills :
    (b : Buffer) (src : Bytes) (size : ℕ)
    → IsValid b
    → size ≤ length src
    → b.used_size + size < size_mod
    → (b' : Buffer) × (write src size b ≡ ok (min size (b.mem_size - b.used_size), b'))
      × Holds b' (contents b ++ take (min size (b.mem_size - b.used_size)) src) b.mem_size
write-fills b src size v l s = elim (dec_lt b.used_size b.mem_size) [
  | no h ↦
      let e : min size (b.mem_size - b.used_size) ≡ 0 = omega (arith, v.within) in
      rw e (b, write-full b src size (omega (arith, v.within)), valid_self b v)
  | yes h ↦ elim (dec_lt b.mem_size (b.used_size + size)) [
    | yes over ↦
        let e : min size (b.mem_size - b.used_size) ≡ b.mem_size - b.used_size = omega arith in
        rw e (
          _,
          write-part b v src size l h over s,
          fill b v src (b.mem_size - b.used_size) (omega arith) (omega arith),
        )
    | no fits ↦
        let e : min size (b.mem_size - b.used_size) ≡ size = omega arith in
        rw e (_, write-whole b v src size l h (omega arith), fill b v src size (omega arith) l)
  ]
]
