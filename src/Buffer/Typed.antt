-- ===== src/Buffer/Typed.antt =====
-- `TBuffer<T>` (include/Box/buffer.hpp): a `Buffer` measured in elements of `unit` bytes,
-- `sizeof(T)`.
use box_utils.Common.{
  Bytes, size_mod, ℕ, ◌+◌, ◌*◌, ◌/◌, ◌%◌, ◌≤◌, ◌<◌, ◌≡◌, ap, some, ◌++◌, arith, length, take,
  length-append, length-take, Run, ok,
}
use box_utils.Buffer.Memory.{Allocation}
use box_utils.Buffer
use box_utils.Buffer.{Error, Buffer, available_size}
use box_utils.Buffer.Contents.{contents, IsValid, length-contents}
use box_utils.Buffer.Grow.{append-grows}

module _ (unit : ℕ) where
  pub new : ℕ → Allocation → Buffer
  new size alloc = Buffer.new (size * unit % size_mod) alloc

  pub append : Bytes → ℕ → Allocation → Buffer → Run Error Buffer
  append src size alloc b = Buffer.append src size alloc b

  pub write : Bytes → ℕ → Buffer → Run Error (ℕ × Buffer)
  write src size b = Buffer.write src size b

  pub size : Buffer → ℕ
  size b = b.used_size / unit

  pub capacity : Buffer → ℕ
  capacity b = b.mem_size / unit

  pub room : Buffer → ℕ
  room b = available_size b / unit

  pub extend : ℕ → Allocation → Buffer → Buffer
  extend n alloc b = Buffer.extend (n * unit % size_mod) alloc b

  pub resize : ℕ → Allocation → Buffer → Buffer
  resize n alloc b = Buffer.resize (n * unit % size_mod) alloc b

  -- `append(ptr, size)` of `size` elements adds `size` bytes: the buffer holds the first
  -- `size` bytes of the elements more, where their bytes are `size * unit`.
  append-drops :
      (b : Buffer) (src : Bytes) (n : ℕ) (f : ℕ → ℕ)
      → IsValid b
      → n * unit ≤ length src
      → 1 ≤ unit
      → b.mem_size + n < size_mod
      → (b' : Buffer) × (append src n (some f) b ≡ ok b')
        × (contents b' ≡ contents b ++ take n src)
        × (b'.used_size ≡ b.used_size + n)
  unfolding append
  append-drops b src n f v l u s =
      let enough : n ≤ length src = grind arith in
      let (b', run, content, valid) = append-grows b src n f v enough s in
      let after = length-contents b' valid in
      let before = length-contents b v in
      let total = length-append (contents b) (take n src) in
      (b', run, content, omega (arith, after, before, total, ap length content, length-take n src))
