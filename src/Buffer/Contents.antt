-- ===== src/Buffer/Contents.antt =====
-- What a `Buffer` (src/buffer.cpp) holds, and when it is well formed.
use box_utils.Common.{
  Bytes, size_mod, ℕ, ◌+◌, ◌%◌, ◌≤◌, ◌<◌, ◌≡◌, refl, ◌∙◌, Option, none, some, [], ◌++◌, arith,
  length, take, length-take,
}
use box_utils.Buffer.{Buffer}
use box_utils.Buffer.Memory.{overwrite, length-overwrite, take-overwrite}

unfoldable pub bytes : Option Bytes → Bytes
bytes none = []
bytes (some block) = block

-- The bytes that the buffer holds.
unfoldable pub contents : Buffer → Bytes
unfolding bytes
contents b = take b.used_size (bytes b.mem)

-- The block is there, has the size that is noted, and the used part lies in it.
pub record IsValid (b : Buffer) : Type 0 where
  pub block : Bytes
  pub holds : b.mem ≡ some block
  pub sized : length block ≡ b.mem_size
  pub within : b.used_size ≤ b.mem_size
  pub small : b.mem_size < size_mod

-- `b'` is valid, holds `after` and has room for `room` bytes.
pub record Holds (b' : Buffer) (after : Bytes) (room : ℕ) : Type 0 where
  pub valid : IsValid b'
  pub content : contents b' ≡ after
  pub capacity : b'.mem_size ≡ room

contents-valid : (b : Buffer) (v : IsValid b) → contents b ≡ take b.used_size v.block
unfolding contents
contents-valid b v = rw v.holds

-- A write of `n` bytes behind the used part, which has room for them.
pub fill :
    (b : Buffer) (v : IsValid b) (src : Bytes) (n : ℕ)
    → b.used_size + n ≤ b.mem_size
    → n ≤ length src
    → Holds
        (record {
          mem = some (overwrite v.block b.used_size (take n src));
          mem_size = b.mem_size;
          used_size = (b.used_size + n) % size_mod;
        })
        (contents b ++ take n src)
        b.mem_size
unfolding contents
fill b v src n h l =
    let eq : (b.used_size + n) % size_mod ≡ b.used_size + length (take n src) =
      omega (arith, length-take n src, v.small) in
    record {
      valid = record {
        block = overwrite v.block b.used_size (take n src);
        holds = refl;
        sized = length-overwrite v.block b.used_size (take n src) ∙ v.sized;
        within = omega (arith, v.small);
        small = v.small;
      };
      content =
          rw (eq, v.holds)
            (take-overwrite v.block b.used_size (take n src)
              (omega (arith, length-take n src, v.sized)));
      capacity = refl;
    }

pub length-contents : (b : Buffer) → IsValid b → length (contents b) ≡ b.used_size
unfolding contents
length-contents b v = rw v.holds (omega (arith, length-take b.used_size v.block, v.within, v.sized))
