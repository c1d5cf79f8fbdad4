-- ===== src/Buffer.antt =====
-- `Buffer` and `TBuffer` (src/buffer.cpp, include/Box/buffer.hpp). A block of memory is the list
-- of its bytes, and `none` is the null pointer. What `malloc` and `realloc` do is an argument:
-- `none` where they fail, else the bytes that stand in the memory they hand out.
pub mod Memory
mod Contents
pub mod Write
pub mod Grow
pub mod Typed
mod Examples
use Memory.{Block, Allocation, malloc, realloc, memcpy}
use box_utils.Common.{
  ◌>>=◌, Bytes, size_mod, ℕ, ◌+◌, ◌-◌, ◌%◌, Bool, none, some, ltb, ◌==◌, if◌then◌else◌, Run, ok,
}

pub data Error : Type 0 where
  no_error : Error

pub record Buffer : Type 0 where
  pub mem : Block
  pub mem_size : ℕ
  pub used_size : ℕ

pub available_size : Buffer → ℕ
available_size b = (b.mem_size + size_mod - b.used_size) % size_mod

pub full : Buffer → Bool
full b = b.mem_size == b.used_size

-- `Buffer(size_t size)`
pub new : ℕ → Allocation → Buffer
new size alloc = record { mem = malloc size alloc; mem_size = size; used_size = 0 }

-- `Buffer(const Buffer &)`
pub copy : Buffer → Allocation → Run Error Buffer
copy other alloc = do
  mem ← memcpy (malloc other.mem_size alloc) 0 other.mem other.used_size
  ok (record { mem = mem; mem_size = other.mem_size; used_size = other.used_size })

-- `Buffer(Buffer &&)`: the new buffer, and what is left of the old one.
pub move : Buffer → Buffer × Buffer
move other = (other, record { mem = none; mem_size = 0; used_size = 0 })

pub extend : ℕ → Allocation → Buffer → Buffer
extend size alloc b = if size == 0 then b else record {
  mem = realloc b.mem ((size + b.mem_size) % size_mod) alloc;
  mem_size = (b.mem_size + size) % size_mod;
  used_size = b.used_size;
}

pub resize : ℕ → Allocation → Buffer → Buffer
resize new_size alloc b = record {
  mem = realloc b.mem new_size alloc;
  mem_size = new_size;
  used_size = if ltb new_size b.used_size then new_size else b.used_size;
}

-- The bytes written, and the buffer afterwards.
pub write : Bytes → ℕ → Buffer → Run Error (ℕ × Buffer)
unfolding full
write src size b =
    if full b
    then ok (0, b)
    else if ltb b.mem_size ((b.used_size + size) % size_mod)
    then (do
      let copy_byte = (b.mem_size + size_mod - b.used_size) % size_mod
      mem ← memcpy b.mem b.used_size (some src) copy_byte
      ok (copy_byte, record b { mem = mem; used_size = (b.used_size + copy_byte) % size_mod }))
    else do
      mem ← memcpy b.mem b.used_size (some src) size
      ok (size, record b { mem = mem; used_size = (b.used_size + size) % size_mod })

pub append : Bytes → ℕ → Allocation → Buffer → Run Error Buffer
unfolding available_size extend
append src size alloc b = do
  let b' = if ltb (available_size b) size then extend size alloc b else b
  mem ← memcpy b'.mem b'.used_size (some src) size
  ok (record b' { mem = mem; used_size = (b'.used_size + size) % size_mod })

-- The block, and the buffer without it.
pub detach : Buffer → Block × Buffer
detach b = (b.mem, record { mem = none; mem_size = 0; used_size = 0 })

pub clear : Buffer → Buffer
clear b = record b { used_size = 0 }

pub move_forward : ℕ → Buffer → Buffer
move_forward byte b = record b { used_size = (b.used_size + byte) % size_mod }
