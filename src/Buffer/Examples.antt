-- ===== src/Buffer/Examples.antt =====
-- Tests of src/buffer.cpp, and the theorems at a concrete buffer.
use box_utils.Common.{◌≡◌, refl, none, some, [], ◌∷◌, ◌++◌, arith, ok, undefined}
use box_utils.Buffer.{Buffer, write, append}
use box_utils.Buffer.Memory.{memcpy}
use box_utils.Buffer.Contents.{contents, IsValid, Holds}
use box_utils.Buffer.Write.{write-fills}
use box_utils.Buffer.Grow.{append-grows}

-- Four bytes of room, two of them used.
abbrev sample : Buffer
sample = record { mem = some (1 ∷ 2 ∷ 0 ∷ 0 ∷ []); mem_size = 4; used_size = 2 }

sample-IsValid : IsValid sample
sample-IsValid = record {
  block = 1 ∷ 2 ∷ 0 ∷ 0 ∷ [];
  holds = refl;
  sized = refl;
  within = omega arith;
  small = omega arith;
}

write_truncates :
    write (7 ∷ 8 ∷ 9 ∷ []) 3 sample
    ≡ ok (2, record { mem = some (1 ∷ 2 ∷ 7 ∷ 8 ∷ []); mem_size = 4; used_size = 4 })
unfolding write memcpy
write_truncates = refl

-- Without memory the null pointer is written to.
append_without_memory : append (7 ∷ 8 ∷ 9 ∷ []) 3 none sample ≡ undefined
unfolding append memcpy
append_without_memory = refl

write-fills_example :
    (b' : Buffer) × (write (7 ∷ 8 ∷ 9 ∷ []) 3 sample ≡ ok (2, b'))
    × Holds b' (contents sample ++ 7 ∷ 8 ∷ []) 4
write-fills_example =
    write-fills sample (7 ∷ 8 ∷ 9 ∷ []) 3 sample-IsValid (omega arith) (omega arith)

append-grows_example :
    (b' : Buffer) × (append (7 ∷ 8 ∷ 9 ∷ []) 3 (some (λ i. i)) sample ≡ ok b')
    × (contents b' ≡ contents sample ++ 7 ∷ 8 ∷ 9 ∷ [])
    × IsValid b'
append-grows_example =
    append-grows sample (7 ∷ 8 ∷ 9 ∷ []) 3 (λ i. i) sample-IsValid (omega arith) (omega arith)
