-- ===== src/Iconv.antt =====
-- `Iconv` (src/iconv.cpp) over the conversion descriptors of the system, which are the parameter
-- `Converter`. The output vector is the list of its bytes, `outbuf` a position in it.
pub mod Room
mod Examples
use box_utils.Common.{
  Bytes, ℕ, zero, suc, ◌+◌, ◌-◌, ◌*◌, ◌≤◌, ◌≡◌, true, false, Option, none, some, [], ◌∷◌, ◌++◌, leb,
  ◌==◌, if◌then◌else◌, length, take, drop, replicate, Run, ◌>>=◌, ok, throw, undefined, aborted,
}
use box_utils.Buffer.Memory.{overwrite}

-- What a call of `iconv` comes to beside the bytes.
pub data Outcome : Type 0 where
  converted : Outcome
  failed : ℕ → Outcome

-- One call: how many bytes it takes from the input, and what it writes.
pub record Step (D : Type 0) : Type 0 where
  pub consumed : ℕ
  pub produced : Bytes
  pub outcome : Outcome
  pub descriptor : D

-- `convert_step` is `iconv` on the input that is left and the room that it is told; it keeps to
-- that room, and takes the whole input where it succeeds. `open_descriptor` is `iconv_open`.
pub record Converter : Type 1 where
  pub Descriptor : Type 0
  pub open_descriptor : Bytes → Bytes → Run ℕ Descriptor
  pub convert_step : Descriptor → Bytes → ℕ → Step Descriptor
  pub reset_descriptor : Descriptor → Descriptor
  pub keeps_room :
      (d : Descriptor) (input : Bytes) (room : ℕ)
      → length (convert_step d input room).produced ≤ room
  pub takes_all :
      (d : Descriptor) (input : Bytes) (room : ℕ)
      → (convert_step d input room).outcome ≡ converted
      → (convert_step d input room).consumed ≡ length input

pub data Error : Type 0 where
  iconv_error : ℕ → Error

pub data Flag : Type 0 where
  no_flag ignore translit : Flag

-- `E2BIG`
abbrev pub e2big : ℕ
e2big = 7

-- What `iconv` writes lands in the vector, undefined where it is too short.
pub write_out : Bytes → ℕ → Bytes → Run Error Bytes
write_out vec pos produced =
    if leb (pos + length produced) (length vec) then ok (overwrite vec pos produced) else undefined

-- `vector::resize` to a size that is larger; new bytes are 0.
pub resize_vector : ℕ → Bytes → Bytes
resize_vector size vec = take size vec ++ replicate (size - length vec) 0

module _ (lib : Converter) where
  open lib use {Descriptor, open_descriptor, convert_step, reset_descriptor}

  -- `Iconv(const char *, const char *, Flag)`: the codes with a suffix are made and not used.
  pub create : Bytes → Bytes → Flag → Run Error Descriptor
  create to from flag = elim (open_descriptor to from) [
    | ok d ↦ ok d
    | throw e ↦ throw (iconv_error e)
    | undefined ↦ undefined
    | aborted ↦ aborted
  ]

  -- The loop of `convert`, with `outbuf - outbuf_vec.data()` in `pos`; `ok none` where the fuel
  -- does not do.
  pub convert_loop :
      ℕ → Descriptor → Bytes → Bytes → ℕ → ℕ → ℕ → Run Error (Option (Bytes × ℕ × Descriptor))
  unfolding write_out resize_vector
  convert_loop zero d input vec pos outsize output_byte = ok none
  convert_loop (suc fuel) d [] vec pos outsize output_byte = ok (some (vec, output_byte, d))
  convert_loop (suc fuel) d (c ∷ input) vec pos outsize output_byte =
      let r = convert_step d (c ∷ input) outsize in
      let tmp = outsize - length r.produced in
      do
        vec ← write_out vec pos r.produced
        elim r.outcome [
          | converted ↦
              convert_loop fuel r.descriptor (drop r.consumed (c ∷ input)) vec
                (pos + length r.produced) tmp (output_byte + (outsize - tmp))
          | failed errno ↦ elim (errno == e2big) [
            | true ↦
                let outsize' = tmp + length vec + 100 in
                convert_loop fuel r.descriptor (drop r.consumed (c ∷ input))
                  (resize_vector outsize' vec) (pos + length r.produced) outsize'
                  (output_byte + (outsize - tmp))
            | false ↦ throw (iconv_error errno)
          ]
        ]

  -- `convert(const std::string_view &, std::string &)`
  pub convert : ℕ → Descriptor → Bytes → Bytes → Run Error (Option (Bytes × Descriptor))
  convert fuel d input out = do
    result ← convert_loop fuel d input (replicate (length input * 2) 0) 0 (length input * 2) 0
    elim result [
      | none ↦ ok none
      | some (vec, output_byte, d) ↦ ok (some (out ++ take output_byte vec, d))
    ]

  -- `convert(const std::string_view &)`
  pub convert_string : ℕ → Descriptor → Bytes → Run Error (Option (Bytes × Descriptor))
  convert_string fuel d str = convert fuel d str []

  pub reset : Descriptor → Descriptor
  reset d = reset_descriptor d
