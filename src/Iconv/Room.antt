-- ===== src/Iconv/Room.antt =====
-- What `Iconv::convert` (src/iconv.cpp) appends, and what room it tells `iconv` that there is.
use box_utils.Common.{
  Bytes, ℕ, suc, ◌+◌, ◌-◌, ◌*◌, ◌≤◌, ◌<◌, ◌≡◌, refl, ap, ◌∙◌, ◌≢◌, ◌⊎◌, inl, inr, true, false, some,
  [], ◌∷◌, ◌++◌, arith, leb, ◌==◌, if◌then◌else◌, Bool-cases, length, take, drop, replicate,
  drop_all, take-append_short, length-append, length-replicate, take_all, ok, throw, undefined,
}
use box_utils.Buffer.Memory.{overwrite, length-overwrite, take-overwrite}
use box_utils.Iconv.{
  Outcome, converted, failed, Step, Converter, iconv_error, e2big, write_out, resize_vector,
  convert_loop, convert,
}

write_out-fits :
    (vec : Bytes) (pos : ℕ) (produced : Bytes)
    → pos + length produced ≤ length vec
    → write_out vec pos produced ≡ ok (overwrite vec pos produced)
unfolding write_out
write_out-fits vec pos produced h =
    let fits : leb (pos + length produced) (length vec) ≡ true = ground arith in rw fits refl

write_out-overflows :
    (vec : Bytes) (pos : ℕ) (produced : Bytes)
    → length vec < pos + length produced
    → write_out vec pos produced ≡ undefined
unfolding write_out
write_out-overflows vec pos produced h =
    let fits : leb (pos + length produced) (length vec) ≡ false = ground arith in rw fits refl

-- What has been written in front of the position stays where the vector grows.
take-resize_vector :
    (size n : ℕ) (vec : Bytes)
    → n ≤ length vec
    → length vec ≤ size
    → (take n (resize_vector size vec) ≡ take n vec) × (length (resize_vector size vec) ≡ size)
unfolding resize_vector
take-resize_vector size n vec h grows =
    let whole : take size vec ≡ vec = take_all size vec grows in
    let zeros = length-replicate {A = ℕ} (size - length vec) 0 in
    let sum = length-append vec (replicate (size - length vec) 0) in
    (
      rw whole (take-append_short n vec (replicate (size - length vec) 0) h),
      rw whole (omega (arith, zeros, sum, grows)),
    )

Outcome-cases : (o : Outcome) → (o ≡ converted) ⊎ ((errno : ℕ) × (o ≡ failed errno))
Outcome-cases converted = inl refl
Outcome-cases (failed errno) = inr (errno, refl)

-- What is written at the start of zeros is there.
take-written :
    (n : ℕ) (produced : Bytes)
    → length produced ≤ n
    → take (length produced) (overwrite (replicate n 0) 0 produced) ≡ produced
take-written n produced h =
    let zeros = length-replicate {A = ℕ} n 0 in
    let nul : length produced ≡ 0 + length produced = omega arith in
    ap (λ k. take k (overwrite (replicate n 0) 0 produced)) nul
    ∙ take-overwrite (replicate n 0) 0 produced (omega (arith, zeros, h))

module _ (lib : Converter) where
  open lib use {Descriptor, convert_step, keeps_room, takes_all}

  -- The vector before the first call.
  abbrev room : Bytes → ℕ
  room input = length input * 2

  abbrev first : Descriptor → Bytes → Step Descriptor
  first d input = convert_step d input (room input)

  -- The room that the second call is told, where the first one answers E2BIG: as long as the
  -- vector is then.
  abbrev told : Descriptor → Bytes → ℕ
  told d input = room input - length (first d input).produced + room input + 100

  -- A call that converts its whole input ends the loop.
  last-call :
      (fuel : ℕ) (d : Descriptor) (c : ℕ) (input vec : Bytes) (pos outsize output_byte : ℕ)
      → (convert_step d (c ∷ input) outsize).outcome ≡ converted
      → pos + length (convert_step d (c ∷ input) outsize).produced ≤ length vec
      → convert_loop lib (suc (suc fuel)) d (c ∷ input) vec pos outsize output_byte
        ≡ ok (
            some (
              overwrite vec pos (convert_step d (c ∷ input) outsize).produced,
              output_byte + length (convert_step d (c ∷ input) outsize).produced,
              (convert_step d (c ∷ input) outsize).descriptor,
            ))
  unfolding convert_loop
  last-call fuel d c input vec pos outsize output_byte success fits =
      let r = convert_step d (c ∷ input) outsize in
      let rest : drop r.consumed (c ∷ input) ≡ [] =
        ap (λ n. drop n (c ∷ input)) (takes_all d (c ∷ input) outsize success)
        ∙ drop_all (c ∷ input) in
      let kept = keeps_room d (c ∷ input) outsize in
      let count : output_byte + (outsize - (outsize - length r.produced))
          ≡ output_byte + length r.produced =
        omega (arith, kept) in
      rw (write_out-fits vec pos r.produced fits) (rw success (rw rest (rw count refl)))

  -- A call that answers E2BIG: the vector grows, and the loop goes on.
  big-call :
      (fuel : ℕ) (d : Descriptor) (c : ℕ) (input vec : Bytes) (pos outsize output_byte : ℕ)
      → (convert_step d (c ∷ input) outsize).outcome ≡ failed e2big
      → pos + length (convert_step d (c ∷ input) outsize).produced ≤ length vec
      → convert_loop lib (suc fuel) d (c ∷ input) vec pos outsize output_byte
        ≡ convert_loop lib fuel
            (convert_step d (c ∷ input) outsize).descriptor
            (drop (convert_step d (c ∷ input) outsize).consumed (c ∷ input))
            (resize_vector
              (outsize - length (convert_step d (c ∷ input) outsize).produced + length vec + 100)
              (overwrite vec pos (convert_step d (c ∷ input) outsize).produced))
            (pos + length (convert_step d (c ∷ input) outsize).produced)
            (outsize - length (convert_step d (c ∷ input) outsize).produced + length vec + 100)
            (output_byte + length (convert_step d (c ∷ input) outsize).produced)
  unfolding convert_loop
  big-call fuel d c input vec pos outsize output_byte full fits =
      let r = convert_step d (c ∷ input) outsize in
      let kept = keeps_room d (c ∷ input) outsize in
      let count : output_byte + (outsize - (outsize - length r.produced))
          ≡ output_byte + length r.produced =
        omega (arith, kept) in
      let size = length-overwrite vec pos r.produced in
      rw (write_out-fits vec pos r.produced fits) (rw full (rw (count, size) refl))

  -- A call with another error.
  error-call :
      (fuel : ℕ) (d : Descriptor) (c errno : ℕ) (input vec : Bytes) (pos outsize output_byte : ℕ)
      → (convert_step d (c ∷ input) outsize).outcome ≡ failed errno
      → (errno == e2big) ≡ false
      → pos + length (convert_step d (c ∷ input) outsize).produced ≤ length vec
      → convert_loop lib (suc fuel) d (c ∷ input) vec pos outsize output_byte
        ≡ throw (iconv_error errno)
  unfolding convert_loop
  error-call fuel d c errno input vec pos outsize output_byte failure differs fits =
      rw (write_out-fits vec pos (convert_step d (c ∷ input) outsize).produced fits)
        (rw failure (rw differs refl))

  -- A call that writes behind the end of the vector.
  overflow-call :
      (fuel : ℕ) (d : Descriptor) (c : ℕ) (input vec : Bytes) (pos outsize output_byte : ℕ)
      → length vec < pos + length (convert_step d (c ∷ input) outsize).produced
      → convert_loop lib (suc fuel) d (c ∷ input) vec pos outsize output_byte ≡ undefined
  unfolding convert_loop
  overflow-call fuel d c input vec pos outsize output_byte behind =
      rw (write_out-overflows vec pos (convert_step d (c ∷ input) outsize).produced behind) refl

  -- An input that is not empty: unless the first call answers E2BIG, what it writes is appended, or
  -- its error thrown.
  pub convert-one_call :
      (fuel : ℕ) (d : Descriptor) (c : ℕ) (input out : Bytes)
      → (first d (c ∷ input)).outcome ≢ failed e2big
      → convert lib (suc (suc fuel)) d (c ∷ input) out ≡ elim (first d (c ∷ input)).outcome [
        | converted ↦
            ok (some (out ++ (first d (c ∷ input)).produced, (first d (c ∷ input)).descriptor))
        | failed errno ↦ throw (iconv_error errno)
      ]
  unfolding convert
  convert-one_call fuel d c input out other =
      let r = first d (c ∷ input) in
      let kept = keeps_room d (c ∷ input) (room (c ∷ input)) in
      let zeros = length-replicate {A = ℕ} (room (c ∷ input)) 0 in
      let fits : 0 + length r.produced ≤ length (replicate {A = ℕ} (room (c ∷ input)) 0) =
        omega (arith, kept, zeros) in
      let nul : 0 + length r.produced ≡ length r.produced = omega arith in
      elim (Outcome-cases r.outcome) [
        | inl success ↦ rw success (
            rw
              (last-call fuel d c input (replicate (room (c ∷ input)) 0) 0 (room (c ∷ input)) 0
                success fits)
              (rw (nul, take-written (room (c ∷ input)) r.produced kept) refl))
        | inr (errno, failure) ↦ elim (Bool-cases (errno == e2big)) [
          | inl big ↦
              let same : errno ≡ e2big = ground arith in absurd (other (failure ∙ ap failed same))
          | inr differs ↦ rw failure (
              rw
                (error-call (suc fuel) d c errno input (replicate (room (c ∷ input)) 0) 0
                  (room (c ∷ input)) 0 failure differs fits)
                refl)
        ]
      ]

  -- The second call, on what is left.
  abbrev second : Descriptor → Bytes → Bytes → Step Descriptor
  second d input rest = convert_step (first d input).descriptor rest (told d input)

  -- Where the first call answers E2BIG, the second one is told the whole length of the vector as
  -- room, and its bytes go behind those of the first. If it converts the rest: both are appended as
  -- long as they fit into the vector together, and more is written behind the end of the vector.
  pub convert-two_calls :
      (fuel : ℕ) (d : Descriptor) (c c' : ℕ) (input input' out : Bytes)
      → (first d (c ∷ input)).outcome ≡ failed e2big
      → drop (first d (c ∷ input)).consumed (c ∷ input) ≡ c' ∷ input'
      → (second d (c ∷ input) (c' ∷ input')).outcome ≡ converted
      → convert lib (suc (suc (suc fuel))) d (c ∷ input) out ≡ (
          if leb
            (length (first d (c ∷ input)).produced
              + length (second d (c ∷ input) (c' ∷ input')).produced)
            (told d (c ∷ input))
          then ok (
              some (
                out
                    ++ ((first d (c ∷ input)).produced
                        ++ (second d (c ∷ input) (c' ∷ input')).produced),
                (second d (c ∷ input) (c' ∷ input')).descriptor,
              ))
          else undefined)
  unfolding convert
  convert-two_calls fuel d c c' input input' out full left success =
      let n = room (c ∷ input) in
      let r = first d (c ∷ input) in
      let r' = second d (c ∷ input) (c' ∷ input') in
      let t = told d (c ∷ input) in
      let pos = length r.produced in
      let zeros = length-replicate {A = ℕ} n 0 in
      let nul : 0 + pos ≡ pos = omega arith in
      let kept = keeps_room d (c ∷ input) n in
      let fits : 0 + pos ≤ length (replicate {A = ℕ} n 0) = omega (arith, kept, zeros) in
      let vec : Bytes = overwrite (replicate n 0) 0 r.produced in
      let size : length vec ≡ n = length-overwrite (replicate n 0) 0 r.produced ∙ zeros in
      let (front, long) =
        take-resize_vector t pos vec (omega (arith, kept, size)) (omega (arith, size)) in
      let big : convert_loop lib (suc (suc (suc fuel))) d (c ∷ input) (replicate n 0) 0 n 0
          ≡ convert_loop lib (suc (suc fuel)) r.descriptor (c' ∷ input') (resize_vector t vec) pos t
              pos =
        big-call (suc (suc fuel)) d c input (replicate n 0) 0 n 0 full fits
        ∙ rw (left, zeros, nul) refl in
      elim (Bool-cases (leb (pos + length r'.produced) t)) [
        | inl inside ↦
            let fits' : pos + length r'.produced ≤ length (resize_vector t vec) =
              ground (arith, long) in
            let both : take (pos + length r'.produced)
                  (overwrite (resize_vector t vec) pos r'.produced)
                ≡ r.produced ++ r'.produced =
              take-overwrite (resize_vector t vec) pos r'.produced fits'
              ∙ ap (λ l. l ++ r'.produced) (front ∙ take-written n r.produced kept) in
            let ran =
              big
              ∙ last-call fuel r.descriptor c' input' (resize_vector t vec) pos t pos success
                  fits' in
            rw ran (rw inside (rw both refl))
        | inr behind ↦
            let outside : length (resize_vector t vec) < pos + length r'.produced =
              ground (arith, long) in
            let ran =
              big
              ∙ overflow-call (suc fuel) r.descriptor c' input' (resize_vector t vec) pos t pos
                  outside in
            rw ran (rw behind refl)
      ]
