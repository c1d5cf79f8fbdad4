-- ===== src/Iconv/Examples.antt =====
-- A converter in place of the system's, which writes each byte as often as it says, and the
-- theorems on src/iconv.cpp with it.
use box_utils.Common.{
  Bytes, ℕ, suc, ◌-◌, ◌≤◌, ◌≡◌, refl, ap, inl, inr, some, [], ◌∷◌, ◌++◌, arith, leb, if◌then◌else◌,
  Bool-cases, length, replicate, length-append, length-replicate, ok, undefined,
}
use box_utils.Iconv.{
  converted, failed, Step, Converter, e2big, convert_loop, convert, convert_string,
}
use box_utils.Iconv.Room.{convert-one_call, convert-two_calls}

abbrev toy_step : Bytes → ℕ → Step (Unit {0})
toy_step [] room = record { consumed = 0; produced = []; outcome = converted; descriptor = tt }
toy_step (b ∷ input) room =
    let r = toy_step input (room - b) in
    if leb b room
    then record r { consumed = suc r.consumed; produced = replicate b b ++ r.produced }
    else record { consumed = 0; produced = []; outcome = failed e2big; descriptor = tt }

toy_keeps : (input : Bytes) (room : ℕ) → length (toy_step input room).produced ≤ room
toy_keeps [] room = omega arith
toy_keeps (b ∷ input) room = elim (Bool-cases (leb b room)) [
  | inl fits ↦
      let rest = toy_keeps input (room - b) in
      let sum = length-append (replicate b b) (toy_step input (room - b)).produced in
      let size = length-replicate {A = ℕ} b b in
      let small : b ≤ room = ground arith in rw fits (omega (arith, rest, sum, size, small))
  | inr big ↦ rw big (omega arith)
]

toy_takes :
    (input : Bytes) (room : ℕ)
    → (toy_step input room).outcome ≡ converted
    → (toy_step input room).consumed ≡ length input
toy_takes [] room h = refl
toy_takes (b ∷ input) room h = elim (Bool-cases (leb b room)) [
  | inl fits ↦
      let rest : (toy_step input (room - b)).outcome ≡ converted = rw fits at h in
      rw fits (ap suc (toy_takes input (room - b) rest))
  | inr big ↦ let none_left : failed e2big ≡ converted = rw big at h in absurd (cc)
]

abbrev toy : Converter
toy = record {
  Descriptor = Unit {0};
  open_descriptor = λ to from. ok tt;
  convert_step = λ d input room. toy_step input room;
  reset_descriptor = λ d. d;
  keeps_room = λ d input room. toy_keeps input room;
  takes_all = λ d input room. toy_takes input room;
}

convert-one_call_example :
    convert toy 2 tt (1 ∷ 2 ∷ []) (9 ∷ []) ≡ ok (some (9 ∷ 1 ∷ 2 ∷ 2 ∷ [], tt))
convert-one_call_example = convert-one_call toy 0 tt 1 (2 ∷ []) (9 ∷ []) (λ e. absurd (cc))

-- One byte is written by the first call, and 107 by the second into the 106 that are left.
convert-two_calls_example : convert toy 3 tt (1 ∷ 107 ∷ []) [] ≡ undefined
convert-two_calls_example = convert-two_calls toy 0 tt 1 107 (107 ∷ []) [] [] refl refl refl

converts_nothing : convert_string toy 1 tt [] ≡ ok (some ([], tt))
unfolding convert_string convert convert_loop
converts_nothing = refl
