-- ===== src/Dylib.antt =====
-- `Dylib` (src/dylib.cpp) over the dynamic linker, whose answers are given: a handle is a number, 0
-- the null pointer, and an error a text.
use box_utils.Common.{
  Bytes, ℕ, ◌≡◌, refl, ◌≢◌, Bool, true, false, List, [], ◌∷◌, arith, ◌==◌, if◌then◌else◌,
}

pub record Dylib : Type 0 where
  pub handle : ℕ
  pub err : Bytes

pub create : Dylib
create = record { handle = 0; err = [] }

-- `open`, where `dlopen` answers `opened` and `dlerror` the text `error`.
pub open_library : ℕ → Bytes → Dylib → Bool × Dylib
open_library opened error lib =
    if opened == 0
    then (false, record lib { handle = opened; err = error })
    else (true, record lib { handle = opened })

-- `close`, and what is closed, where `dlclose` answers 0 or not.
pub close_library : Bool → Bytes → Dylib → Bool × List ℕ × Dylib
close_library closed error lib =
    if lib.handle == 0
    then (false, [], lib)
    else (if closed
        then (true, lib.handle ∷ [], record lib { handle = 0 })
        else (false, lib.handle ∷ [], record lib { err = error }))

-- The destructor: what is closed.
pub destroy : Bool → Bytes → Dylib → List ℕ
unfolding close_library
destroy closed error lib = (close_library closed error lib).1

-- `find`, where `dlsym` answers `found`.
pub find_symbol : ℕ → Bytes → Dylib → ℕ × Dylib
find_symbol found error lib = (found, if found == 0 then record lib { err = error } else lib)

-- A library that is opened while another one is open: the destructor closes the second one alone.
destroy-open_library :
    (first second : ℕ) (error : Bytes)
    → first ≢ 0
    → second ≢ 0
    → destroy true error (open_library second error (open_library first error create).1).1
      ≡ second ∷ []
unfolding destroy open_library create
destroy-open_library first second error first_set second_set =
    let f : (first == 0) ≡ false = ground arith in
    let s : (second == 0) ≡ false = ground arith in rw (f, s) (rw (destroy, s) refl)
