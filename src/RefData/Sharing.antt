-- ===== src/RefData/Sharing.antt =====
-- When the data that several `RefData` (include/Box/dataguard.hpp) share are freed.
use box_utils.Common.{
  ℕ, zero, suc, ◌+◌, ◌-◌, ◌≤◌, ◌<◌, ◌≡◌, refl, ap, ◌∙◌, ◌≢◌, true, false, Option, none, some, ◌∷◌,
  arith, leb, ◌==◌, ok, undefined,
}
use mathlib.Core.Path.{fun_ext}
use box_utils.Common.Commands.{pure, update, ◌>>=◌, ◌>>◌}
use box_utils.RefData.{
  Data, Heap, Cmd, RefData, int_max, load, store, call_delete, new_data, construct, empty,
  increment, decrement, copy, destroy, reset, get,
}

-- The same command some number of times, whatever it answers.
abbrev pub repeat : {A : Type 0} → ℕ → Cmd A → Cmd (Unit {0})
repeat zero m = pure tt
repeat (suc n) m = do m; repeat n m

-- `n` shares of the data `x`, freed by `fn`, in the cell `ptr`, over `h`.
abbrev pub shared : Heap → ℕ → ℕ → ℕ → ℕ → Heap
shared h ptr x fn n = record h {
  cells = update h.cells ptr (some (record { data_of = x; delete_fn = fn; refcount = n }));
}

-- The second of two stores at one address counts.
twice : {A : Type 0} (f : ℕ → A) (a : ℕ) (v w : A) → update (update f a v) a w ≡ update f a w
twice f a v w = fun_ext (λ b. ground arith)

load-shared :
    (h : Heap) (ptr x fn n : ℕ)
    → ptr ≢ 0
    → load ptr (shared h ptr x fn n)
      ≡ ok (record { data_of = x; delete_fn = fn; refcount = n }, shared h ptr x fn n)
unfolding load
load-shared h ptr x fn n given =
    let here : (ptr == ptr) ≡ true = ground arith in
    let set : (ptr == 0) ≡ false = ground arith in rw (here, set) refl

copy-shared :
    (h : Heap) (ptr x fn n : ℕ)
    → ptr ≢ 0
    → n < int_max
    → copy ptr (shared h ptr x fn n) ≡ ok (ptr, shared h ptr x fn (n + 1))
unfolding copy empty increment store
copy-shared h ptr x fn n given small =
    let set : (ptr == 0) ≡ false = ground arith in
    let below : (n == int_max) ≡ false = ground arith in
    rw (set, load-shared h ptr x fn n given, below) (rw (twice {A = Option Data}) refl)

decrement-shared :
    (h : Heap) (ptr x fn n : ℕ)
    → ptr ≢ 0
    → decrement ptr (shared h ptr x fn (suc (suc n))) ≡ ok (false, shared h ptr x fn (suc n))
unfolding decrement store
decrement-shared h ptr x fn n given =
    let more : leb (suc (suc n)) 1 ≡ false = ground arith in
    let less : suc (suc n) - 1 ≡ suc n = omega arith in
    rw (load-shared h ptr x fn (suc (suc n)) given)
      (rw more (rw (twice {A = Option Data}) (rw less refl)))

-- The heap after the last share is gone.
abbrev pub freed : Heap → ℕ → ℕ → ℕ → Heap
freed h ptr x fn = record h { cells = update h.cells ptr none; deleted = (fn, x) ∷ h.deleted }

decrement-last :
    (h : Heap) (ptr x fn : ℕ)
    → ptr ≢ 0
    → fn ≢ 0
    → decrement ptr (shared h ptr x fn 1) ≡ ok (true, freed h ptr x fn)
unfolding decrement store call_delete
decrement-last h ptr x fn given frees =
    let set : (fn == 0) ≡ false = ground arith in
    rw (load-shared h ptr x fn 1 given)
      (rw set (rw (twice {A = Option Data}, twice {A = Option Data}) refl))

copies-shared :
    (n : ℕ) (h : Heap) (ptr x fn k : ℕ)
    → ptr ≢ 0
    → k + n ≤ int_max
    → repeat n (copy ptr) (shared h ptr x fn k) ≡ ok (tt, shared h ptr x fn (k + n))
copies-shared zero h ptr x fn k given small =
    let same : k ≡ k + 0 = omega arith in ap (λ m. ok (tt, shared h ptr x fn m)) same
copies-shared (suc n) h ptr x fn k given small =
    let same : (k + 1) + n ≡ k + suc n = omega arith in
    rw (copy-shared h ptr x fn k given (omega (arith, small))) (
      copies-shared n h ptr x fn (k + 1) given (omega (arith, small))
      ∙ ap (λ m. ok (tt, shared h ptr x fn m)) same)

destroy-shared :
    (h : Heap) (ptr x fn n : ℕ)
    → ptr ≢ 0
    → destroy ptr (shared h ptr x fn (suc (suc n))) ≡ ok (tt, shared h ptr x fn (suc n))
unfolding destroy empty
destroy-shared h ptr x fn n given =
    let set : (ptr == 0) ≡ false = ground arith in
    rw set (rw (decrement-shared h ptr x fn n given) refl)

destroys-shared :
    (n : ℕ) (h : Heap) (ptr x fn : ℕ)
    → ptr ≢ 0
    → repeat n (destroy ptr) (shared h ptr x fn (suc n)) ≡ ok (tt, shared h ptr x fn 1)
destroys-shared zero h ptr x fn given = refl
destroys-shared (suc n) h ptr x fn given =
    rw (destroy-shared h ptr x fn n given) (destroys-shared n h ptr x fn given)

reset-shared :
    (h : Heap) (ptr x fn n : ℕ)
    → ptr ≢ 0
    → reset ptr (shared h ptr x fn (suc (suc n))) ≡ ok (ptr, shared h ptr x fn (suc n))
unfolding reset empty
reset-shared h ptr x fn n given =
    let set : (ptr == 0) ≡ false = ground arith in
    rw set (rw (decrement-shared h ptr x fn n given) refl)

reset-last :
    (h : Heap) (ptr x fn : ℕ)
    → ptr ≢ 0
    → fn ≢ 0
    → reset ptr (shared h ptr x fn 1) ≡ ok (0, freed h ptr x fn)
unfolding reset empty
reset-last h ptr x fn given frees =
    let set : (ptr == 0) ≡ false = ground arith in
    rw set (rw (decrement-last h ptr x fn given frees) refl)

-- One `RefData` reset again and again.
abbrev pub reset_again : ℕ → RefData → Cmd RefData
reset_again zero ptr = pure ptr
reset_again (suc n) ptr = do ptr ← reset ptr; reset_again n ptr

resets-shared :
    (n : ℕ) (h : Heap) (ptr x fn : ℕ)
    → ptr ≢ 0
    → fn ≢ 0
    → reset_again (suc n) ptr (shared h ptr x fn (suc n)) ≡ ok (0, freed h ptr x fn)
resets-shared zero h ptr x fn given frees = rw (reset-last h ptr x fn given frees) refl
resets-shared (suc n) h ptr x fn given frees =
    rw (reset-shared h ptr x fn n given) (resets-shared n h ptr x fn given frees)

-- `n` copies of a fresh `RefData`.
abbrev pub with_copies : ℕ → ℕ → ℕ → Cmd RefData
with_copies n x fn = do ptr ← construct x fn; repeat n (copy ptr); pure ptr

with_copies-shared :
    (n : ℕ) (h : Heap) (x fn : ℕ)
    → h.next ≢ 0
    → fn ≢ 0
    → n < int_max
    → with_copies n x fn h
      ≡ ok (h.next, shared (record h { next = h.next + 1 }) h.next x fn (suc n))
unfolding construct new_data
with_copies-shared n h x fn given frees small =
    let set : (fn == 0) ≡ false = ground arith in
    let all : 1 + n ≡ suc n = omega arith in
    rw set (
      rw
        (copies-shared n (record h { next = h.next + 1 }) h.next x fn 1 given
          (omega (arith, small)))
        (rw all refl))

-- Of a `RefData` and `n` copies, `n` are destroyed: the data are still there. The destruction of
-- the one that is left calls the function on the data, once.
pub destroys-free_last :
    (n : ℕ) (h : Heap) (x fn : ℕ)
    → h.next ≢ 0
    → fn ≢ 0
    → n < int_max
    → (ptr : RefData) × (kept : Heap) × (gone : Heap) × ((do
      ptr ← with_copies n x fn
      repeat n (destroy ptr)
      pure ptr)
          h
        ≡ ok (ptr, kept))
      × (get ptr kept ≡ ok (x, kept))
      × (kept.deleted ≡ h.deleted)
      × (destroy ptr kept ≡ ok (tt, gone))
      × (gone.deleted ≡ (fn, x) ∷ h.deleted)
unfolding get destroy empty
destroys-free_last n h x fn given frees small =
    let h' = record h { next = h.next + 1 } in
    let set : (h.next == 0) ≡ false = ground arith in
    (
      h.next,
      shared h' h.next x fn 1,
      freed h' h.next x fn,
      rw (with_copies-shared n h x fn given frees small)
          (rw (destroys-shared n h' h.next x fn given) refl),
      rw (load-shared h' h.next x fn 1 given) refl,
      refl,
      rw set (rw (decrement-last h' h.next x fn given frees) refl),
      refl,
    )

-- `reset()` on one `RefData` that shares its data with `n` others leaves it where it is, and
-- called `n + 1` times on it frees the data: to read them through the others is then undefined.
pub resets-free_shared :
    (n : ℕ) (h : Heap) (x fn : ℕ)
    → h.next ≢ 0
    → fn ≢ 0
    → n < int_max
    → (ptr : RefData) × (kept : Heap) × (gone : Heap) × (with_copies n x fn h ≡ ok (ptr, kept))
      × (reset_again (suc n) ptr kept ≡ ok (0, gone))
      × (gone.deleted ≡ (fn, x) ∷ h.deleted)
      × (get ptr gone ≡ undefined)
unfolding get load
resets-free_shared n h x fn given frees small =
    let h' = record h { next = h.next + 1 } in
    let set : (h.next == 0) ≡ false = ground arith in
    let here : (h.next == h.next) ≡ true = ground arith in
    (
      h.next,
      shared h' h.next x fn (suc n),
      freed h' h.next x fn,
      with_copies-shared n h x fn given frees small,
      resets-shared n h' h.next x fn given frees,
      refl,
      rw (set, here) refl,
    )
