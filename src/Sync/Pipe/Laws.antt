-- ===== src/Sync/Pipe/Laws.antt =====
-- What a `Pipe` (include/Box/sync/pipe.hpp) promises.
use box_utils.Common.{
  ◌>>=◌, if◌then◌else◌, true, false, Option, none, some, List, [], ◌∷◌, ◌++◌, append-nil,
  append_assoc, Run, ok, throw, undefined, ◌≡◌, refl, sym, ap, ◌∙◌,
}
use box_utils.Sync.Pipe.{
  Error, deadlock, Pipe, Answer, value, nothing, waiting, write, try_read, read, read_woken,
  read_timed, is_empty,
}

module _ {ℓ} {A : Type ℓ} where
  -- A call: `some x` for `write(x)`, `none` for `try_read`.
  abbrev pub written : List (Option A) → List A
  written [] = []
  written (some x ∷ calls) = x ∷ written calls
  written (none ∷ calls) = written calls

  -- The value of an answer in front of the others.
  abbrev received : Answer A → List A → List A
  received (value x) xs = x ∷ xs
  received nothing xs = xs
  received waiting xs = xs

  -- The values that the calls read, in their order.
  unfoldable pub run : List (Option A) → Pipe A → Run Error (List A × Pipe A)
  unfolding write try_read
  run [] p = ok ([], p)
  run (some x ∷ calls) p = do p ← write x p; run calls p
  run (none ∷ calls) p = do (a, p) ← try_read p; (xs, p) ← run calls p; ok (received a xs, p)

  write-adds :
      (x : A) (p : Pipe A)
      → p.locked ≡ false
      → (p' : Pipe A) × (write x p ≡ ok p')
        × (p'.locked ≡ false)
        × (p'.data_queue ≡ p.data_queue ++ x ∷ [])
  unfolding write
  write-adds x p free = (
    record {
      data_queue = p.data_queue ++ x ∷ [];
      locked = false;
      is_set = (if is_empty p.data_queue then true else p.is_set);
    },
    rw free refl,
    refl,
    refl,
  )

  read-takes :
      (p : Pipe A) (q : List A)
      → p.locked ≡ false
      → p.data_queue ≡ q
      → (a : Answer A) × (p' : Pipe A) × (try_read p ≡ ok (a, p'))
        × (p'.locked ≡ false)
        × (received a [] ++ p'.data_queue ≡ q)
  unfolding try_read
  read-takes p [] free e = (nothing, record p { locked = false }, rw (free, e) refl, refl, e)
  read-takes p (x ∷ q) free e = (
    value x,
    record { data_queue = q; locked = false; is_set = p.is_set },
    rw (free, e) refl,
    refl,
    refl,
  )

  received-append :
      (a : Answer A) (xs ys : List A) → received a xs ++ ys ≡ received a [] ++ (xs ++ ys)
  received-append (value x) xs ys = refl
  received-append nothing xs ys = refl
  received-append waiting xs ys = refl

  -- Any sequence of `write` and `try_read` on a pipe that nobody has locked runs to its end and
  -- leaves it unlocked; what was read and what is left is what was there and what was written, in
  -- the order of the writes.
  pub run_fifo :
      (calls : List (Option A)) (p : Pipe A)
      → p.locked ≡ false
      → (xs : List A) × (p' : Pipe A) × (run calls p ≡ ok (xs, p'))
        × (p'.locked ≡ false)
        × (xs ++ p'.data_queue ≡ p.data_queue ++ written calls)
  unfolding run write try_read
  run_fifo [] p free = ([], p, refl, free, sym (append-nil p.data_queue))
  run_fifo (some x ∷ calls) p free =
      let (p1, wrote, free1, queue1) = write-adds x p free in
      let (xs, p', ran, free', sum) = run_fifo calls p1 free1 in
      (
        xs,
        p',
        rw wrote ran,
        free',
        sum
            ∙ ap (λ q. q ++ written calls) queue1
            ∙ append_assoc p.data_queue (x ∷ []) (written calls),
      )
  run_fifo (none ∷ calls) p free =
      let (a, p1, took, free1, queue1) = read-takes p p.data_queue free refl in
      let (xs, p', ran, free', sum) = run_fifo calls p1 free1 in
      (
        received a xs,
        p',
        rw (took, ran) refl,
        free',
        received-append a xs p'.data_queue
            ∙ ap (λ l. received a [] ++ l) sum
            ∙ sym (append_assoc (received a []) p1.data_queue (written calls))
            ∙ ap (λ q. q ++ written calls) queue1,
      )

  -- A timed read that finds a value returns it and leaves the mutex locked: the next `write`,
  -- `try_read` and `read` lock it again and never come back.
  pub read_timed-keeps_lock :
      (x y : A) (q : List A) (p : Pipe A)
      → p.locked ≡ false
      → p.data_queue ≡ x ∷ q
      → (p' : Pipe A) × (read_timed p ≡ ok (value x, p'))
        × (p'.data_queue ≡ q)
        × (write y p' ≡ throw deadlock)
        × (try_read p' ≡ throw deadlock)
        × (read p' ≡ throw deadlock)
  unfolding read_timed write try_read read
  read_timed-keeps_lock x y q p free e = (
    record { data_queue = q; locked = true; is_set = p.is_set },
    rw (free, e) refl,
    refl,
    refl,
    refl,
    refl,
  )

  -- Two readers wait on an empty pipe; a write sets the event that both wait for. The first one
  -- behind its wait reads the value, the second one reads the front of an empty queue.
  pub read-second_woken :
      (x : A) (p : Pipe A)
      → p.locked ≡ false
      → p.data_queue ≡ []
      → (p1 : Pipe A) × (p2 : Pipe A) × (p3 : Pipe A) × (read p ≡ ok (waiting, p1))
        × (p1.is_set ≡ false)
        × (read p1 ≡ ok (waiting, p1))
        × (write x p1 ≡ ok p2)
        × (p2.is_set ≡ true)
        × (read_woken p2 ≡ ok (value x, p3))
        × (read_woken p3 ≡ undefined)
  unfolding read write read_woken
  read-second_woken x p free e = (
    record { data_queue = []; locked = false; is_set = false },
    record { data_queue = x ∷ []; locked = false; is_set = true },
    record { data_queue = []; locked = false; is_set = true },
    rw (free, e) refl,
    refl,
    refl,
    refl,
    refl,
    refl,
    refl,
  )
