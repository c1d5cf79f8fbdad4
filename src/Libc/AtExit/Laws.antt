-- ===== src/Libc/AtExit/Laws.antt =====
-- Which handlers src/libc/atexit.c calls.
use box_utils.Common.{ℕ, ◌≡◌, refl, ◌≢◌, inl, inr, false, List, [], ◌∷◌, arith, ◌==◌, Bool-cases}
use box_utils.Libc.AtExit.{BoxExitHandler, call_handlers, atexit_ex, atexit_once, atexit}

-- Registrations one after the other.
pub register : List BoxExitHandler → List BoxExitHandler → List BoxExitHandler
register [] exit_handlers = exit_handlers
register (hd ∷ hds) exit_handlers = register hds (atexit_ex hd exit_handlers)

one-stays : (hd first : BoxExitHandler) → atexit_ex hd (first ∷ []) ≡ first ∷ []
unfolding atexit_ex
one-stays hd first = elim (Bool-cases (hd.fn == 0)) [ inl t ↦ rw t refl | inr f ↦ rw f refl ]

register-one :
    (first : BoxExitHandler) (hds : List BoxExitHandler) → register hds (first ∷ []) ≡ first ∷ []
unfolding register
register-one first [] = refl
register-one first (hd ∷ hds) = rw (one-stays hd first) (register-one first hds)

-- The handler that is registered first (of a function that is not null) is the only one that is ever
-- called: whatever is registered behind it, with any priority and also by `Box_atexit_once`, is lost.
pub register-only_first :
    (first : BoxExitHandler) (hds : List BoxExitHandler) (fn nice : ℕ)
    → first.fn ≢ 0
    → (call_handlers (register (first ∷ hds) []) ≡ (first.fn, first.param) ∷ [])
      × (call_handlers (atexit_once fn nice (register (first ∷ hds) []))
          ≡ (first.fn, first.param) ∷ [])
unfolding register call_handlers atexit_once atexit
register-only_first first hds fn nice h =
    let given : (first.fn == 0) ≡ false = ground arith in
    let kept : register (first ∷ hds) [] ≡ first ∷ [] = rw given (register-one first hds) in
    (rw kept refl, rw kept (ground arith))
