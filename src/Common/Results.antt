-- ===== src/Common/Results.antt =====
-- What a piece of C++ comes to: a result, an exception, `abort`, or behaviour that C++ leaves
-- undefined (a read outside an object, a null or dangling pointer).
use mathlib.Core.Option.{Option, none, some}
use mathlib.Core.Path.{◌≡◌, refl}
use mathlib.Core.Logic.{◌⊎◌, inl, inr}

pub data Run {ℓ κ} (E : Type ℓ) (A : Type κ) : Type (ℓ ⊔ κ) where
  ok : A → Run E A
  throw : E → Run E A
  undefined : Run E A
  aborted : Run E A

infixl 5 ◌>>=◌ ◌>>◌
abbrev pub ◌>>=◌ {ℓ κ μ} :
    {E : Type ℓ} {A : Type κ} {B : Type μ} → Run E A → (A → Run E B) → Run E B
ok a >>= k = k a
throw e >>= k = throw e
undefined >>= k = undefined
aborted >>= k = aborted

abbrev pub ◌>>◌ {ℓ κ} : {E : Type ℓ} {B : Type κ} → Run E (Unit {0}) → Run E B → Run E B
m >> k = m >>= λ _. k

-- A read that is undefined where there is nothing to read.
abbrev pub deref {ℓ κ} : {E : Type ℓ} {A : Type κ} → Option A → Run E A
deref none = undefined
deref (some a) = ok a

-- The run neither throws nor aborts.
abbrev pub Quiet {ℓ κ} : {E : Type ℓ} {A : Type κ} → Run E A → Type 0
Quiet (ok a) = Unit
Quiet (throw e) = ⊥
Quiet undefined = Unit
Quiet aborted = ⊥

-- Such a run has a result or is undefined.
pub Quiet-cases {ℓ κ} :
    {E : Type ℓ} {A : Type κ} (m : Run E A) → Quiet m → ((a : A) × (m ≡ ok a)) ⊎ (m ≡ undefined)
Quiet-cases (ok a) h = inl (a, refl)
Quiet-cases (throw e) h = absurd h
Quiet-cases undefined h = inr refl
Quiet-cases aborted h = absurd h

pub deref-Quiet {ℓ κ} : {A : Type κ} (E : Type ℓ) (o : Option A) → Quiet (deref {E = E} o)
deref-Quiet E none = tt
deref-Quiet E (some a) = tt

pub bind-Quiet {ℓ κ μ} :
    {E : Type ℓ} {A : Type κ} {B : Type μ} (m : Run E A) (k : A → Run E B)
    → Quiet m
    → ((a : A) → Quiet (k a))
    → Quiet (m >>= k)
bind-Quiet (ok a) k hm hk = hk a
bind-Quiet (throw e) k hm hk = hm
bind-Quiet undefined k hm hk = tt
bind-Quiet aborted k hm hk = hm
