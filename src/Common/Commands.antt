-- ===== src/Common/Commands.antt =====
-- Commands on a state: what a member function comes to on an explicit heap.
use Prim.Native.Nat.{ℕ}
use box_utils.Common.Tests.{◌==◌, if◌then◌else◌}
use box_utils.Common.Results.{Run, ok, throw, undefined, aborted}

abbrev pub Command : Type 0 → Type 0 → Type 0 → Type 0
Command S E A = S → Run E (A × S)

abbrev pub pure : {S E A : Type 0} → A → Command S E A
pure a s = ok (a, s)

abbrev pub crash : {S E A : Type 0} → Command S E A
crash s = undefined

-- A failed `assert`.
abbrev pub fail : {S E A : Type 0} → Command S E A
fail s = aborted

abbrev pub continue : {S E A B : Type 0} → Run E (A × S) → (A → Command S E B) → Run E (B × S)
continue (ok (a, s)) k = k a s
continue (throw e) k = throw e
continue undefined k = undefined
continue aborted k = aborted

infixl 5 ◌>>=◌ ◌>>◌
abbrev pub ◌>>=◌ : {S E A B : Type 0} → Command S E A → (A → Command S E B) → Command S E B
m >>= k = λ s. continue (m s) k

abbrev pub ◌>>◌ : {S E A B : Type 0} → Command S E A → Command S E B → Command S E B
m >> k = m >>= λ _. k

abbrev pub update : {A : Type 0} → (ℕ → A) → ℕ → A → ℕ → A
update f a v b = if b == a then v else f b

abbrev pub raise : {S E A : Type 0} → E → Command S E A
raise e s = throw e

abbrev pub gets : {S E A : Type 0} → (S → A) → Command S E A
gets f s = ok (f s, s)

abbrev pub modify : {S E : Type 0} → (S → S) → Command S E (Unit {0})
modify f s = ok (tt, f s)
