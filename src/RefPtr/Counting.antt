-- ===== src/RefPtr/Counting.antt =====
-- How many variables share a counter.
use box_utils.Common.{
  ℕ, zero, suc, ◌+◌, ◌≤◌, ◌<◌, ◌≡◌, inl, inr, List, [], ◌∷◌, arith, ◌==◌, if◌then◌else◌, ==_iff,
  Bool-cases, length, set,
}
use box_utils.RefPtr.{RefPtr}
use box_utils.RefPtr.World.{slot}

abbrev pub hit : ℕ → RefPtr → ℕ
hit a r = if r.refcount == a then 1 else 0

abbrev pub owners : ℕ → List RefPtr → ℕ
owners a [] = 0
owners a (r ∷ vars) = hit a r + owners a vars

-- A write exchanges what the slot adds to the count.
pub owners-set :
    (a : ℕ) (vars : List RefPtr) (i : ℕ) (r : RefPtr)
    → i < length vars
    → owners a (set vars i r) + hit a (slot vars i) ≡ owners a vars + hit a r
owners-set a [] i r h = absurd (omega arith)
owners-set a (x ∷ vars) zero r h = omega arith
owners-set a (x ∷ vars) (suc i) r h = omega (arith, owners-set a vars i r (omega arith))

pub hit-le-owners :
    (a : ℕ) (vars : List RefPtr) (i : ℕ) → 0 < a → hit a (slot vars i) ≤ owners a vars
hit-le-owners a [] i h = ground arith
hit-le-owners a (x ∷ vars) zero h = omega arith
hit-le-owners a (x ∷ vars) (suc i) h = omega (arith, hit-le-owners a vars i h)

pub owners-le-length : (a : ℕ) (vars : List RefPtr) → owners a vars ≤ length vars
owners-le-length a [] = omega arith
owners-le-length a (x ∷ vars) = ground (arith, owners-le-length a vars)

pub hit_self : (r : RefPtr) → hit r.refcount r ≡ 1
hit_self r = ground arith

-- A count above zero shows a variable.
pub owner :
    (a : ℕ) (vars : List RefPtr) → 0 < owners a vars → (i : ℕ) × ((slot vars i).refcount ≡ a)
owner a [] h = absurd (omega arith)
owner a (x ∷ vars) h = elim (Bool-cases (x.refcount == a)) [
  | inl e ↦ (0, (==_iff x.refcount a).0 e)
  | inr e ↦ let (i, p) = owner a vars (ground (arith, e)) in (suc i, p)
]
