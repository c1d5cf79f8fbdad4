-- ===== src/Subprocess/Examples.antt =====
-- The theorem on src/subprocess.cpp at a concrete table.
use box_utils.Common.{
  ℕ, ◌≡◌, refl, ◌⊎◌, inl, true, false, none, some, [], ◌∷◌, ltb, if◌then◌else◌, All, ok,
}
use box_utils.Subprocess.{other, Table, create, destroy, returned, After, run}
use box_utils.Subprocess.Descriptors.{system, run-destroy}

-- The first three descriptors are open.
abbrev table : Table
table fd = if ltb fd 3 then some (other fd) else none

free : All {A = ℕ} (λ fd. table fd ≡ none) (3 ∷ 4 ∷ 5 ∷ 6 ∷ 7 ∷ 8 ∷ 9 ∷ 10 ∷ [])
free = (refl, (refl, (refl, (refl, (refl, (refl, (refl, (refl, tt))))))))

-- Input and output are redirected, and the child finds no such program.
run-destroy_example :
    (a : After) × (run true true false 1
        (system true true false 3 4 5 6 7 8 9 10 table free (inl 77) (some 2))
        create
        table
      ≡ ok a)
    × ((a.outcome ≡ returned) ⊎ ((x : ℕ) → a.table x ≡ table x))
    × ((x : ℕ) → destroy a.process a.table x ≡ table x)
run-destroy_example = run-destroy true true false 3 4 5 6 7 8 9 10 table free 0 (inl 77) (some 2)
