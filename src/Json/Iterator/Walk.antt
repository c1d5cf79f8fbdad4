-- ===== src/Json/Iterator/Walk.antt =====
-- Walks with the iterator of src/json.cpp.
use box_utils.Common.{
  ◌>>=◌, ℕ, suc, zero, ◌<◌, Option, none, some, ◌||◌, if◌then◌else◌, throw, List, [], ◌∷◌, ◌==◌,
  true, false, ok, Run, ◌≡◌, ◌≢◌, refl, sym, length, arith, ap,
}
use box_utils.Json.Interface.{CJson}
use box_utils.Json.Store.{Error, null_ptr_exception, Store}
use box_utils.Json.Types.{cjson_of}
use box_utils.Json.Iterator.{
  JsonIterator, find_last, first_child, begin, end, increment, decrement, equal,
}

module _ (lib : CJson) where
  open lib use {Mem, Int, child, next, is_array, is_object}

  -- The nodes from `p` on, each with its `next`, are `ps`.
  abbrev pub Linked : Mem → ℕ → List ℕ → Type 0
  Linked m p [] = p ≡ 0
  Linked m p (q ∷ ps) = (p ≡ q) × (p ≢ 0) × Linked m (next m p) ps

  abbrev pub last : ℕ → List ℕ → ℕ
  last p [] = p
  last p (q ∷ ps) = last q ps

  -- `for(it = begin; it != end; ++ it)`, and the nodes that it comes to.
  pub collect : ℕ → Mem → JsonIterator → JsonIterator → Run (Error Int) (Option (List ℕ))
  unfolding increment equal
  collect zero m it stop = ok none
  collect (suc fuel) m it stop = elim (equal lib it stop) [
    | true ↦ ok (some [])
    | false ↦ do
      it' ← increment lib m it
      rest ← collect fuel m it' stop
      elim rest [ none ↦ ok none | some ps ↦ ok (some (it.cjson ∷ ps)) ]
  ]

  absurd : {n : ℕ} → n < 0 → ⊥
  absurd h = omega (arith, h)

  find_last-Linked :
      (m : Mem) (fuel p : ℕ) (ps : List ℕ)
      → Linked m p (p ∷ ps)
      → length ps < fuel
      → find_last lib fuel m p ≡ some (last p ps)
  unfolding find_last
  find_last-Linked m zero p ps l h = elim (absurd h) [ ]
  find_last-Linked m (suc fuel) p [] (e, ne, z) h = rw (find_last, z) refl
  find_last-Linked m (suc fuel) p (q ∷ ps) (e, ne, (e', ne', l)) h =
      let rest : find_last lib fuel m (next m p) ≡ some (last q ps) =
        rw e' (
          find_last-Linked m fuel q ps (refl, rw (sym e') ne', rw (sym e') l) (omega (arith, h))) in
      let not_null : (next m p == 0) ≡ false = ground arith in rw (find_last, not_null) rest

  last-nonzero : (m : Mem) (p : ℕ) (ps : List ℕ) → Linked m p (p ∷ ps) → last p ps ≢ 0
  last-nonzero m p [] (e, ne, z) = ne
  last-nonzero m p (q ∷ ps) (e, ne, (e', ne', l)) =
      last-nonzero m q ps (refl, rw (sym e') ne', rw (sym e') l)

  collect-Linked :
      (m : Mem) (fuel p before q : ℕ) (ps : List ℕ)
      → Linked m p ps
      → length ps < fuel
      → collect fuel m (record { cjson = p; prev = before }) (record { cjson = 0; prev = q })
        ≡ ok (some ps)
  unfolding collect
  collect-Linked m zero p before q ps l h = elim (absurd h) [ ]
  collect-Linked m (suc fuel) p before q [] l h = rw l refl
  collect-Linked m (suc fuel) p before q (r ∷ ps) (e, ne, l) h =
      let before' : ℕ = if next m p == 0 then p else before in
      let rest : collect fuel m (record { cjson = next m p; prev = before' })
            (record { cjson = 0; prev = q })
          ≡ ok (some ps) =
        collect-Linked m fuel (next m p) before' q ps l (omega (arith, h)) in
      let not_null : (p == 0) ≡ false = ground arith in
      let moved : increment lib m (record { cjson = p; prev = before })
          ≡ ok (record { cjson = next m p; prev = before' }) =
        unfold increment in rw not_null refl in
      rw (collect, not_null, moved, rest) (ap (λ x. ok (some (x ∷ ps))) e)

  -- On an array or object whose children are linked in the order `p ∷ ps`, the loop from `begin` to
  -- `end` comes to each child in that order and ends, and one step back from `end` is the last.
  pub walk-visits :
      (j p : ℕ) (ps : List ℕ) (s : Store Mem)
      → (is_array s.mem (cjson_of lib j s) || is_object s.mem (cjson_of lib j s)) ≡ true
      → child s.mem (cjson_of lib j s) ≡ p
      → Linked s.mem p (p ∷ ps)
      → (first : JsonIterator) × (stop : JsonIterator) × (begin lib j s ≡ ok first)
        × (end lib (suc (length ps)) j s ≡ ok (some stop))
        × (collect (suc (suc (length ps))) s.mem first stop ≡ ok (some (p ∷ ps)))
        × (decrement lib s.mem stop ≡ ok (record { cjson = last p ps; prev = 0 }))
  unfolding begin end first_child decrement
  walk-visits j p ps s listed first linked =
      let not_null : (p == 0) ≡ false = ground (arith, linked) in
      let found : find_last lib (suc (length ps)) s.mem p ≡ some (last p ps) =
        find_last-Linked s.mem (suc (length ps)) p ps linked (omega arith) in
      let last_not_zero : last p ps ≢ 0 = last-nonzero s.mem p ps linked in
      let last_not_null : (last p ps == 0) ≡ false = ground arith in
      (
        record { cjson = p; prev = 0 },
        record { cjson = 0; prev = last p ps },
        rw (listed, first, not_null) refl,
        rw (listed, first, not_null, found) refl,
        collect-Linked s.mem (suc (suc (length ps))) p 0 (last p ps) (p ∷ ps) linked (omega arith),
        rw last_not_null refl,
      )

  -- An array or object without children has no iterators: `begin` and `end` throw.
  empty-has_no_iterators :
      (fuel j : ℕ) (s : Store Mem)
      → (is_array s.mem (cjson_of lib j s) || is_object s.mem (cjson_of lib j s)) ≡ true
      → child s.mem (cjson_of lib j s) ≡ 0
      → (begin lib j s ≡ throw null_ptr_exception) × (end lib fuel j s ≡ throw null_ptr_exception)
  unfolding begin end first_child
  empty-has_no_iterators fuel j s listed none_there =
      (rw (listed, none_there) refl, rw (listed, none_there) refl)
