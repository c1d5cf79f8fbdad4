-- ===== src/Json/Lookup/Keys.antt =====
-- What `has` (src/json.cpp) answers on an object.
use box_utils.Common.{
  ℕ, suc, ◌==◌, Bytes, Bool, true, false, ◌||◌, none, some, List, [], ◌∷◌, All, length, ok, ◌≡◌,
  ◌≢◌, refl, ap, ◌∙◌, arith, Bool-cases, inl, inr,
}
use box_utils.Json.Interface.{CJson}
use box_utils.Json.Store.{object, Store}
use box_utils.Json.Types.{cjson_of, tag, json_object, kind_type, check_is, check_is-holds}
use box_utils.Json.Iterator.Walk.{Linked}
use box_utils.Json.Lookup.{same, has_loop, has}

module _ (lib : CJson) where
  open lib use {Mem, name, child, next}

  abbrev pub HasName : Mem → ℕ → Type 0
  HasName m q = (str : Bytes) × (name m q ≡ some str)

  -- Some node of the list has the name `key`.
  abbrev pub some_named : Mem → Bytes → List ℕ → Bool
  some_named m key [] = false
  some_named m key (q ∷ ps) =
      (elim (name m q) [ none ↦ false | some str ↦ same str key ]) || some_named m key ps

  has_loop-Linked :
      (m : Mem) (key : Bytes) (p : ℕ) (ps : List ℕ)
      → Linked lib m p ps
      → All (HasName m) ps
      → has_loop lib (suc (length ps)) m p key ≡ ok (some (some_named m key ps))
  unfolding has_loop
  has_loop-Linked m key p [] l h = rw (has_loop, l) refl
  has_loop-Linked m key p (q ∷ ps) (e, ne, l) ((str, n), h) =
      let not_null : (p == 0) ≡ false = ground arith in
      let named : name m p ≡ some str = ap (name m) e ∙ n in
      let rest : has_loop lib (suc (length ps)) m (next m p) key ≡ ok (some (some_named m key ps)) =
        has_loop-Linked m key (next m p) ps l h in
      elim (Bool-cases (same str key)) [
        | inl t ↦ rw (has_loop, not_null, named, n, t) refl
        | inr f ↦ rw (has_loop, not_null, named, n, f) rest
      ]

  -- On an object whose children are linked and have names, `has` with case_sensitive comes to an
  -- end and answers whether some child has the name.
  pub has-some_named :
      (j : ℕ) (key : Bytes) (ps : List ℕ) (s : Store Mem)
      → cjson_of lib j s ≢ 0
      → tag lib j s ≡ json_object
      → Linked lib s.mem (child s.mem (cjson_of lib j s)) ps
      → All (HasName s.mem) ps
      → has lib (suc (length ps)) j key true s ≡ ok (some (some_named s.mem key ps))
  unfolding has kind_type
  has-some_named j key ps s h t linked named =
      let checked : check_is lib object j s ≡ ok (tt, s) = check_is-holds lib object j s h t in
      rw (has, checked) (has_loop-Linked s.mem key (child s.mem (cjson_of lib j s)) ps linked named)
