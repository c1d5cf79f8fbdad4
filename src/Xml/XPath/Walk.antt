-- ===== src/Xml/XPath/Walk.antt =====
-- What the iterator of src/xpath.cpp comes to.
use box_utils.Common.{
  ℕ, zero, suc, ◌+◌, ◌-◌, ◌≡◌, refl, sym, ap, ◌∙◌, ◌≢◌, true, false, Option, none, some, List, [],
  ◌∷◌, arith, ◌==◌, if◌then◌else◌, length, get_elem?, drop, All, length-drop, ok,
}
use mathlib.Core.List.{map}
use box_utils.Common.Commands.{◌>>=◌}
use box_utils.Xml.{Store, Cmd}
use box_utils.Xml.XPath.{
  ObjectIter, tab_at, is_last, create_iter, begin, end, equals, move_on, increment, for_loop,
  for_nodes,
}

-- `s` with the node of the holder at `h` replaced.
abbrev pub with_node : {M : Type 0} → Store M → ℕ → ℕ → Store M
with_node s h p = record s {
  nodes = λ a. if a == h then record { node = p; ref = (s.nodes h).ref } else s.nodes a;
}

abbrev pub at : ℕ → Option ℕ → ObjectIter
at h i = record { node = h; where_at = i }

pub drop-rest :
    (n : ℕ) (tab : List ℕ) (p : ℕ) (rest : List ℕ)
    → drop n tab ≡ p ∷ rest
    → (get_elem? tab n ≡ some p) × (drop (n + 1) tab ≡ rest)
drop-rest zero tab p rest e = rw e (refl, refl)
drop-rest (suc n) [] p rest e = absurd (cc)
drop-rest (suc n) (q ∷ tab) p rest e =
    let next : suc n + 1 ≡ suc (n + 1) = omega arith in
    let (here, behind) = drop-rest n tab p rest e in (here, rw next behind)

is_last-drop : (tab : List ℕ) (i : ℕ) → drop (i + 1) tab ≡ [] → is_last (length tab) (some i) ≡ true
unfolding is_last
is_last-drop tab i e =
    let left : 0 ≡ length tab - (i + 1) = sym (ap length e) ∙ length-drop (i + 1) tab in
    ground arith

is_last-more :
    (tab : List ℕ) (i p : ℕ) (rest : List ℕ)
    → drop (i + 1) tab ≡ p ∷ rest
    → is_last (length tab) (some i) ≡ false
unfolding is_last
is_last-more tab i p rest e =
    let left : suc (length rest) ≡ length tab - (i + 1) =
      sym (ap length e) ∙ length-drop (i + 1) tab in
    ground arith

pub tab_at-get_elem? :
    {M : Type 0} (i : ℕ) (tab : List ℕ) (p : ℕ) (s : Store M)
    → get_elem? tab i ≡ some p
    → tab_at (some tab) i s ≡ ok (p, s)
unfolding tab_at
tab_at-get_elem? i tab p s e = rw (tab_at, e) refl

pub node-with_node : {M : Type 0} (s : Store M) (h p : ℕ) → ((with_node s h p).nodes h).node ≡ p
node-with_node s h p = let same : (h == h) ≡ true = ground arith in rw same refl

pub node-with_node_other :
    {M : Type 0} (s : Store M) (h p l : ℕ)
    → h ≢ l
    → ((with_node s h p).nodes l).node ≡ (s.nodes l).node
node-with_node_other s h p l apart = let differ : (l == h) ≡ false = ground arith in rw differ refl

equals-true :
    {M : Type 0} (h l : ℕ) (i : Option ℕ) (s : Store M)
    → (s.nodes h).node ≡ 0
    → (s.nodes l).node ≡ 0
    → equals (at h i) (at l none) s ≡ true
unfolding equals
equals-true h l i s a b = ground arith

equals-false :
    {M : Type 0} (h l : ℕ) (i : Option ℕ) (s : Store M) (p : ℕ)
    → p ≢ 0
    → (s.nodes h).node ≡ p
    → (s.nodes l).node ≡ 0
    → equals (at h i) (at l none) s ≡ false
unfolding equals
equals-false h l i s p p_set a b = ground arith

-- `s` with a new holder, a reference.
abbrev made : {M : Type 0} → Store M → ℕ → Store M
made s p = record s {
  nodes = λ h. if h == s.next_holder then record { node = p; ref = true } else s.nodes h;
  next_holder = suc s.next_holder;
}

module _ {M : Type 0} where
  pub increment-last :
      (tab : List ℕ) (h i : ℕ) (s : Store M)
      → drop (i + 1) tab ≡ []
      → increment (some tab) (at h (some i)) s ≡ ok (at h none, with_node s h 0)
  unfolding increment move_on
  increment-last tab h i s e =
      let stop : is_last (length tab) (some i) ≡ true = is_last-drop tab i e in
      rw (increment, stop) refl

  pub increment-inner :
      (tab : List ℕ) (h i p : ℕ) (rest : List ℕ) (s : Store M)
      → drop (i + 1) tab ≡ p ∷ rest
      → increment (some tab) (at h (some i)) s ≡ ok (at h (some (i + 1)), with_node s h p)
  unfolding increment move_on
  increment-inner tab h i p rest s e =
      let more : is_last (length tab) (some i) ≡ false = is_last-more tab i p rest e in
      let here = tab_at-get_elem? (i + 1) tab p s (drop-rest (i + 1) tab p rest e).0 in
      rw (increment, more) (rw (move_on, here) refl)

  for_loop-stop :
      {B : Type 0} (body : ℕ → Cmd M B) (fuel : ℕ) (set : Option (List ℕ)) (it last : ObjectIter)
      (s : Store M)
      → equals it last s ≡ true
      → for_loop body (suc fuel) set it last s ≡ ok (some [], s)
  unfolding for_loop
  for_loop-stop body fuel set it last s same = rw (for_loop, same) refl

  for_loop-step :
      {B : Type 0} (body : ℕ → Cmd M B) (fuel : ℕ) (set : Option (List ℕ))
      (it it' last : ObjectIter) (s s1 s2 : Store M) (b : B) (bs : List B)
      → equals it last s ≡ false
      → body it.node s ≡ ok (b, s)
      → increment set it s ≡ ok (it', s1)
      → for_loop body fuel set it' last s1 ≡ ok (some bs, s2)
      → for_loop body (suc fuel) set it last s ≡ ok (some (b ∷ bs), s2)
  unfolding for_loop
  for_loop-step body fuel set it it' last s s1 s2 b bs differ reads moves rest =
      rw (for_loop, differ) (rw (◌>>=◌, reads) (rw (◌>>=◌, moves) (rw (◌>>=◌, rest) refl)))

  -- A body that only reads the node of the holder.
  for_loop-visits :
      {B : Type 0} (f : ℕ → B) (body : ℕ → Cmd M B) (h l : ℕ) (tab : List ℕ) (i p : ℕ)
      (rest : List ℕ) (s : Store M)
      → ((p : ℕ) (s : Store M) → (s.nodes h).node ≡ p → body h s ≡ ok (f p, s))
      → h ≢ l
      → (s.nodes l).node ≡ 0
      → (s.nodes h).node ≡ p
      → All (λ q. q ≢ 0) (p ∷ rest)
      → drop (i + 1) tab ≡ rest
      → (s' : Store M) × (for_loop body
            (suc (suc (length rest)))
            (some tab)
            (at h (some i))
            (at l none)
            s
          ≡ ok (some (map f (p ∷ rest)), s'))
        × ((s'.nodes h).node ≡ 0)
  for_loop-visits f body h l tab i p [] s reads apart at_end here (p_set, all_set) left =
      let s' = with_node s h 0 in
      let self : (s'.nodes h).node ≡ 0 = node-with_node s h 0 in
      let other : (s'.nodes l).node ≡ 0 = node-with_node_other s h 0 l apart ∙ at_end in
      (
        s',
        for_loop-step body 1 (some tab) (at h (some i)) (at h none) (at l none) s s' s' (f p) []
            (equals-false h l (some i) s p p_set here at_end) (reads p s here)
            (increment-last tab h i s left)
            (for_loop-stop body 0 (some tab) (at h none) (at l none) s'
              (equals-true h l none s' self other)),
        self,
      )
  for_loop-visits f body h l tab i p (q ∷ rest) s reads apart at_end here (p_set, all_set) left =
      let s1 = with_node s h q in
      let (s', runs, null) =
        for_loop-visits f body h l tab (i + 1) q rest s1 reads apart
          (node-with_node_other s h q l apart ∙ at_end) (node-with_node s h q) all_set
          (drop-rest (i + 1) tab q rest left).1 in
      (
        s',
        for_loop-step body (suc (suc (length rest))) (some tab) (at h (some i))
            (at h (some (i + 1))) (at l none) s s1 s' (f p) (map f (q ∷ rest))
            (equals-false h l (some i) s p p_set here at_end) (reads p s here)
            (increment-inner tab h i q rest s left) runs,
        null,
      )

  -- A loop over all nodes whose body only reads the node that the iterator is at.
  pub for_nodes-visits :
      {B : Type 0} (f : ℕ → B) (body : ℕ → Cmd M B) (p : ℕ) (rest : List ℕ) (s : Store M)
      → ((q : ℕ) (s' : Store M)
          → (s'.nodes s.next_holder).node ≡ q
          → body s.next_holder s' ≡ ok (f q, s'))
      → All (λ q. q ≢ 0) (p ∷ rest)
      → (s' : Store M) × (for_nodes body (suc (suc (length rest))) (some (p ∷ rest)) s
          ≡ ok (some (map f (p ∷ rest)), s'))
        × ((s'.nodes s.next_holder).node ≡ 0)
  unfolding for_nodes begin end create_iter
  for_nodes-visits f body p rest s reads all_set =
      let h = s.next_holder in
      let s1 = made s p in
      let s2 = made s1 0 in
      let first : (s2.nodes h).node ≡ p = ground arith in
      let last : (s2.nodes (suc h)).node ≡ 0 = ground arith in
      for_loop-visits f body h (suc h) (p ∷ rest) 0 p rest s2 reads (omega arith) last first all_set
        refl
