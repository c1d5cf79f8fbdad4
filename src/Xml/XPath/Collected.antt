-- ===== src/Xml/XPath/Collected.antt =====
-- What programs see of the iterator of src/xpath.cpp: the nodes in a loop and behind it, and the way
-- back.
use box_utils.Common.{
  ℕ, zero, suc, ◌+◌, ◌-◌, ◌<◌, ◌≡◌, refl, sym, ap, ◌∙◌, ◌≢◌, Option, none, some, List, [], ◌∷◌,
  arith, length, get_elem?, drop, All, length-drop, ok,
}
use mathlib.Core.List.{map}
use box_utils.Common.Commands.{◌>>=◌, pure}
use box_utils.Xml.{Store, node_at}
use box_utils.Xml.XPath.{back_from, move_back, increment, decrement, for_nodes, collect_to}
use box_utils.Xml.XPath.Walk.{
  with_node, at, node-with_node, tab_at-get_elem?, increment-last, increment-inner,
  for_nodes-visits,
}

map_same : (l : List ℕ) → map (λ p. p) l ≡ l
map_same [] = refl
map_same (p ∷ l) = ap (λ l. p ∷ l) (map_same l)

get_elem?-length : (i : ℕ) (tab : List ℕ) (p : ℕ) → get_elem? tab i ≡ some p → i < length tab
get_elem?-length i [] p e = absurd (cc)
get_elem?-length zero (q ∷ tab) p e = omega arith
get_elem?-length (suc i) (q ∷ tab) p e = omega (arith, get_elem?-length i tab p e)

module _ {M : Type 0} where
  -- On a node set that is not empty, with no null pointer in it: a loop over the object sees its
  -- nodes in their order, and comes to its end.
  pub for_nodes-node_at :
      (p : ℕ) (rest : List ℕ) (s : Store M)
      → All (λ q. q ≢ 0) (p ∷ rest)
      → (s' : Store M) × (for_nodes node_at (suc (suc (length rest))) (some (p ∷ rest)) s
          ≡ ok (some (p ∷ rest), s'))
  unfolding node_at
  for_nodes-node_at p rest s all_set =
      let (s', runs, null) =
        for_nodes-visits (λ q. q) node_at p rest s (λ q s' e. ap (λ x. ok (x, s')) e) all_set in
      (s', runs ∙ ap (λ l. ok (some l, s')) (map_same (p ∷ rest)))

  -- On a node set that is not empty, with no null pointer in it, collect_to comes to its end and
  -- gives a Node for each node of the set; all of them have the holder of the iterator, which is at
  -- the null pointer.
  pub collect_to-null :
      (p : ℕ) (rest : List ℕ) (s : Store M)
      → All (λ q. q ≢ 0) (p ∷ rest)
      → (s' : Store M) × (collect_to (suc (suc (length rest))) (some (p ∷ rest)) s
          ≡ ok (some (map (λ q. s.next_holder) (p ∷ rest)), s'))
        × ((s'.nodes s.next_holder).node ≡ 0)
  unfolding collect_to
  collect_to-null p rest s all_set =
      for_nodes-visits (λ q. s.next_holder) (λ h. pure h) p rest s (λ q s' e. refl) all_set

  decrement-to :
      (tab : List ℕ) (h : ℕ) (i : Option ℕ) (j q : ℕ) (s : Store M)
      → back_from i (length tab) ≡ some j
      → get_elem? tab j ≡ some q
      → decrement (some tab) (at h i) s ≡ ok (at h (some j), with_node s h q)
  unfolding decrement move_back
  decrement-to tab h i j q s back found =
      rw (decrement, back) (rw (move_back, tab_at-get_elem? j tab q s found) refl)

  round_trip :
      (tab : List ℕ) (h i p : ℕ) (rest : List ℕ) (s : Store M)
      → get_elem? tab i ≡ some p
      → drop (i + 1) tab ≡ rest
      → (s' : Store M) × ((increment (some tab) (at h (some i)) >>= decrement (some tab)) s
          ≡ ok (at h (some i), s'))
        × ((s'.nodes h).node ≡ p)
  unfolding back_from
  round_trip tab h i p [] s found left =
      let behind : 0 ≡ length tab - (i + 1) = sym (ap length left) ∙ length-drop (i + 1) tab in
      let inside : i < length tab = get_elem?-length i tab p found in
      let all : length tab ≡ suc i = omega (arith, behind, inside) in
      let s1 = with_node s h 0 in
      (
        with_node s1 h p,
        rw (◌>>=◌, increment-last tab h i s left)
            (decrement-to tab h none i p s1 (ap (back_from none) all) found),
        node-with_node s1 h p,
      )
  round_trip tab h i p (q ∷ rest) s found left =
      let s1 = with_node s h q in
      let next : i + 1 ≡ suc i = omega arith in
      (
        with_node s1 h p,
        rw (◌>>=◌, increment-inner tab h i q rest s left)
            (decrement-to tab h (some (i + 1)) i p s1
              (ap (λ n. back_from (some n) (length tab)) next) found),
        node-with_node s1 h p,
      )

  -- From each node of a set, a step forth (to the next node, or from the last one to the end) and a
  -- step back lead to the same position and the same node.
  pub decrement-increment :
      (tab : List ℕ) (h i p : ℕ) (s : Store M)
      → get_elem? tab i ≡ some p
      → (s' : Store M) × ((increment (some tab) (at h (some i)) >>= decrement (some tab)) s
          ≡ ok (at h (some i), s'))
        × ((s'.nodes h).node ≡ p)
  decrement-increment tab h i p s found = round_trip tab h i p (drop (i + 1) tab) s found refl
