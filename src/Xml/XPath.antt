-- ===== src/Xml/XPath.antt =====
-- `Object` and its iterator (src/xpath.cpp, include/Box/xpath.hpp). The node set of an object is the
-- list of the addresses in its `nodeTab`, `none` where `nodesetval` is null. The iterator keeps a
-- `Node`, that is, the address of a holder, and its `int where`, `none` for -1.
pub mod Contexts
pub mod Walk
pub mod Collected
use box_utils.Common.{
  ℕ, zero, suc, ◌+◌, ◌-◌, Bool, true, false, Option, none, some, List, [], ◌∷◌, ◌++◌, length,
  get_elem?, ok, undefined, ◌==◌, leb, not, if◌then◌else◌,
}
use box_utils.Common.Commands.{◌>>=◌, ◌>>◌, pure, crash, gets}
use box_utils.Xml.{Error, NodeHolder, Store, Cmd, create_node_holder}

pub record ObjectIter : Type 0 where
  pub node : ℕ
  pub where_at : Option ℕ

-- `nodesetval->nodeTab[i]`, undefined outside the set.
pub tab_at : {M : Type 0} → Option (List ℕ) → ℕ → Cmd M ℕ
tab_at none i s = undefined
tab_at (some tab) i s = elim (get_elem? tab i) [ none ↦ undefined | some p ↦ ok (p, s) ]

-- `nodesetval->nodeNr`
pub size : {M : Type 0} → Option (List ℕ) → Cmd M ℕ
size none s = undefined
size (some tab) s = ok (length tab, s)

-- `xmlXPathNodeSetIsEmpty`
pub empty : Option (List ℕ) → Bool
empty none = true
empty (some []) = true
empty (some (p ∷ tab)) = false

-- `node.holder->node = p`
pub put_node : {M : Type 0} → ℕ → ℕ → Cmd M (Unit {0})
put_node h p s = ok (
  tt,
  record s {
    nodes = λ a. if a == h then record { node = p; ref = (s.nodes h).ref } else s.nodes a;
  },
)

-- `where + 1`
pub successor : Option ℕ → ℕ
successor none = 0
successor (some i) = i + 1

-- `where + 1 >= max`
pub is_last : ℕ → Option ℕ → Bool
unfolding successor
is_last max at = leb max (successor at)

-- Where `operator --` moves to in a table of `max` nodes, `none` for -1.
pub back_from : Option ℕ → ℕ → Option ℕ
back_from (some zero) max = some 0
back_from (some (suc i)) max = some i
back_from none zero = none
back_from none (suc n) = some n

module _ {M : Type 0} where
  -- The constructor of the iterator.
  pub create_iter : ℕ → Option ℕ → Cmd M ObjectIter
  unfolding create_node_holder
  create_iter p at = do h ← create_node_holder p true; pure (record { node = h; where_at = at })

  pub begin : Option (List ℕ) → Cmd M ObjectIter
  unfolding empty tab_at create_iter
  begin set = elim (empty set) [
    | true ↦ create_iter 0 none
    | false ↦ do p ← tab_at set 0; create_iter p (some 0)
  ]

  pub end : Cmd M ObjectIter
  unfolding create_iter
  end = create_iter 0 none

  -- `operator ==`
  pub equals : ObjectIter → ObjectIter → Store M → Bool
  equals a b s = (s.nodes a.node).node == (s.nodes b.node).node

  -- The two branches of `operator ++`.
  pub move_on : Bool → Option (List ℕ) → ObjectIter → Cmd M ObjectIter
  unfolding put_node successor
  move_on true set it = do put_node it.node 0; pure (record it { where_at = none })
  move_on false set it = do
    p ← tab_at set (successor it.where_at)
    put_node it.node p
    pure (record it { where_at = some (successor it.where_at) })

  -- `operator ++`
  pub increment : Option (List ℕ) → ObjectIter → Cmd M ObjectIter
  unfolding size
  increment set it = do max ← size set; move_on (is_last max it.where_at) set it

  -- The end of `operator --`; it is undefined at -1, in front of the table.
  pub move_back : Option ℕ → Option (List ℕ) → ObjectIter → Cmd M ObjectIter
  unfolding put_node
  move_back none set it = crash
  move_back (some i) set it = do
    p ← tab_at set i
    put_node it.node p
    pure (record it { where_at = some i })

  -- `operator --`
  pub decrement : Option (List ℕ) → ObjectIter → Cmd M ObjectIter
  unfolding size
  decrement set it = do max ← size set; move_back (back_from it.where_at max) set it

  -- The loop `for(auto &node:*this)`, with what its body, given the address of the holder, answers
  -- each time; `none` where the fuel does not do.
  pub for_loop :
      {B : Type 0}
      → (ℕ → Cmd M B)
      → ℕ
      → Option (List ℕ)
      → ObjectIter
      → ObjectIter
      → Cmd M (Option (List B))
  for_loop body zero set it last s = ok (none, s)
  for_loop body (suc fuel) set it last s = elim (equals it last s) [
    | true ↦ ok (some [], s)
    | false ↦
        (do
          b ← body it.node
          it' ← increment set it
          rest ← for_loop body fuel set it' last
          pure (elim rest [ none ↦ none | some bs ↦ some (b ∷ bs) ]))
          s
  ]

  pub for_nodes : {B : Type 0} → (ℕ → Cmd M B) → ℕ → Option (List ℕ) → Cmd M (Option (List B))
  for_nodes body fuel set = do it ← begin set; last ← end; for_loop body fuel set it last

  -- `collect_to`: a `Node` that is appended is a copy of that of the iterator, with its holder.
  pub collect_to : ℕ → Option (List ℕ) → Cmd M (Option (List ℕ))
  unfolding for_nodes
  collect_to fuel set = for_nodes (λ h. pure h) fuel set
