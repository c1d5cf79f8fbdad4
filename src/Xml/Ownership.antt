-- ===== src/Xml/Ownership.antt =====
-- Who frees which node (src/xml.cpp), and what saving a document throws.
use box_utils.Common.{
  ℕ, suc, Bytes, true, false, some, ok, throw, ◌==◌, if◌then◌else◌, ◌≡◌, refl, arith, Bool-cases,
  inl, inr,
}
use box_utils.Common.Commands.{◌>>=◌, ◌>>◌}
use box_utils.Xml.{xml_error, LibXml, NodeHolder, Store, call}
use box_utils.Xml.Documents.{xml_at, saved, savefile, free_root, replace_root, set_root}
use box_utils.Xml.Nodes.{destroy_holder, link_node, add_child}

module _ (lib : LibXml) where
  open lib use {Mem, free_node, copy_node, link_child, set_root_element, save_xml, last_error}

  -- The memory behind `add_child`: an owning node is linked, of a reference a copy.
  abbrev pub linked : ℕ → NodeHolder → Mem → Mem
  linked p holder m =
      if holder.ref
      then link_child p (copy_node holder.node m).0 (copy_node holder.node m).1
      else link_child p holder.node m

  -- Its holder is a reference: the destructor frees nothing.
  destroy_holder-ref :
      (n : ℕ) (s : Store Mem) → (s.nodes n).ref ≡ true → destroy_holder lib n s ≡ ok (tt, s)
  unfolding destroy_holder
  destroy_holder-ref n s is_ref = rw is_ref refl

  -- `s` with a reference in place of the holder at `n`.
  abbrev given_up : ℕ → Store Mem → Store Mem
  given_up n s = record s {
    nodes = λ a. if a == n then record { node = (s.nodes n).node; ref = true } else s.nodes a;
  }

  given_up-ref : (n : ℕ) (s : Store Mem) → ((given_up n s).nodes n).ref ≡ true
  given_up-ref n s = let same : (n == n) ≡ true = ground arith in rw same refl

  -- A Node is added to another one and then destroyed. What is done to the memory is one call of
  -- xmlAddChild, with the node itself if the Node owned it, or else with a copy made just before. The
  -- Node does not own its node any more, and its destructor does nothing to the memory. (What
  -- xmlAddChild does is left to libxml2, which frees a text node that it merges with a neighbour.)
  pub add_child-destroy_holder :
      (h n : ℕ) (s : Store Mem)
      → (s' : Store Mem) × ((add_child lib h n >> destroy_holder lib n) s ≡ ok (tt, s'))
        × (s'.mem ≡ linked (s.nodes h).node (s.nodes n) s.mem)
        × ((s'.nodes n).ref ≡ true)
  unfolding add_child link_node
  add_child-destroy_holder h n s = elim (Bool-cases (s.nodes n).ref) [
    | inl t ↦
        let m = linked (s.nodes h).node (s.nodes n) s.mem in
        let (copied, m1) = copy_node (s.nodes n).node s.mem in
        let s1 : Store Mem = record s { mem = link_child (s.nodes h).node copied m1 } in
        (s1, rw (add_child, t) (destroy_holder-ref n s1 t), rw t refl, t)
    | inr f ↦
        let s1 : Store Mem = record (given_up n s) {
          mem = link_child (s.nodes h).node (s.nodes n).node s.mem;
        } in
        (
          s1,
          rw (add_child, f) (destroy_holder-ref n s1 (given_up-ref n s)),
          rw f refl,
          given_up-ref n s,
        )
  ]

  -- The memory behind `set_root`: the root of before is freed where the new one is a copy.
  abbrev pub rooted : ℕ → NodeHolder → Mem → Mem
  rooted xml holder m =
      if holder.ref
      then (let m1 = (copy_node holder.node m).1 in
          let r = set_root_element xml (copy_node holder.node m).0 m1 in
          if r.0 == 0 then r.1 else free_node r.0 r.1)
      else (set_root_element xml holder.node m).1

  free_root-mem :
      (old_node : ℕ) (s : Store Mem)
      → free_root lib old_node s
        ≡ ok (tt, record s { mem = if old_node == 0 then s.mem else free_node old_node s.mem })
  unfolding free_root
  free_root-mem old_node s = elim (Bool-cases (old_node == 0)) [
    | inl t ↦ rw t refl
    | inr f ↦ rw f refl
  ]

  -- A Node is made the root of a document and then destroyed. If it was a reference, a copy is the
  -- root and the root of before is freed. If it owned its node, that node is the root, and nothing
  -- is freed: nobody owns the root of before.
  pub set_root-destroy_holder :
      (h n : ℕ) (s : Store Mem)
      → (s' : Store Mem) × ((set_root lib h n >> destroy_holder lib n) s ≡ ok (tt, s'))
        × (s'.mem ≡ rooted (s.docs h).xml (s.nodes n) s.mem)
        × ((s'.nodes n).ref ≡ true)
  unfolding set_root replace_root
  set_root-destroy_holder h n s = elim (Bool-cases (s.nodes n).ref) [
    | inl t ↦
        let (copied, m1) = copy_node (s.nodes n).node s.mem in
        let (old_node, m2) = set_root_element (s.docs h).xml copied m1 in
        let s0 : Store Mem = record s { mem = m2 } in
        let s1 : Store Mem = record s {
          mem = if old_node == 0 then m2 else free_node old_node m2;
        } in
        (
          s1,
          rw (set_root, t) (rw (◌>>=◌, free_root-mem old_node s0) (destroy_holder-ref n s1 t)),
          rw t refl,
          t,
        )
    | inr f ↦
        let s1 : Store Mem = record (given_up n s) {
          mem = (set_root_element (s.docs h).xml (s.nodes n).node s.mem).1;
        } in
        (
          s1,
          rw (set_root, f) (destroy_holder-ref n s1 (given_up-ref n s)),
          rw f refl,
          given_up-ref n s,
        )
  ]

  -- A document of which libxml2 has saved some bytes: savefile throws an Error.
  pub savefile-throws :
      (h fmt bytes : ℕ) (filename enc : Bytes) (s : Store Mem)
      → (save_xml filename fmt enc (s.docs h).xml s.mem).0 ≡ some (suc bytes)
      → savefile lib h filename fmt enc s
        ≡ throw (xml_error (last_error (save_xml filename fmt enc (s.docs h).xml s.mem).1))
  unfolding savefile saved xml_at call
  savefile-throws h fmt bytes filename enc s written =
      let some_bytes : (suc bytes == 0) ≡ false = ground arith in rw written (rw some_bytes refl)
