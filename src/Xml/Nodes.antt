-- ===== src/Xml/Nodes.antt =====
-- `Node` (src/xml.cpp).
use box_utils.Common.{ℕ, Bytes, Bool, true, false, not, none, some, ok, ◌==◌, if◌then◌else◌}
use box_utils.Common.Commands.{◌>>=◌, ◌>>◌, pure, raise, gets}
use box_utils.Xml.{
  null_ptr_exception, key_error, LibXml, Cmd, create_node_holder, set_ref, node_at, effect, call,
  field, string_of, read,
}

module _ (lib : LibXml) where
  open lib use {
    Mem, free_node, copy_node, link_child, set_content, rename, new_prop, has_prop, dump_node,
    next_of, prev_of, parent_of, children_of, attr_children, content_of, name_of, node_is_text,
  }

  -- `~NodeHolder`, when the last `Node` with the holder is destroyed.
  unfoldable pub destroy_holder : ℕ → Cmd Mem (Unit {0})
  destroy_holder h s =
      if (s.nodes h).ref
      then ok (tt, s)
      else ok (tt, record s { mem = free_node (s.nodes h).node s.mem })

  pub copy : ℕ → Cmd Mem ℕ
  copy h = do p ← node_at h; copied ← call (copy_node p); create_node_holder copied false

  pub is_ref : ℕ → Cmd Mem Bool
  is_ref h = do holder ← gets (λ s. s.nodes h); pure holder.ref

  pub is_text : ℕ → Cmd Mem Bool
  is_text h = do p ← node_at h; read (node_is_text p)

  -- `next`, `prev`, `parent` and `child` have this body, each with its field.
  pub neighbour : (ℕ → Mem → ℕ) → ℕ → Cmd Mem ℕ
  neighbour link h = do
    p ← node_at h
    q ← field p (link p)
    if q == 0 then raise null_ptr_exception else create_node_holder q true

  pub next : ℕ → Cmd Mem ℕ
  unfolding neighbour
  next h = neighbour next_of h

  pub prev : ℕ → Cmd Mem ℕ
  unfolding neighbour
  prev h = neighbour prev_of h

  pub parent : ℕ → Cmd Mem ℕ
  unfolding neighbour
  parent h = neighbour parent_of h

  pub child : ℕ → Cmd Mem ℕ
  unfolding neighbour
  child h = neighbour children_of h

  pub text : ℕ → Cmd Mem Bytes
  text h = do
    p ← node_at h
    mem ← field p (content_of p)
    elim mem [ none ↦ raise null_ptr_exception | some str ↦ pure str ]

  pub name : ℕ → Cmd Mem Bytes
  name h = do
    p ← node_at h
    str ← field p (name_of p)
    elim str [ none ↦ raise null_ptr_exception | some str ↦ pure str ]

  pub to_string : ℕ → Cmd Mem Bytes
  to_string h = do p ← node_at h; field p (dump_node p)

  -- `operator []`
  pub get : ℕ → Bytes → Cmd Mem Bytes
  get h key = do
    p ← node_at h
    attr ← read (has_prop p key)
    elim (attr == 0) [
      | true ↦ raise (key_error key)
      | false ↦ do
        value ← read (attr_children attr)
        str ← field value (content_of value)
        string_of str
    ]

  pub set_text : ℕ → Bytes → Cmd Mem (Unit {0})
  set_text h str = do p ← node_at h; effect (set_content p str)

  pub set_name : ℕ → Bytes → Cmd Mem (Unit {0})
  set_name h str = do p ← node_at h; effect (rename p str)

  -- The two branches of `add_child`, on what `ref` of the child's holder is.
  unfoldable pub link_node : Bool → ℕ → ℕ → ℕ → Cmd Mem (Unit {0})
  unfolding set_ref effect call
  link_node false p q n = do set_ref n; effect (link_child p q)
  link_node true p q n = do copied ← call (copy_node q); effect (link_child p copied)

  -- `add_child(Node &&)`
  unfoldable pub add_child : ℕ → ℕ → Cmd Mem (Unit {0})
  unfolding node_at
  add_child h n = do
    p ← node_at h
    q ← node_at n
    holder ← gets (λ s. s.nodes n)
    link_node holder.ref p q n

  pub add_attr : ℕ → Bytes → Bytes → Cmd Mem (Unit {0})
  add_attr h attr value = do p ← node_at h; effect (new_prop p attr value)

  pub has_attr : ℕ → Bytes → Cmd Mem Bool
  has_attr h attr = do p ← node_at h; found ← read (has_prop p attr); pure (not (found == 0))
