-- ===== src/Xml/Documents.antt =====
-- `Xml` and `Html` (src/xml.cpp).
use box_utils.Common.{ℕ, Bytes, Bool, true, false, none, some, ok, throw, ◌==◌, if◌then◌else◌}
use box_utils.Common.Commands.{◌>>=◌, ◌>>◌, pure, raise, gets}
use box_utils.Xml.{
  xml_error, null_ptr_exception, Written, LibXml, Cmd, create_node_holder, create_xml_holder,
  set_ref, node_at, call, field, string_of, read,
}

module _ (lib : LibXml) where
  open lib use {
    Mem, new_doc, parse_doc, parse_file, read_html, last_error, free_doc, free_node, root_element,
    set_root_element, copy_node, dump_xml, dump_html, save_xml, save_html, doc_version,
    doc_encoding,
  }

  -- `Xml(const char *)`
  pub create : Bytes → Cmd Mem ℕ
  create version = do xml ← call (new_doc version); create_xml_holder xml false

  -- `Xml(xmlDocPtr)` behind the test on the parser's answer.
  pub of_parsed : ℕ → Cmd Mem ℕ
  of_parsed xml = do
    error ← read last_error
    if xml == 0 then raise (xml_error error) else create_xml_holder xml false

  pub parse_string : Bytes → Cmd Mem ℕ
  parse_string str = do xml ← call (parse_doc str); of_parsed xml

  pub load_file : Bytes → Cmd Mem ℕ
  load_file filename = do xml ← call (parse_file filename); of_parsed xml

  -- `Html::ParseString`
  pub parse_html : Bytes → Cmd Mem ℕ
  parse_html str = do html ← call (read_html str); of_parsed html

  -- `~XmlHolder`, when the last `Xml` with the holder is destroyed.
  pub destroy_holder : ℕ → Cmd Mem (Unit {0})
  destroy_holder h s =
      if (s.docs h).ref
      then ok (tt, s)
      else ok (tt, record s { mem = free_doc (s.docs h).xml s.mem })

  pub is_ref : ℕ → Cmd Mem Bool
  is_ref h = do holder ← gets (λ s. s.docs h); pure holder.ref

  unfoldable pub xml_at : ℕ → Cmd Mem ℕ
  xml_at h s = ok ((s.docs h).xml, s)

  pub version : ℕ → Cmd Mem Bytes
  version h = do xml ← xml_at h; text ← field xml (doc_version xml); string_of text

  pub encoding : ℕ → Cmd Mem Bytes
  encoding h = do xml ← xml_at h; text ← field xml (doc_encoding xml); string_of text

  pub to_string : ℕ → Cmd Mem Bytes
  to_string h = do xml ← xml_at h; read (dump_xml xml)

  -- `Html::to_string`
  pub html_to_string : ℕ → Cmd Mem Bytes
  html_to_string h = do xml ← xml_at h; read (dump_html xml)

  -- The test on what a function that saves answers: `!= 0`.
  unfoldable pub saved : Written → Cmd Mem (Unit {0})
  saved none s = throw (xml_error (last_error s.mem))
  saved (some n) s = if n == 0 then ok (tt, s) else throw (xml_error (last_error s.mem))

  unfoldable pub savefile : ℕ → Bytes → ℕ → Bytes → Cmd Mem (Unit {0})
  savefile h filename fmt enc = do
    xml ← xml_at h
    written ← call (save_xml filename fmt enc xml)
    saved written

  -- `Html::savefile`
  pub savefile_html : ℕ → Bytes → ℕ → Cmd Mem (Unit {0})
  savefile_html h filename fmt = do
    xml ← xml_at h
    written ← call (save_html filename fmt xml)
    saved written

  pub root : ℕ → Cmd Mem ℕ
  root h = do
    xml ← xml_at h
    p ← read (root_element xml)
    if p == 0 then raise null_ptr_exception else create_node_holder p true

  -- The end of `set_root`
  unfoldable pub free_root : ℕ → Cmd Mem (Unit {0})
  free_root old_node s =
      if old_node == 0 then ok (tt, s) else ok (tt, record s { mem = free_node old_node s.mem })

  -- The two branches of `set_root`, on what `ref` of the node's holder is.
  unfoldable pub replace_root : Bool → ℕ → ℕ → ℕ → Cmd Mem (Unit {0})
  unfolding set_ref call free_root
  replace_root false xml p n = do set_ref n; old_node ← call (set_root_element xml p); pure tt
  replace_root true xml p n = do
    copied ← call (copy_node p)
    old_node ← call (set_root_element xml copied)
    free_root old_node

  -- `set_root(Node &&)`
  unfoldable pub set_root : ℕ → ℕ → Cmd Mem (Unit {0})
  unfolding xml_at node_at
  set_root h n = do
    xml ← xml_at h
    p ← node_at n
    holder ← gets (λ s. s.nodes n)
    replace_root holder.ref xml p n
