-- ===== src/Xml/Examples.antt =====
-- The theorems on src/xml.cpp and src/xpath.cpp at concrete states.
use box_utils.Common.{
  Bytes, ℕ, ◌+◌, ◌≡◌, ◌≢◌, refl, true, false, none, some, List, [], ◌∷◌, arith, ok, All,
}
use box_utils.Common.Commands.{◌>>=◌, ◌>>◌}
use box_utils.Xml.{LibXml, NodeHolder, Store, node_at}
use box_utils.Xml.Documents.{set_root}
use box_utils.Xml.Nodes.{destroy_holder, add_child}
use box_utils.Xml.Ownership.{add_child-destroy_holder, set_root-destroy_holder}
use box_utils.Xml.Sax.{
  start_document, end_document, start_element, elem_started, ended, SaxHandler, deliver_all,
}
use box_utils.Xml.Sax.Calls.{deliver_all-calls_of}
use box_utils.Xml.XPath.{ObjectIter, increment, decrement, for_nodes, collect_to}
use box_utils.Xml.XPath.Collected.{for_nodes-node_at, collect_to-null, decrement-increment}

-- A libxml2 that writes down what it links, makes a root and frees.
abbrev Log : Type 0
Log = List (ℕ × ℕ)

abbrev toy : LibXml
toy = record {
  Mem = Log;
  new_doc = λ version m. (50, m);
  parse_doc = λ str m. (50, m);
  parse_file = λ filename m. (50, m);
  read_html = λ str m. (50, m);
  last_error = λ m. 0;
  free_doc = λ xml m. (3, xml) ∷ m;
  free_node = λ p m. (2, p) ∷ m;
  root_element = λ xml m. 7;
  set_root_element = λ xml p m. (7, (1, p) ∷ m);
  copy_node = λ p m. (p + 100, m);
  link_child = λ p q m. (p, q) ∷ m;
  set_content = λ p str m. m;
  rename = λ p str m. m;
  new_prop = λ p attr value m. m;
  has_prop = λ p attr m. 0;
  dump_xml = λ xml m. [];
  dump_html = λ xml m. [];
  dump_node = λ p m. [];
  save_xml = λ filename fmt enc xml m. (some 3, m);
  save_html = λ filename fmt xml m. (some 3, m);
  doc_version = λ xml m. none;
  doc_encoding = λ xml m. none;
  next_of = λ p m. 0;
  prev_of = λ p m. 0;
  parent_of = λ p m. 0;
  children_of = λ p m. 0;
  attr_children = λ attr m. 0;
  content_of = λ p m. none;
  name_of = λ p m. none;
  node_is_text = λ p m. false;
}

abbrev owner : NodeHolder
owner = record { node = 20; ref = false }

abbrev start : Store Log
start = record {
  mem = [];
  nodes = λ h. owner;
  docs = λ h. record { xml = 50; ref = false };
  next_holder = 4;
}

add_child-destroy_holder_example :
    (s' : Store Log) × ((add_child toy 1 2 >> destroy_holder toy 2) start ≡ ok (tt, s'))
    × (s'.mem ≡ (20, 20) ∷ [])
    × ((s'.nodes 2).ref ≡ true)
add_child-destroy_holder_example = add_child-destroy_holder toy 1 2 start

set_root-destroy_holder_example :
    (s' : Store Log) × ((set_root toy 1 2 >> destroy_holder toy 2) start ≡ ok (tt, s'))
    × (s'.mem ≡ (1, 20) ∷ [])
    × ((s'.nodes 2).ref ≡ true)
set_root-destroy_holder_example = set_root-destroy_holder toy 1 2 start

three_set : All {A = ℕ} (λ q. q ≢ 0) (31 ∷ 32 ∷ 33 ∷ [])
three_set = (omega arith, (omega arith, (omega arith, tt)))

for_nodes-node_at_example :
    (s' : Store Log) × (for_nodes node_at 4 (some (31 ∷ 32 ∷ 33 ∷ [])) start
      ≡ ok (some (31 ∷ 32 ∷ 33 ∷ []), s'))
for_nodes-node_at_example = for_nodes-node_at 31 (32 ∷ 33 ∷ []) start three_set

collect_to-null_example :
    (s' : Store Log) × (collect_to 4 (some (31 ∷ 32 ∷ 33 ∷ [])) start
      ≡ ok (some (4 ∷ 4 ∷ 4 ∷ []), s'))
    × ((s'.nodes 4).node ≡ 0)
collect_to-null_example = collect_to-null 31 (32 ∷ 33 ∷ []) start three_set

abbrev last_one : ObjectIter
last_one = record { node = 1; where_at = some 2 }

decrement-increment_example :
    (s' : Store Log) × ((increment (some (31 ∷ 32 ∷ 33 ∷ [])) last_one
          >>= decrement (some (31 ∷ 32 ∷ 33 ∷ [])))
        start
      ≡ ok (last_one, s'))
    × ((s'.nodes 1).node ≡ 33)
decrement-increment_example = decrement-increment (31 ∷ 32 ∷ 33 ∷ []) 1 2 33 start refl

abbrev sax : SaxHandler
sax = record {
  has_start = false;
  has_end = true;
  has_start_elem = true;
  has_end_elem = false;
  has_def_attr = true;
  attrs = [];
}

deliver_all-calls_of_example :
    (attrs : List Bytes) × (deliver_all
        (start_document
          ∷ start_element (97 ∷ []) (some ((98 ∷ []) ∷ (99 ∷ []) ∷ []))
          ∷ start_element (100 ∷ []) none
          ∷ end_document
          ∷ [])
        sax
      ≡ ok (
        elem_started (97 ∷ []) ((98 ∷ []) ∷ (99 ∷ []) ∷ [])
            ∷ elem_started (100 ∷ []) []
            ∷ ended
            ∷ [],
        record sax { attrs = attrs },
      ))
deliver_all-calls_of_example =
    deliver_all-calls_of
      (start_document
        ∷ start_element (97 ∷ []) (some ((98 ∷ []) ∷ (99 ∷ []) ∷ []))
        ∷ start_element (100 ∷ []) none
        ∷ end_document
        ∷ [])
      sax (tt, (tt, (tt, (tt, tt))))
