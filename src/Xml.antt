-- ===== src/Xml.antt =====
-- `Xml`, `Html` and `Node` (src/xml.cpp, include/Box/xml.hpp) over libxml2, which is the parameter
-- `LibXml`: its functions and the fields of its structures, by the addresses of nodes, documents and
-- attributes, 0 the null pointer. A `Node` or an `Xml` is the address of the holder that its copies
-- share through a `RefPtr`.
pub mod Documents
pub mod Nodes
pub mod Ownership
pub mod XPath
pub mod Sax
mod Examples
use box_utils.Common.{
  ℕ, suc, Bytes, Bool, true, false, Option, none, some, ok, throw, undefined, ◌==◌, if◌then◌else◌,
}
use box_utils.Common.Commands.{Command, ◌>>=◌, ◌>>◌, pure, crash, raise, gets, modify, update}

pub data Error : Type 0 where
  -- `Error(xmlGetLastError())`
  xml_error : ℕ → Error
  null_ptr_exception : Error
  key_error : Bytes → Error

-- What a function of libxml2 answers that counts bytes: `none` is -1.
abbrev pub Written : Type 0
Written = Option ℕ

pub record LibXml : Type 1 where
  pub Mem : Type 0
  pub new_doc : Bytes → Mem → ℕ × Mem
  pub parse_doc : Bytes → Mem → ℕ × Mem
  pub parse_file : Bytes → Mem → ℕ × Mem
  pub read_html : Bytes → Mem → ℕ × Mem
  pub last_error : Mem → ℕ
  pub free_doc : ℕ → Mem → Mem
  pub free_node : ℕ → Mem → Mem
  pub root_element : ℕ → Mem → ℕ
  -- `xmlDocSetRootElement` answers the root of before.
  pub set_root_element : ℕ → ℕ → Mem → ℕ × Mem
  pub copy_node : ℕ → Mem → ℕ × Mem
  pub link_child : ℕ → ℕ → Mem → Mem
  pub set_content : ℕ → Bytes → Mem → Mem
  pub rename : ℕ → Bytes → Mem → Mem
  pub new_prop : ℕ → Bytes → Bytes → Mem → Mem
  pub has_prop : ℕ → Bytes → Mem → ℕ
  pub dump_xml : ℕ → Mem → Bytes
  pub dump_html : ℕ → Mem → Bytes
  pub dump_node : ℕ → Mem → Bytes
  pub save_xml : Bytes → ℕ → Bytes → ℕ → Mem → Written × Mem
  pub save_html : Bytes → ℕ → ℕ → Mem → Written × Mem
  pub doc_version : ℕ → Mem → Option Bytes
  pub doc_encoding : ℕ → Mem → Option Bytes
  pub next_of : ℕ → Mem → ℕ
  pub prev_of : ℕ → Mem → ℕ
  pub parent_of : ℕ → Mem → ℕ
  pub children_of : ℕ → Mem → ℕ
  pub attr_children : ℕ → Mem → ℕ
  pub content_of : ℕ → Mem → Option Bytes
  pub name_of : ℕ → Mem → Option Bytes
  pub node_is_text : ℕ → Mem → Bool

pub record NodeHolder : Type 0 where
  pub node : ℕ
  pub ref : Bool

pub record XmlHolder : Type 0 where
  pub xml : ℕ
  pub ref : Bool

pub record Store (M : Type 0) : Type 0 where
  pub mem : M
  pub nodes : ℕ → NodeHolder
  pub docs : ℕ → XmlHolder
  pub next_holder : ℕ

abbrev pub Cmd : Type 0 → Type 0 → Type 0
Cmd M A = Command (Store M) Error A

-- `CreateNodeHodler`; `new` gives an address that was not in use.
pub create_node_holder : {M : Type 0} → ℕ → Bool → Cmd M ℕ
create_node_holder p is_ref s = ok (
  s.next_holder,
  record s {
    nodes = λ h. if h == s.next_holder then record { node = p; ref = is_ref } else s.nodes h;
    next_holder = suc s.next_holder;
  },
)

-- `CreateXmlHodler`
pub create_xml_holder : {M : Type 0} → ℕ → Bool → Cmd M ℕ
create_xml_holder p is_ref s = ok (
  s.next_holder,
  record s {
    docs = λ h. if h == s.next_holder then record { xml = p; ref = is_ref } else s.docs h;
    next_holder = suc s.next_holder;
  },
)

-- `holder->ref = true`
unfoldable pub set_ref : {M : Type 0} → ℕ → Cmd M (Unit {0})
set_ref h s = ok (
  tt,
  record s {
    nodes = λ a. if a == h then record { node = (s.nodes h).node; ref = true } else s.nodes a;
  },
)

-- `holder->node`
unfoldable pub node_at : {M : Type 0} → ℕ → Cmd M ℕ
node_at h s = ok ((s.nodes h).node, s)

-- A function of libxml2 that changes its memory.
unfoldable pub effect : {M : Type 0} → (M → M) → Cmd M (Unit {0})
effect f s = ok (tt, record s { mem = f s.mem })

unfoldable pub call : {M A : Type 0} → (M → A × M) → Cmd M A
call f s = let (a, m) = f s.mem in ok (a, record s { mem = m })

-- A field of the structure at `p`, undefined where it is null.
pub field : {M A : Type 0} → ℕ → (M → A) → Cmd M A
field p f s = if p == 0 then undefined else ok (f s.mem, s)

-- `std::string(str)`
pub string_of : {M : Type 0} → Option Bytes → Cmd M Bytes
string_of none s = undefined
string_of (some str) s = ok (str, s)

-- A `Node` or an `Xml` is made around what a function of libxml2 answers.
abbrev pub read : {M A : Type 0} → (M → A) → Cmd M A
read f s = ok (f s.mem, s)
