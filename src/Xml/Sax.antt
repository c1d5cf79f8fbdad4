-- ===== src/Xml/Sax.antt =====
-- `SAXHandler` and `XmlParser` (src/sax.cpp). What libxml2's push parser makes of a block is the
-- parameter `Parser`: the events that it reports in their order, each of which it hands to the
-- callback of that event, if there is one. What the program's own functions are called with is
-- written down as a list.
pub mod Calls
use box_utils.Common.{
  Bytes, ℕ, Bool, true, false, Option, none, some, List, [], ◌∷◌, ◌++◌, if◌then◌else◌, Run, ◌>>=◌,
  deref, ok, throw,
}

pub data Event : Type 0 where
  start_document end_document : Event
  -- The name, and the names and values of the attributes, `none` for the null pointer.
  start_element : Bytes → Option (List Bytes) → Event
  end_element : Bytes → Event
  -- The element, the attribute and its default, `none` for the null pointer.
  attribute_decl : Bytes → Bytes → Option Bytes → Event

-- A call of a function that the program has set.
pub data Call : Type 0 where
  started ended : Call
  elem_started : Bytes → List Bytes → Call
  elem_ended : Bytes → Call
  attr_defined : Bytes → Bytes → Bytes → Call

pub data Error : Type 0 where
  -- `Error(xmlCtxtGetLastError(ctxt))`
  xml_error : ℕ → Error

-- Which callbacks are set, and the attributes of the element that was started last.
pub record SaxHandler : Type 0 where
  pub has_start : Bool
  pub has_end : Bool
  pub has_start_elem : Bool
  pub has_end_elem : Bool
  pub has_def_attr : Bool
  pub attrs : List Bytes

pub create : SaxHandler
create = record {
  has_start = false;
  has_end = false;
  has_start_elem = false;
  has_end_elem = false;
  has_def_attr = false;
  attrs = [];
}

pub set_start : SaxHandler → SaxHandler
set_start sax = record sax { has_start = true }

pub set_end : SaxHandler → SaxHandler
set_end sax = record sax { has_end = true }

pub set_start_elem : SaxHandler → SaxHandler
set_start_elem sax = record sax { has_start_elem = true }

pub set_end_elem : SaxHandler → SaxHandler
set_end_elem sax = record sax { has_end_elem = true }

pub set_def_attr : SaxHandler → SaxHandler
set_def_attr sax = record sax { has_def_attr = true }

-- The loop over `attrs`.
pub push_attrs : List Bytes → List Bytes → List Bytes
push_attrs [] attrs = attrs
push_attrs (text ∷ rest) attrs = push_attrs rest (attrs ++ text ∷ [])

-- The function between libxml2 and the one of `start_elem`.
pub on_start_elem : Bytes → Option (List Bytes) → SaxHandler → List Call × SaxHandler
unfolding push_attrs
on_start_elem name attrs sax =
    let cleared : SaxHandler = record sax { attrs = [] } in
    let sax' : SaxHandler = elim attrs [
      | none ↦ cleared
      | some texts ↦ record cleared { attrs = push_attrs texts [] }
    ] in
    (elem_started name sax'.attrs ∷ [], sax')

-- The callback of an event, if there is one; a `std::string_view` of the null pointer is undefined.
pub deliver : Event → SaxHandler → Run Error (List Call × SaxHandler)
unfolding on_start_elem
deliver start_document sax = ok (if sax.has_start then started ∷ [] else [], sax)
deliver end_document sax = ok (if sax.has_end then ended ∷ [] else [], sax)
deliver (start_element name attrs) sax =
    ok (if sax.has_start_elem then on_start_elem name attrs sax else ([], sax))
deliver (end_element name) sax = ok (if sax.has_end_elem then elem_ended name ∷ [] else [], sax)
deliver (attribute_decl elem name value) sax =
    if sax.has_def_attr
    then (do v ← deref value; ok (attr_defined elem name v ∷ [], sax))
    else ok ([], sax)

pub deliver_all : List Event → SaxHandler → Run Error (List Call × SaxHandler)
unfolding deliver
deliver_all [] sax = ok ([], sax)
deliver_all (event ∷ events) sax = do
  (calls, sax) ← deliver event sax
  (rest, sax) ← deliver_all events sax
  ok (calls ++ rest, sax)

-- The push parser: what a block makes of its state, with the events, and the error if there is one.
pub record Parser : Type 1 where
  pub Context : Type 0
  pub chunk : Bytes → Bool → Context → Context × List Event × Option ℕ
  pub reset_context : Context → Context

module _ (lib : Parser) where
  open lib use {Context, chunk, reset_context}

  pub parse_chunk :
      Bytes → Bool → Context → SaxHandler → Run Error (List Call × Context × SaxHandler)
  unfolding deliver_all
  parse_chunk text terminate c sax =
      let r = chunk text terminate c in
      do
        (calls, sax) ← deliver_all r.1 sax
        elim r.2 [ none ↦ ok (calls, r.0, sax) | some error ↦ throw (xml_error error) ]

  pub add_string : Bytes → Context → SaxHandler → Run Error (List Call × Context × SaxHandler)
  unfolding parse_chunk
  add_string str c sax = parse_chunk str false c sax

  pub reset : Context → Context
  reset c = reset_context c

  pub done : Context → SaxHandler → Run Error (List Call × Context × SaxHandler)
  unfolding parse_chunk
  done c sax = parse_chunk [] true c sax
