-- ===== src/Xml/Sax/Calls.antt =====
-- What the program's functions are called with (src/sax.cpp).
use box_utils.Common.{
  Bytes, ◌≡◌, refl, sym, ap, ◌∙◌, inl, inr, Bool, true, false, none, some, List, [], ◌∷◌, ◌++◌,
  append-nil, append_assoc, if◌then◌else◌, Bool-cases, All, ◌>>=◌, ok,
}
use box_utils.Xml.Sax.{
  Event, start_document, end_document, start_element, end_element, attribute_decl, Call, started,
  ended, elem_started, elem_ended, attr_defined, SaxHandler, push_attrs, on_start_elem, deliver,
  deliver_all,
}

-- The call that an event is for.
abbrev pub call_of : Event → Call
call_of start_document = started
call_of end_document = ended
call_of (start_element name none) = elem_started name []
call_of (start_element name (some texts)) = elem_started name texts
call_of (end_element name) = elem_ended name
call_of (attribute_decl elem name none) = attr_defined elem name []
call_of (attribute_decl elem name (some value)) = attr_defined elem name value

abbrev pub has_callback : SaxHandler → Event → Bool
has_callback sax start_document = sax.has_start
has_callback sax end_document = sax.has_end
has_callback sax (start_element name attrs) = sax.has_start_elem
has_callback sax (end_element name) = sax.has_end_elem
has_callback sax (attribute_decl elem name value) = sax.has_def_attr

abbrev pub calls_of : SaxHandler → List Event → List Call
calls_of sax [] = []
calls_of sax (event ∷ events) =
    if has_callback sax event then call_of event ∷ calls_of sax events else calls_of sax events

-- A declared attribute has a default.
abbrev pub HasDefault : Event → Type 0
HasDefault (attribute_decl elem name none) = ⊥
HasDefault event = Unit

push_attrs-append : (texts attrs : List Bytes) → push_attrs texts attrs ≡ attrs ++ texts
unfolding push_attrs
push_attrs-append [] attrs = sym (append-nil attrs)
push_attrs-append (text ∷ rest) attrs =
    push_attrs-append rest (attrs ++ text ∷ []) ∙ append_assoc attrs (text ∷ []) rest

-- The same handler but for the attributes of the last element.
abbrev with_attrs : SaxHandler → List Bytes → SaxHandler
with_attrs sax attrs = record sax { attrs = attrs }

deliver-call_of :
    (event : Event) (sax : SaxHandler)
    → HasDefault event
    → (attrs : List Bytes) × (deliver event sax
        ≡ ok (if has_callback sax event then call_of event ∷ [] else [], with_attrs sax attrs))
unfolding deliver on_start_elem
deliver-call_of start_document sax h = (sax.attrs, refl)
deliver-call_of end_document sax h = (sax.attrs, refl)
deliver-call_of (start_element name none) sax h = elim (Bool-cases sax.has_start_elem) [
  | inl t ↦ ([], rw t refl)
  | inr f ↦ (sax.attrs, rw f refl)
]
deliver-call_of (start_element name (some texts)) sax h = elim (Bool-cases sax.has_start_elem) [
  | inl t ↦ (texts, rw t (rw (push_attrs-append texts []) refl))
  | inr f ↦ (sax.attrs, rw f refl)
]
deliver-call_of (end_element name) sax h = (sax.attrs, refl)
deliver-call_of (attribute_decl elem name none) sax h = absurd h
deliver-call_of (attribute_decl elem name (some value)) sax h = elim (Bool-cases sax.has_def_attr) [
  | inl t ↦ (sax.attrs, rw t refl)
  | inr f ↦ (sax.attrs, rw f refl)
]

has_callback-attrs :
    (sax : SaxHandler) (attrs : List Bytes) (event : Event)
    → has_callback (with_attrs sax attrs) event ≡ has_callback sax event
has_callback-attrs sax attrs start_document = refl
has_callback-attrs sax attrs end_document = refl
has_callback-attrs sax attrs (start_element name texts) = refl
has_callback-attrs sax attrs (end_element name) = refl
has_callback-attrs sax attrs (attribute_decl elem name value) = refl

calls_of-attrs :
    (sax : SaxHandler) (attrs : List Bytes) (events : List Event)
    → calls_of (with_attrs sax attrs) events ≡ calls_of sax events
calls_of-attrs sax attrs [] = refl
calls_of-attrs sax attrs (event ∷ events) =
    rw (has_callback-attrs sax attrs event, calls_of-attrs sax attrs events) refl

if-append :
    (b : Bool) (call : Call) (calls : List Call)
    → (if b then call ∷ [] else []) ++ calls ≡ (if b then call ∷ calls else calls)
if-append true call calls = refl
if-append false call calls = refl

-- Of a list of events in which each declared attribute has a default: the functions that are set
-- are called for their events and no others, in their order, that of an element with the attributes
-- of that element, whatever the handler has kept of those before; the functions stay set.
pub deliver_all-calls_of :
    (events : List Event) (sax : SaxHandler)
    → All HasDefault events
    → (attrs : List Bytes) × (deliver_all events sax
        ≡ ok (calls_of sax events, record sax { attrs = attrs }))
unfolding deliver_all
deliver_all-calls_of [] sax h = (sax.attrs, refl)
deliver_all-calls_of (event ∷ events) sax (here, h) =
    let (attrs, first) = deliver-call_of event sax here in
    let (last, rest) = deliver_all-calls_of events (with_attrs sax attrs) h in
    (
      last,
      rw first (
          rw (◌>>=◌, rest)
            (ap (λ l. ok (l, with_attrs sax last))
              (if-append (has_callback sax event) (call_of event)
                  (calls_of (with_attrs sax attrs) events)
                ∙ ap (λ l. if has_callback sax event then call_of event ∷ l else l)
                    (calls_of-attrs sax attrs events)))),
    )
