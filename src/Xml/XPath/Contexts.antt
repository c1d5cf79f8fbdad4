-- ===== src/Xml/XPath/Contexts.antt =====
-- Contexts, compiled expressions and their results (src/xpath.cpp), over the XPath functions of
-- libxml2 as the parameter `LibXpath`; and the shorthands of src/xml.cpp for them.
use box_utils.Common.{ℕ, Bytes, Option, none, some, ◌==◌, if◌then◌else◌}
use box_utils.Common.Commands.{◌>>=◌, ◌>>◌, pure, raise}
use box_utils.Xml.{xml_error, null_ptr_exception, LibXml, Cmd, effect, call, read}
use box_utils.Xml.Documents.{xml_at, parse_string}
use box_utils.Xml.Nodes.{to_string}

pub record LibXpath (lib : LibXml) : Type 0 where
  pub new_context : ℕ → lib.Mem → ℕ × lib.Mem
  pub free_context : ℕ → lib.Mem → lib.Mem
  pub eval_expression : Bytes → ℕ → lib.Mem → ℕ × lib.Mem
  pub compiled_eval : ℕ → ℕ → lib.Mem → ℕ × lib.Mem
  pub ctxt_compile : ℕ → Bytes → lib.Mem → ℕ × lib.Mem
  pub compile : Bytes → lib.Mem → ℕ × lib.Mem
  pub free_expr : ℕ → lib.Mem → lib.Mem
  pub free_object : ℕ → lib.Mem → lib.Mem
  pub cast_to_string : ℕ → lib.Mem → Option Bytes

-- The context of libxml2, and the holder of the document that it keeps.
pub record Context : Type 0 where
  pub ctxt : ℕ
  pub doc_holder : ℕ

pub record Object : Type 0 where
  pub obj : ℕ
  pub doc_holder : ℕ

module _ (lib : LibXml) (xpath : LibXpath lib) where
  open lib use {Mem, last_error}
  open xpath use {
    new_context, free_context, eval_expression, compiled_eval, ctxt_compile, compile, free_expr,
    free_object, cast_to_string,
  }

  -- The test on a pointer that a function of libxml2 answers.
  pub checked : ℕ → Cmd Mem ℕ
  checked p = do error ← read last_error; if p == 0 then raise (xml_error error) else pure p

  -- `Context(Xml &)`
  pub create_context : ℕ → Cmd Mem Context
  create_context h = do
    xml ← xml_at lib h
    p ← call (new_context xml)
    c ← checked p
    pure (record { ctxt = c; doc_holder = h })

  -- `Context(Context &&)`: the new one, and what is left of the old one.
  pub move_context : Context → Context × Context
  move_context c = (c, record c { ctxt = 0 })

  pub destroy_context : Context → Cmd Mem (Unit {0})
  destroy_context c = effect (free_context c.ctxt)

  pub eval : Context → Bytes → Cmd Mem Object
  eval c exp = do
    p ← call (eval_expression exp c.ctxt)
    o ← checked p
    pure (record { obj = o; doc_holder = c.doc_holder })

  -- `eval(const Expression &)`
  pub eval_compiled : Context → ℕ → Cmd Mem Object
  eval_compiled c expr = do
    p ← call (compiled_eval expr c.ctxt)
    o ← checked p
    pure (record { obj = o; doc_holder = c.doc_holder })

  -- `complie`
  pub compile_in : Context → Bytes → Cmd Mem ℕ
  compile_in c exp = do p ← call (ctxt_compile c.ctxt exp); checked p

  -- `Expression(const char *)`
  pub create_expression : Bytes → Cmd Mem ℕ
  create_expression exp = do p ← call (compile exp); checked p

  -- `Expression(Expression &&)`
  pub move_expression : ℕ → ℕ × ℕ
  move_expression expr = (expr, 0)

  pub destroy_expression : ℕ → Cmd Mem (Unit {0})
  destroy_expression expr = if expr == 0 then pure tt else effect (free_expr expr)

  -- `free_xpath`, when the last object with the pointer is destroyed.
  pub free_xpath : ℕ → Cmd Mem (Unit {0})
  free_xpath objptr = if objptr == 0 then pure tt else effect (free_object objptr)

  -- `get<std::string>`
  pub get_string : Object → Cmd Mem Bytes
  get_string o = do
    text ← read (cast_to_string o.obj)
    elim text [ none ↦ raise null_ptr_exception | some str ↦ pure str ]

  -- `Xml::xpath`
  pub xml_xpath : ℕ → Bytes → Cmd Mem Object
  xml_xpath h exp = do c ← create_context h; o ← eval c exp; destroy_context c; pure o

  -- `Node::xpath`
  pub node_xpath : ℕ → Bytes → Cmd Mem Object
  node_xpath n str = do text ← to_string lib n; h ← parse_string lib text; xml_xpath h str
