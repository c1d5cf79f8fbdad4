-- ===== src/Json/Texts.antt =====
-- The text of a `Json` and its files (src/json.cpp). `cJSON_Print` is the parameter `print`, and
-- `none` its null pointer.
use box_utils.Common.{
  ℕ, zero, suc, Bytes, Bool, true, false, Option, none, some, if◌then◌else◌, [], ◌∷◌, ok, undefined,
}
use box_utils.Json.Interface.{CJson}
use box_utils.Json.Store.{file_not_found_error, Store, Cmd, raise, pure, lift, ◌>>=◌}
use box_utils.Json.Types.{cjson_of}
use box_utils.Json.Items.{parse_string}

-- A file that an `ifstream` is made of: it does not open (which sets `failbit`, so that nothing is
-- read), it is read to its end, or reading breaks down behind some bytes (which sets `badbit`).
pub data File : Type 0 where
  missing : File
  readable : Bytes → File
  broken : Bytes → File

-- What `istreambuf_iterator`s read.
pub text_of : File → Bytes
text_of missing = []
text_of (readable text) = text
text_of (broken text) = text

-- `stream.bad()`
pub bad : File → Bool
bad missing = false
bad (readable text) = false
bad (broken text) = true

-- `str.c_str()` as a C string
pub before_nul : Bytes → Bytes
before_nul [] = []
before_nul (zero ∷ text) = []
before_nul (suc c ∷ text) = suc c ∷ before_nul text

module _ (lib : CJson) (print : lib.Mem → ℕ → Option Bytes) where
  open lib use {Mem, Int}

  pub to_cstring : ℕ → Cmd Int (Store Mem) (Option Bytes)
  to_cstring j s = ok (print s.mem (cjson_of lib j s), s)

  -- `to_string`; the text of `print` and of `operator <<` is the same.
  pub to_string : ℕ → Cmd Int (Store Mem) Bytes
  to_string j s = elim (print s.mem (cjson_of lib j s)) [
    | none ↦ undefined
    | some str ↦ ok (str, s)
  ]

  -- `SaveFile`: what is written to the file; `opened` is whether the `ofstream` opens it. The text
  -- is made in any case.
  pub save_file : Bool → ℕ → Cmd Int (Store Mem) (Option Bytes)
  unfolding to_cstring
  save_file opened j = do
    str ← to_cstring j
    elim str [ none ↦ lift undefined | some text ↦ pure (if opened then some text else none) ]

  -- `LoadFile`
  pub load_file : File → Cmd Int (Store Mem) ℕ
  unfolding bad before_nul text_of
  load_file file = elim (bad file) [
    | true ↦ raise file_not_found_error
    | false ↦ parse_string lib (before_nul (text_of file))
  ]

  -- `ParseFrom`
  pub parse_from : File → Cmd Int (Store Mem) ℕ
  unfolding before_nul text_of
  parse_from file = parse_string lib (before_nul (text_of file))
