-- ===== src/Net/Easy/Mime.antt =====
-- `Mime` and `MimePart` (src/net/easy.cpp) over the forms of libcurl, which are the parameter
-- `CurlMime`. A form and a part of it are addresses. (The copy of headers that `set_headers` makes
-- is given: it is what `SListDup` would answer.)
use box_utils.Common.{
  Bytes, ℕ, ◌≡◌, refl, Bool, true, false, Option, none, some, List, if◌then◌else◌, Run, ◌>>=◌, ◌>>◌,
  ok,
}
use box_utils.Net.Easy.{Error, curl_assert}

-- What is set of a part.
pub data PartSetting : Type 0 where
  -- The list of headers, and whether libcurl frees it.
  part_headers : Option (List Bytes) → Bool → PartSetting
  part_name part_filedata part_type : Bytes → PartSetting
  part_data : Bytes → PartSetting

pub record CurlMime : Type 1 where
  pub State : Type 0
  pub mime_init : ℕ → State → ℕ × State
  pub mime_free : ℕ → State → State
  pub mime_addpart : ℕ → State → ℕ × State
  pub set_part : ℕ → PartSetting → State → ℕ × State

module _ (curl : CurlMime) where
  open curl use {State, mime_init, mime_free, mime_addpart, set_part}

  -- `Mime(const Easy &)`, of the handle of the Easy.
  pub create : ℕ → State → ℕ × State
  create handle s = mime_init handle s

  pub destroy : ℕ → State → State
  destroy mime s = mime_free mime s

  pub addpart : ℕ → State → ℕ × State
  addpart mime s = mime_addpart mime s

  -- `CURL_ASSERT` of a setting.
  pub set_checked : ℕ → PartSetting → State → Run Error State
  unfolding curl_assert
  set_checked part setting s = do
    curl_assert (set_part part setting s).0
    ok (set_part part setting s).1

  -- `set_headers()`
  pub clear_headers : ℕ → State → Run Error State
  unfolding set_checked
  clear_headers part s = set_checked part (part_headers none false) s

  -- `set_headers(headers, copy)`
  pub set_headers : ℕ → List Bytes → List Bytes → Bool → State → Run Error State
  unfolding set_checked
  set_headers part headers copied copy s =
      set_checked part
        (if copy then part_headers (some copied) true else part_headers (some headers) false) s

  -- `set_encoder` sets the name of the part, as `set_name` does.
  pub set_encoder : ℕ → Bytes → State → Run Error State
  unfolding set_checked
  set_encoder part encoder s = set_checked part (part_name encoder) s

  pub set_name : ℕ → Bytes → State → Run Error State
  unfolding set_checked
  set_name part name s = set_checked part (part_name name) s

  pub set_data : ℕ → Bytes → State → Run Error State
  unfolding set_checked
  set_data part data_bytes s = set_checked part (part_data data_bytes) s

  pub set_filedata : ℕ → Bytes → State → Run Error State
  unfolding set_checked
  set_filedata part filename s = set_checked part (part_filedata filename) s

  pub set_type : ℕ → Bytes → State → Run Error State
  unfolding set_checked
  set_type part type_name s = set_checked part (part_type type_name) s

  -- `operator []`
  pub part_of : ℕ → Bytes → State → Run Error (ℕ × State)
  unfolding set_name
  part_of mime name s = do
    s' ← set_name (addpart mime s).0 name (addpart mime s).1
    ok ((addpart mime s).0, s')

  -- An encoder that is set is taken for the name: the two calls do the same.
  set_encoder-set_name :
      (part : ℕ) (text : Bytes) (s : State) → set_encoder part text s ≡ set_name part text s
  unfolding set_encoder set_name
  set_encoder-set_name part text s = refl
