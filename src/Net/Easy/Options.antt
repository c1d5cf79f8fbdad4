-- ===== src/Net/Easy/Options.antt =====
-- The members of `Easy` (src/net/easy.cpp) that set options and ask for what a transfer came to.
-- `this` is the `Easy` at `e`; an address stands for the object that libcurl is given a pointer to.
use box_utils.Common.{
  Bytes, ℕ, Bool, true, false, Option, none, some, [], ◌∷◌, ◌==◌, if◌then◌else◌, Run, ◌>>=◌, ◌>>◌,
  ok, throw,
}
use box_utils.Net.Easy.{
  Error, http_error, std_exception, null_ptr_exception, Method, m_post, m_get, m_put, EasyCallBack,
  write_to_string, write_to_file, write_to_headers, write_to_stream, post, http_get, put,
  follow_location, auto_referer, cookie_file, cookie_list, cookie, url, proxy, user_agent, referer,
  connect_timeout_ms, http_header, mime_post, write_data, header_data, copy_post_fields,
  post_fields, write_function, header_function, post_field_size, CurlEasy, World, string_at,
  curl_assert, set_option,
}

module _ (curl : CurlEasy) where
  open curl use {State, setopt, response_code, effective_url, content_type_of, scheme_of, escape}

  pub enable_cookie : ℕ → World State → World State
  unfolding set_option
  enable_cookie e w = set_option curl e (cookie_file (some [])) w

  pub add_cookie : ℕ → Option Bytes → World State → World State
  unfolding set_option
  add_cookie e text w = set_option curl e (cookie_list text) w

  pub set_cookie : ℕ → Option Bytes → World State → World State
  unfolding set_option
  set_cookie e text w = set_option curl e (cookie text) w

  -- `set_url`; of a `std::string` it is given the text of `c_str()`.
  unfoldable pub set_url : ℕ → Option Bytes → World State → World State
  unfolding set_option
  set_url e text w = set_option curl e (url text) w

  pub set_method : ℕ → Method → World State → World State
  unfolding set_option
  set_method e m_post w = set_option curl e post w
  set_method e m_get w = set_option curl e http_get w
  set_method e m_put w = set_option curl e put w

  pub set_timeout : ℕ → ℕ → World State → World State
  unfolding set_option
  set_timeout e timeout_ms w = set_option curl e (connect_timeout_ms timeout_ms) w

  pub set_proxy : ℕ → Option Bytes → World State → World State
  unfolding set_option
  set_proxy e text w = set_option curl e (proxy text) w

  pub set_useragent : ℕ → Option Bytes → World State → World State
  unfolding set_option
  set_useragent e str w = set_option curl e (user_agent str) w

  pub set_referer : ℕ → Option Bytes → World State → World State
  unfolding set_option
  set_referer e str w = set_option curl e (referer str) w

  -- `set_headers()`, and `set_headers(h)` with the list of `h`.
  pub no_headers : ℕ → World State → World State
  unfolding set_option
  no_headers e w = set_option curl e (http_header 0) w

  unfoldable pub set_headers : ℕ → ℕ → World State → World State
  unfolding set_option
  set_headers e slist w = set_option curl e (http_header slist) w

  pub set_write_cb : ℕ → EasyCallBack → ℕ → World State → World State
  unfolding set_option
  set_write_cb e cb param w =
      set_option curl e (write_data param) (set_option curl e (write_function cb) w)

  pub set_header_cb : ℕ → EasyCallBack → ℕ → World State → World State
  unfolding set_option
  set_header_cb e cb param w =
      set_option curl e (header_data param) (set_option curl e (header_function cb) w)

  -- `set_ostream` to a string, to a `FILE`, to a stream.
  pub ostream_string : ℕ → ℕ → World State → World State
  unfolding set_option
  ostream_string e str w =
      set_option curl e (write_data str) (set_option curl e (write_function write_to_string) w)

  pub ostream_file : ℕ → ℕ → World State → World State
  unfolding set_option
  ostream_file e f w =
      set_option curl e (write_data f) (set_option curl e (write_function write_to_file) w)

  pub ostream_stream : ℕ → ℕ → World State → World State
  unfolding set_write_cb
  ostream_stream e stream w = set_write_cb e write_to_stream stream w

  unfoldable pub set_oheaders : ℕ → ℕ → World State → World State
  unfolding set_option
  set_oheaders e h w =
      set_option curl e (header_data h) (set_option curl e (header_function write_to_headers) w)

  pub set_followlocation : ℕ → World State → World State
  unfolding set_option
  set_followlocation e w = set_option curl e auto_referer (set_option curl e follow_location w)

  -- `set_post(data, datasize, copy)`
  pub set_post : ℕ → ℕ → ℕ → Bool → World State → Run Error (World State)
  unfolding set_method set_option curl_assert
  set_post e data_ptr datasize copy w =
      let w = set_option curl e (post_field_size datasize) (set_method e m_post w) in
      let fields = if copy then copy_post_fields data_ptr else post_fields data_ptr in
      let r = setopt (w.handle_of e) fields w.libcurl in
      do curl_assert r.0; ok (record w { libcurl = r.1 })

  -- `set_post(mime)`, of its `curl_mime`
  pub set_form : ℕ → ℕ → World State → World State
  unfolding set_option
  set_form e mime w = set_option curl e (mime_post mime) w

  pub clear_cookie : ℕ → World State → World State
  unfolding set_option
  clear_cookie e w = set_option curl e (cookie_list (some (b'A' ∷ b'L' ∷ b'L' ∷ []))) w

  pub reset_cookie : ℕ → World State → World State
  unfolding set_option
  reset_cookie e w = set_option curl e (cookie_list (some (b'S' ∷ b'E' ∷ b'S' ∷ b'S' ∷ []))) w

  pub status_code : ℕ → World State → Run Error ℕ
  unfolding curl_assert
  status_code e w = do
    curl_assert (response_code (w.handle_of e) w.libcurl).0
    ok (response_code (w.handle_of e) w.libcurl).1

  -- `ok`
  pub is_ok : ℕ → World State → Run Error Bool
  unfolding status_code
  is_ok e w = do code ← status_code e w; ok (if code == 200 then true else false)

  pub throw_for_status : ℕ → World State → Run Error (Unit {0})
  unfolding status_code
  throw_for_status e w = do
    code ← status_code e w
    if code == 200 then ok tt else throw (http_error code)

  -- `url`; `has_url` where the headers are of libcurl 7, version 7.52 or later.
  pub get_url : Bool → ℕ → World State → Run Error Bytes
  unfolding curl_assert string_at
  get_url has_url e w = elim has_url [
    | false ↦ throw std_exception
    | true ↦ do
      curl_assert (effective_url (w.handle_of e) w.libcurl).0
      string_at (effective_url (w.handle_of e) w.libcurl).1
  ]

  pub content_type : ℕ → World State → Run Error Bytes
  unfolding curl_assert string_at
  content_type e w = do
    curl_assert (content_type_of (w.handle_of e) w.libcurl).0
    string_at (content_type_of (w.handle_of e) w.libcurl).1

  pub scheme : ℕ → World State → Run Error Bytes
  unfolding curl_assert string_at
  scheme e w = do
    curl_assert (scheme_of (w.handle_of e) w.libcurl).0
    string_at (scheme_of (w.handle_of e) w.libcurl).1

  pub escape_url : ℕ → Option Bytes → World State → Run Error Bytes
  escape_url e text w = elim (escape (w.handle_of e) text w.libcurl) [
    | none ↦ throw null_ptr_exception
    | some s ↦ ok s
  ]

  -- `unescape_url` calls `curl_easy_escape`, as `escape_url` does.
  pub unescape_url : ℕ → Option Bytes → World State → Run Error Bytes
  unescape_url e text w = elim (escape (w.handle_of e) text w.libcurl) [
    | none ↦ throw null_ptr_exception
    | some s ↦ ok s
  ]
