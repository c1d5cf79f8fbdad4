-- ===== src/Net/Easy.antt =====
-- `Easy` and `Mime` (src/net/easy.cpp) over libcurl's easy interface, which is a parameter: its
-- functions, and what it documents of the handles and of the pointer it keeps with each
-- (CURLOPT_PRIVATE). Addresses are numbers, 0 the null pointer; a `const char *` is `none` where it
-- is null. A CURLcode is a number, 0 the code CURLE_OK.
pub mod Callbacks
pub mod Mime
pub mod Options
pub mod Operations
pub mod Owned
pub mod Handles
mod Examples
use box_utils.Common.{
  Bytes, ℕ, ◌≡◌, ◌≢◌, Bool, true, false, Option, none, some, ◌==◌, ◌>>◌, if◌then◌else◌, Run, ok,
  throw, undefined,
}

pub data Error : Type 0 where
  null_ptr_exception : Error
  easy_exception http_error : ℕ → Error
  std_exception : Error

pub data Method : Type 0 where
  m_post m_get m_put : Method

-- The functions that are set for libcurl to call.
pub data EasyCallBack : Type 0 where
  write_to_string write_to_file write_to_headers write_to_stream : EasyCallBack
  function_at : ℕ → EasyCallBack

-- The options of `curl_easy_setopt`, each with its value.
pub data Setting : Type 0 where
  private : ℕ → Setting
  verbose no_signal post http_get put follow_location auto_referer : Setting
  cookie_file cookie_list cookie url proxy user_agent referer : Option Bytes → Setting
  connect_timeout_ms : ℕ → Setting
  http_header mime_post write_data header_data copy_post_fields post_fields : ℕ → Setting
  write_function header_function : EasyCallBack → Setting
  post_field_size : ℕ → Setting

abbrev pub is_private : Setting → Bool
is_private (private p) = true
is_private setting = false

-- Between two states the handles but `h` keep their life and their pointer.
abbrev pub OthersKept : {S : Type 0} → (S → ℕ → Bool) → (S → ℕ → ℕ) → ℕ → S → S → Type 0
OthersKept live private_of h s s' =
    (h' : ℕ) → h' ≢ h → (live s' h' ≡ live s h') × (private_of s' h' ≡ private_of s h')

abbrev pub Created : {S : Type 0} → (S → ℕ → Bool) → (S → ℕ → ℕ) → S → ℕ × S → Type 0
Created live private_of s r =
    (r.0 ≢ 0 → (live s r.0 ≡ false) × (live r.1 r.0 ≡ true)) × OthersKept live private_of r.0 s r.1

pub record CurlEasy : Type 1 where
  pub State : Type 0
  pub easy_init : State → ℕ × State
  pub duphandle : ℕ → State → ℕ × State
  pub setopt : ℕ → Setting → State → ℕ × State
  pub easy_reset : ℕ → State → State
  pub cleanup : ℕ → State → State
  pub easy_perform : ℕ → State → ℕ × State
  pub response_code : ℕ → State → ℕ × ℕ
  pub effective_url : ℕ → State → ℕ × Option Bytes
  pub content_type_of : ℕ → State → ℕ × Option Bytes
  pub scheme_of : ℕ → State → ℕ × Option Bytes
  pub escape : ℕ → Option Bytes → State → Option Bytes
  pub live : State → ℕ → Bool
  -- What CURLINFO_PRIVATE answers.
  pub private_of : State → ℕ → ℕ
  pub easy_init-Created : (s : State) → Created live private_of s (easy_init s)
  pub duphandle-Created : (h : ℕ) (s : State) → Created live private_of s (duphandle h s)
  pub setopt-others :
      (h : ℕ) (setting : Setting) (s : State)
      → OthersKept live private_of h s (setopt h setting s).1
  pub setopt-live :
      (h : ℕ) (setting : Setting) (s : State) → live (setopt h setting s).1 h ≡ live s h
  pub setopt-private :
      (h p : ℕ) (s : State) → live s h ≡ true → private_of (setopt h (private p) s).1 h ≡ p
  pub setopt-other :
      (h : ℕ) (setting : Setting) (s : State)
      → is_private setting ≡ false
      → private_of (setopt h setting s).1 h ≡ private_of s h
  pub easy_reset-others : (h : ℕ) (s : State) → OthersKept live private_of h s (easy_reset h s)
  pub easy_reset-live : (h : ℕ) (s : State) → live (easy_reset h s) h ≡ live s h
  pub cleanup-others : (h : ℕ) (s : State) → OthersKept live private_of h s (cleanup h s)

-- libcurl, and the fields of the `Easy` objects by their addresses.
pub record World (S : Type 0) : Type 0 where
  pub libcurl : S
  pub handle_of : ℕ → ℕ
  pub multi_userdata : ℕ → ℕ

abbrev pub put_at : (ℕ → ℕ) → ℕ → ℕ → ℕ → ℕ
put_at f a v b = if b == a then v else f b

-- `std::string(str)`
pub string_at : Option Bytes → Run Error Bytes
string_at none = undefined
string_at (some str) = ok str

-- `CURL_ASSERT`
pub curl_assert : ℕ → Run Error (Unit {0})
curl_assert code = if code == 0 then ok tt else throw (easy_exception code)

module _ (curl : CurlEasy) where
  open curl use {
    State, easy_init, duphandle, setopt, easy_reset, cleanup, easy_perform, response_code,
    effective_url, content_type_of, scheme_of, escape,
  }

  -- `curl_easy_setopt(handle, …)` in a member of the `Easy` at `e`.
  unfoldable pub set_option : ℕ → Setting → World State → World State
  set_option e setting w = record w { libcurl = (setopt (w.handle_of e) setting w.libcurl).1 }

  -- `Easy(void *)` at `e`
  unfoldable pub from_handle : ℕ → ℕ → World State → World State
  unfolding set_option
  from_handle e hd w = set_option e (private e) (record w {
    handle_of = put_at w.handle_of e hd;
    multi_userdata = put_at w.multi_userdata e 0;
  })

  -- `Easy()`; `debug` where NDEBUG is not defined.
  pub construct : Bool → ℕ → World State → World State
  unfolding set_option
  construct debug e w =
      let (hd, s) = easy_init w.libcurl in
      let w =
        set_option e (private e) (record w { libcurl = s; handle_of = put_at w.handle_of e hd }) in
      let w = if debug then set_option e verbose w else w in
      let w = set_option e no_signal w in record w { multi_userdata = put_at w.multi_userdata e 0 }

  -- `Easy(Easy &&)`
  pub move : ℕ → ℕ → World State → World State
  unfolding set_option
  move e from w =
      let w = set_option e (private e) (record w {
        handle_of = put_at w.handle_of e (w.handle_of from);
        multi_userdata = put_at w.multi_userdata e (w.multi_userdata from);
      }) in
      record w {
        handle_of = put_at w.handle_of from 0;
        multi_userdata = put_at w.multi_userdata from 0;
      }

  -- `Easy(const Easy &)`
  pub copy : ℕ → ℕ → World State → World State
  unfolding from_handle
  copy e from w =
      let (hd, s) = duphandle (w.handle_of from) w.libcurl in
      from_handle e hd (record w { libcurl = s })

  -- `clone`; `e` is where `new` puts the object.
  unfoldable pub clone : ℕ → ℕ → World State → World State
  unfolding from_handle
  clone e from w =
      let (hd, s) = duphandle (w.handle_of from) w.libcurl in
      from_handle e hd (record w { libcurl = s })

  -- The destructor; nothing is left at `e`.
  unfoldable pub destroy : ℕ → World State → World State
  destroy e w = record w {
    libcurl = cleanup (w.handle_of e) w.libcurl;
    handle_of = put_at w.handle_of e 0;
  }

  pub reset : ℕ → World State → World State
  unfolding set_option
  reset e w =
      let w = record w { libcurl = easy_reset (w.handle_of e) w.libcurl } in
      let w = set_option e (private e) (set_option e no_signal w) in
      record w { multi_userdata = put_at w.multi_userdata e 0 }

  pub perform : ℕ → World State → Run Error (World State)
  unfolding curl_assert
  perform e w = do
    let r = easy_perform (w.handle_of e) w.libcurl
    curl_assert r.0
    ok (record w { libcurl = r.1 })
