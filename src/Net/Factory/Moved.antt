-- ===== src/Net/Factory/Moved.antt =====
-- Where the response headers of a package (src/net/factory.cpp) go.
use box_utils.Common.{Bytes, ℕ, ◌≡◌, refl, ap, ◌∙◌, ◌≢◌, Bool, true, false, Option}
use box_utils.Net.Easy.{
  Setting, header_data, http_header, header_function, write_to_headers, private, url, CurlEasy,
  World, put_at, set_option, from_handle, clone,
}
use box_utils.Net.Easy.Options.{set_url, set_headers, set_oheaders}
use box_utils.Net.Easy.Owned.{put_at-same}
use box_utils.Net.Factory.{EasyFactory, make_package, move_package, create}

abbrev pub is_header_data : Setting → Bool
is_header_data (header_data p) = true
is_header_data setting = false

-- What libcurl documents of CURLOPT_HEADERDATA: the pointer that is handed to the callback.
pub record HeaderTarget (curl : CurlEasy) : Type 0 where
  pub target_of : curl.State → ℕ → ℕ
  pub target_of-set :
      (h p : ℕ) (s : curl.State)
      → curl.live s h ≡ true
      → target_of (curl.setopt h (header_data p) s).1 h ≡ p
  pub target_of-other :
      (h : ℕ) (setting : Setting) (s : curl.State)
      → is_header_data setting ≡ false
      → target_of (curl.setopt h setting s).1 h ≡ target_of s h

module _ (curl : CurlEasy) (target : HeaderTarget curl) where
  open curl use {State, live, duphandle, setopt}

  -- A package is created by a factory, with its response headers at `old`, and moved to one with
  -- its response headers at `new`. Where libcurl had a handle for it: the new package has the
  -- handle, the old one none, and libcurl still hands `old` to the callback that collects the
  -- headers.
  pub create-move_package :
      (e slist_at old new : ℕ) (text : Option Bytes) (f : EasyFactory) (w : World State)
      → (duphandle (w.handle_of f.template) w.libcurl).0 ≢ 0
      → let (pak, w') = create curl e slist_at old text f w in
        let (moved, left) = move_package curl new pak in
        (moved.easy_at ≡ e)
        × (left.easy_at ≡ 0)
        × (moved.resp_headers ≡ new)
        × (target.target_of w'.libcurl (w'.handle_of moved.easy_at) ≡ old)
  unfolding create make_package move_package clone from_handle set_option set_url set_headers
      set_oheaders
  create-move_package e slist_at old new text f w has =
      let r = duphandle (w.handle_of f.template) w.libcurl in
      let h = put_at w.handle_of e r.0 e in
      let here : h ≡ r.0 = put_at-same curl w.handle_of e r.0 in
      let s1 = (setopt h (private e) r.1).1 in
      let s2 = (setopt h (url text) s1).1 in
      let s3 = (setopt h (header_function write_to_headers) s2).1 in
      let s4 = (setopt h (header_data old) s3).1 in
      let made : live r.1 r.0 ≡ true =
        ((curl.duphandle-Created (w.handle_of f.template) w.libcurl).0 has).1 in
      let alive : live s3 h ≡ true =
        curl.setopt-live h (header_function write_to_headers) s2
        ∙ curl.setopt-live h (url text) s1
        ∙ curl.setopt-live h (private e) r.1
        ∙ ap (λ x. live r.1 x) here
        ∙ made in
      (
        refl,
        refl,
        refl,
        target.target_of-other h (http_header slist_at) s4 refl
            ∙ target.target_of-set h old s3 alive,
      )
