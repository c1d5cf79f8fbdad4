-- ===== src/Net/Factory.antt =====
-- `EasyFactory` and `EasyPackage` (src/net/factory.cpp) on top of Easy and Headers. A package is
-- given the addresses of its parts: of the list of its request headers, and of its `resp_headers`.
pub mod Moved
mod Examples
use box_utils.Common.{Bytes, ℕ, Option, List, [], ◌==◌, if◌then◌else◌, Run}
use box_utils.Headers.{update}
use box_utils.Net.Easy.{
  Error, write_to_string, EasyCallBack, function_at, CurlEasy, World, clone, destroy, copy, perform,
}
use box_utils.Net.Easy.Options.{set_url, set_headers, set_oheaders, set_write_cb, ostream_string}

pub record EasyPackage : Type 0 where
  -- `easy_handle`, 0 where it is null.
  pub easy_at : ℕ
  pub headers : List Bytes
  pub slist_at : ℕ
  pub resp_headers : ℕ

-- `_headers` and the template.
pub record EasyFactory : Type 0 where
  pub factory_headers : List Bytes
  pub template : ℕ

module _ (curl : CurlEasy) where
  open curl use {State}

  -- `EasyPackage(Easy *, const Headers &)`
  unfoldable pub make_package : ℕ → List Bytes → ℕ → ℕ → World State → EasyPackage × World State
  make_package e h slist_at resp_at w = (
    record { easy_at = e; headers = update h []; slist_at = slist_at; resp_headers = resp_at },
    set_headers curl e slist_at (set_oheaders curl e resp_at w),
  )

  -- `EasyPackage(EasyPackage &&)`: the new package, and what is left of the old one. The list of
  -- headers goes over to the new one.
  unfoldable pub move_package : ℕ → EasyPackage → EasyPackage × EasyPackage
  move_package resp_at pak = (
    record {
      easy_at = pak.easy_at;
      headers = pak.headers;
      slist_at = pak.slist_at;
      resp_headers = resp_at;
    },
    record pak { easy_at = 0; headers = []; slist_at = 0 },
  )

  -- `EasyPackage(const EasyPackage &)`; `new` puts the cloned Easy at `e`.
  pub copy_package : ℕ → ℕ → ℕ → EasyPackage → World State → EasyPackage × World State
  copy_package e slist_at resp_at pak w =
      make_package e pak.headers slist_at resp_at (clone curl e pak.easy_at w)

  -- `~EasyPackage`
  pub destroy_package : EasyPackage → World State → World State
  destroy_package pak w = if pak.easy_at == 0 then w else destroy curl pak.easy_at w

  -- `for_content`, with the function that was handed in at `fn`.
  pub for_content : ℕ → ℕ → EasyPackage → World State → Run Error (World State)
  for_content callback fn pak w =
      perform curl pak.easy_at (set_write_cb curl pak.easy_at (function_at callback) fn w)

  -- `content`, with its string at `str`.
  pub content : ℕ → EasyPackage → World State → Run Error (World State)
  content str pak w = perform curl pak.easy_at (ostream_string curl pak.easy_at str w)

  -- `create` and `allocate`
  unfoldable pub create :
      ℕ → ℕ → ℕ → Option Bytes → EasyFactory → World State → EasyPackage × World State
  create e slist_at resp_at url f w =
      make_package e f.factory_headers slist_at resp_at
        (set_url curl e url (clone curl e f.template w))

  -- `EasyFactory(const EasyFactory &)` and `EasyFactory(EasyFactory &&)`, which both copy.
  pub copy_factory : ℕ → EasyFactory → World State → EasyFactory × World State
  copy_factory e f w = (
    record { factory_headers = update f.factory_headers []; template = e },
    copy curl e f.template w,
  )
