-- ===== src/Net/Share.antt =====
-- `Share` (src/net/share.cpp): the mutexes behind the lock callbacks that libcurl is given, and
-- what it is told to share. libcurl is not part of the model: the calls that it makes are steps.
pub mod Laws
use box_utils.Common.{
  ℕ, Bool, true, false, ◌&&◌, List, [], ◌∷◌, ◌++◌, leb, ◌==◌, if◌then◌else◌, Run, ◌>>=◌, ok, throw,
  undefined, aborted,
}

-- `curl_lock_data`; `other` stands for every other value.
pub data LockData : Type 0 where
  cookie dns ssl_session connect psl share other : LockData

pub record Mutexs : Type 0 where
  pub m_cookie : Bool
  pub m_dns : Bool
  pub m_ssl_session : Bool
  pub m_connect : Bool
  pub m_psl : Bool
  pub m_share : Bool

-- `blocked` where the caller waits for the mutex.
pub data Error : Type 0 where
  blocked : Error

-- `LIBCURL_VERSION_MAJOR >= 7 && LIBCURL_VERSION_MINOR >= 61`
pub has_psl : ℕ → ℕ → Bool
has_psl major minor = leb 7 major && leb 61 minor

-- `m.lock()` on one mutex, from its state to its new state.
acquire : Bool → Run Error Bool
acquire locked = if locked then throw blocked else ok true

-- `m.unlock()`; undefined where it is not locked.
release : Bool → Run Error Bool
release locked = if locked then ok false else undefined

-- `lock_fn`
pub lock_fn : Bool → LockData → Mutexs → Run Error Mutexs
unfolding acquire
lock_fn with_psl cookie m = do b ← acquire m.m_cookie; ok (record m { m_cookie = b })
lock_fn with_psl dns m = do b ← acquire m.m_dns; ok (record m { m_dns = b })
lock_fn with_psl ssl_session m = do b ← acquire m.m_ssl_session; ok (record m { m_ssl_session = b })
lock_fn with_psl connect m = do b ← acquire m.m_connect; ok (record m { m_connect = b })
lock_fn true psl m = do b ← acquire m.m_psl; ok (record m { m_psl = b })
lock_fn false psl m = aborted
lock_fn with_psl share m = do b ← acquire m.m_share; ok (record m { m_share = b })
lock_fn with_psl other m = aborted

-- `unlock_fn`
pub unlock_fn : Bool → LockData → Mutexs → Run Error Mutexs
unfolding release
unlock_fn with_psl cookie m = do b ← release m.m_cookie; ok (record m { m_cookie = b })
unlock_fn with_psl dns m = do b ← release m.m_dns; ok (record m { m_dns = b })
unlock_fn with_psl ssl_session m = do
  b ← release m.m_ssl_session
  ok (record m { m_ssl_session = b })
unlock_fn with_psl connect m = do b ← release m.m_connect; ok (record m { m_connect = b })
unlock_fn true psl m = do b ← release m.m_psl; ok (record m { m_psl = b })
unlock_fn false psl m = aborted
unlock_fn with_psl share m = do b ← release m.m_share; ok (record m { m_share = b })
unlock_fn with_psl other m = aborted

-- The share handle, and which share handle each easy handle uses (0 none).
pub record Share : Type 0 where
  pub handle : ℕ
  pub shared : List LockData

-- `curl_share_setopt(handle, CURLSHOPT_SHARE, data)`
share_data : LockData → Share → Share
share_data d s = record s { shared = s.shared ++ d ∷ [] }

pub set_share_cookie : Share → Share
unfolding share_data
set_share_cookie = share_data cookie

pub set_share_connect : Share → Share
unfolding share_data
set_share_connect = share_data connect

pub set_share_dns : Share → Share
unfolding share_data
set_share_dns = share_data dns

pub set_share_ssl_session : Share → Share
unfolding share_data
set_share_ssl_session = share_data ssl_session

pub set_share_psl : Bool → Share → Share
unfolding share_data
set_share_psl with_psl s = if with_psl then share_data psl s else s

pub set_share_all : Bool → Share → Share
unfolding set_share_cookie set_share_connect set_share_dns set_share_ssl_session set_share_psl
set_share_all with_psl s =
    set_share_ssl_session
      (set_share_psl with_psl (set_share_dns (set_share_cookie (set_share_connect s))))

-- `add_handle` and `remove_handle`: `CURLOPT_SHARE` of an easy handle.
pub add_handle : Share → ℕ → (ℕ → ℕ) → ℕ → ℕ
add_handle s easy shares h = if h == easy then s.handle else shares h

pub remove_handle : ℕ → (ℕ → ℕ) → ℕ → ℕ
remove_handle easy shares h = if h == easy then 0 else shares h
