-- ===== src/Net/Share/Laws.antt =====
-- What the lock callbacks of src/net/share.cpp do to the mutexes.
use box_utils.Common.{ℕ, ◌<◌, ◌≡◌, refl, sym, ap, Bool, true, false, arith, ok, throw, aborted}
use box_utils.Net.Share.{
  LockData, cookie, dns, ssl_session, connect, psl, share, other, Mutexs, blocked, has_psl, lock_fn,
  unlock_fn,
}

-- The mutex of a kind of data.
abbrev pub mutex_of : LockData → Mutexs → Bool
mutex_of cookie m = m.m_cookie
mutex_of dns m = m.m_dns
mutex_of ssl_session m = m.m_ssl_session
mutex_of connect m = m.m_connect
mutex_of psl m = m.m_psl
mutex_of share m = m.m_share
mutex_of other m = false

-- The kinds that the callbacks know.
abbrev pub known : Bool → LockData → Bool
known with_psl psl = with_psl
known with_psl other = false
known with_psl d = true

-- Where the version of libcurl passes the test on it, a free mutex of a kind that the callbacks
-- know is locked, a second lock of the kind waits, and the unlock gives back the mutexes as they
-- were.
pub lock-unlock :
    (with_psl : Bool) (d : LockData) (m : Mutexs)
    → known with_psl d ≡ true
    → mutex_of d m ≡ false
    → (m' : Mutexs) × (lock_fn with_psl d m ≡ ok m')
      × (mutex_of d m' ≡ true)
      × (lock_fn with_psl d m' ≡ throw blocked)
      × (unlock_fn with_psl d m' ≡ ok m)
unfolding lock_fn unlock_fn
lock-unlock with_psl cookie m k free = (
  record m { m_cookie = true },
  rw free refl,
  refl,
  refl,
  ap (λ b. ok (record m { m_cookie = b })) (sym free),
)
lock-unlock with_psl dns m k free = (
  record m { m_dns = true },
  rw free refl,
  refl,
  refl,
  ap (λ b. ok (record m { m_dns = b })) (sym free),
)
lock-unlock with_psl ssl_session m k free = (
  record m { m_ssl_session = true },
  rw free refl,
  refl,
  refl,
  ap (λ b. ok (record m { m_ssl_session = b })) (sym free),
)
lock-unlock with_psl connect m k free = (
  record m { m_connect = true },
  rw free refl,
  refl,
  refl,
  ap (λ b. ok (record m { m_connect = b })) (sym free),
)
lock-unlock true psl m k free = (
  record m { m_psl = true },
  rw free refl,
  refl,
  refl,
  ap (λ b. ok (record m { m_psl = b })) (sym free),
)
lock-unlock false psl m k free = absurd (cc)
lock-unlock with_psl share m k free = (
  record m { m_share = true },
  rw free refl,
  refl,
  refl,
  ap (λ b. ok (record m { m_share = b })) (sym free),
)
lock-unlock with_psl other m k free = absurd (cc)

-- With a libcurl whose minor version is below 61 the callbacks abort on the lock of the public
-- suffix list, whatever the major version is.
lock-psl_aborts :
    (major minor : ℕ) (m : Mutexs)
    → minor < 61
    → (lock_fn (has_psl major minor) psl m ≡ aborted)
      × (unlock_fn (has_psl major minor) psl m ≡ aborted)
unfolding lock_fn unlock_fn has_psl
lock-psl_aborts major minor m h =
    let too_old : has_psl major minor ≡ false = ground arith in (rw too_old refl, rw too_old refl)
