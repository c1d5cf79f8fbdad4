-- ===== src/Socket/Selection.antt =====
-- `SockSet` and `Socket::Select` (src/socket.cpp). An `fd_set` is a test on descriptors.
pub mod Bounds
use box_utils.Common.{
  ℕ, suc, Bool, true, false, Option, none, some, ltb, ◌==◌, if◌then◌else◌, Run, ok, undefined,
}

pub record SockSet : Type 0 where
  pub fds : ℕ → Bool
  pub max_fd : Option ℕ

-- `FD_SETSIZE`
abbrev pub fd_setsize : ℕ
fd_setsize = 1024

pub data Error : Type 0 where
  no_error : Error

-- `clear`, and so the constructor.
pub clear : SockSet
clear = record { fds = λ fd. false; max_fd = none }

-- `fd > max_fd` on `int`s, -1 being `none`.
pub above : Option ℕ → Option ℕ → Bool
above none m = false
above (some fd) none = true
above (some fd) (some m) = ltb m fd

-- `add`; `FD_SET` is undefined on -1 and from `FD_SETSIZE` on.
pub add : Option ℕ → SockSet → Run Error SockSet
unfolding above
add none s = undefined
add (some fd) s =
    if ltb fd fd_setsize
    then ok (record {
      fds = λ x. if x == fd then true else s.fds x;
      max_fd = (if above (some fd) s.max_fd then some fd else s.max_fd);
    })
    else undefined

pub is_set : Option ℕ → SockSet → Run Error Bool
is_set none s = undefined
is_set (some fd) s = if ltb fd fd_setsize then ok (s.fds fd) else undefined

-- One of the `if`s that look for the highest descriptor; `none` is a null pointer.
raise : Option SockSet → Option ℕ → Option ℕ
unfolding above
raise none max_fd = max_fd
raise (some s) max_fd = if above s.max_fd max_fd then s.max_fd else max_fd

-- `max_fd + 1`
unfoldable pub nfds : Option ℕ → ℕ
nfds none = 0
nfds (some m) = suc m

-- `Select` up to the call of `select`, whose first argument it answers.
pub select : Option SockSet → Option SockSet → Option SockSet → ℕ
unfolding raise nfds
select r_set w_set e_set = nfds (raise e_set (raise w_set (raise r_set none)))
