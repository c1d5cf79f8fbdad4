-- ===== src/Socket/Api.antt =====
-- The calls of the system that src/socket.cpp makes. A descriptor is a number, `none` is -1; a
-- call that answers a code succeeds with 0. `Os` is the state of the system.
use box_utils.Common.{
  Bytes, ℕ, Bool, true, Option, none, some, ◌==◌, if◌then◌else◌, Run, ok, throw, undefined, aborted,
}

pub data SockFamily : Type 0 where
  ipv4 ipv6 unix : SockFamily

pub data SockType : Type 0 where
  sock_stream sock_dgram : SockType

pub record Api : Type 1 where
  pub Os : Type 0
  pub Addr : Type 0
  pub sizeof : Addr → ℕ
  pub errno : Os → ℕ
  pub o_nonblock : ℕ
  pub socket : SockFamily → SockType → ℕ → Os → Option ℕ × Os
  pub socketpair : Os → Option (ℕ × ℕ) × Os
  pub closesocket : Option ℕ → Os → Os
  pub bind : Option ℕ → Addr → ℕ → Os → ℕ × Os
  pub connect : Option ℕ → Addr → ℕ → Os → ℕ × Os
  pub listen : Option ℕ → ℕ → Os → ℕ × Os
  pub accept : Option ℕ → Os → Option ℕ × Os
  pub getsockname : Option ℕ → ℕ → Os → (ℕ × Addr) × Os
  pub getpeername : Option ℕ → ℕ → Os → (ℕ × Addr) × Os
  pub send : Option ℕ → Bytes → ℕ → Os → Option ℕ × Os
  pub recv : Option ℕ → ℕ → ℕ → Os → Option Bytes × Os
  pub sendto : Option ℕ → Bytes → ℕ → Addr → Os → Option ℕ × Os
  pub recvfrom : Option ℕ → ℕ → ℕ → Os → Option Bytes × Os
  pub getfl : Option ℕ → Os → Option ℕ
  pub setfl : Option ℕ → ℕ → Os → ℕ × Os

-- `SocketError` has the error number of the system.
pub data Error : Type 0 where
  socket_error : ℕ → Error

abbrev pub Cmd : Type 0 → Type 0 → Type 0
Cmd O A = O → Run Error (A × O)

abbrev pub pure : {O A : Type 0} → A → Cmd O A
pure a os = ok (a, os)

-- A call of the system.
abbrev pub call : {O A : Type 0} → (O → A × O) → Cmd O A
call f os = ok (f os)

abbrev pub continue : {O A B : Type 0} → Run Error (A × O) → (A → Cmd O B) → Run Error (B × O)
continue (ok (a, os)) k = k a os
continue (throw e) k = throw e
continue undefined k = undefined
continue aborted k = aborted

infixl 5 ◌>>=◌ ◌>>◌
abbrev pub ◌>>=◌ : {O A B : Type 0} → Cmd O A → (A → Cmd O B) → Cmd O B
m >>= k = λ os. continue (m os) k

abbrev pub ◌>>◌ : {O A B : Type 0} → Cmd O A → Cmd O B → Cmd O B
m >> k = m >>= λ _. k

-- `BOX_SOCKET_INVAID`: below or equal to 0.
unfoldable pub is_invalid : Option ℕ → Bool
is_invalid none = true
is_invalid (some fd) = fd == 0

module _ (api : Api) where
  open api use {Os, errno}

  -- `SocketError::Throw(Socket::GetErrorCode())`
  unfoldable pub throw_errno : {A : Type 0} → Cmd Os A
  throw_errno os = throw (socket_error (errno os))

  -- `if(code != 0){ SocketError::Throw(...); }`
  unfoldable pub check : ℕ → Cmd Os (Unit {0})
  unfolding throw_errno
  check code = if code == 0 then pure tt else throw_errno
