-- ===== src/Socket/Stream.antt =====
-- The operations of a `Socket` (src/socket.cpp) on its descriptor. A `Socket` is its field `fd`.
pub mod Laws
use box_utils.Common.{
  ℕ, Bytes, Bool, true, false, not, Option, none, some, bit_or, if◌then◌else◌, Run, ok, throw,
  undefined, aborted,
}
use Prim.Native.Nat.{bit_xor}
use box_utils.Socket.Api.{
  Api, SockFamily, unix, SockType, sock_stream, sock_dgram, Error, socket_error, Cmd, pure, call,
  continue, ◌>>=◌, ◌>>◌, is_invalid, throw_errno, check,
}

module _ (api : Api) where
  open api use {Os, Addr, sizeof, o_nonblock, closesocket, getfl, setfl}

  -- `Socket(NativeSocket)`
  pub from_fd : Option ℕ → Option ℕ
  from_fd fd = fd

  -- `detach_fd`: the descriptor, and the field afterwards.
  pub detach_fd : Option ℕ → Option ℕ × Option ℕ
  detach_fd fd = (fd, none)

  -- `Socket(Socket &&)`: both fields afterwards.
  pub move : Option ℕ → Option ℕ × Option ℕ
  unfolding detach_fd
  move = detach_fd

  -- What the field holds afterwards.
  pub close : Option ℕ → Cmd Os (Option ℕ)
  unfolding is_invalid
  close fd os = if not (is_invalid fd) then ok (fd, closesocket fd os) else ok (fd, os)

  -- `~Socket`
  pub destroy : Option ℕ → Cmd Os (Unit {0})
  unfolding close
  destroy fd = do close fd; pure tt

  pub recv : Option ℕ → ℕ → ℕ → Cmd Os (Option Bytes)
  recv fd buflen flags = call (api.recv fd buflen flags)

  pub send : Option ℕ → Bytes → ℕ → Cmd Os (Option ℕ)
  send fd buf flags = call (api.send fd buf flags)

  -- `operator <<`
  pub send_string : Option ℕ → Bytes → Cmd Os (Option ℕ)
  unfolding send
  send_string fd str = send fd str 0

  pub sendto : Option ℕ → Bytes → ℕ → Addr → Cmd Os (Option ℕ)
  sendto fd buf flags addr = call (api.sendto fd buf flags addr)

  pub recvfrom : Option ℕ → ℕ → ℕ → Cmd Os (Option Bytes)
  recvfrom fd buflen flags = call (api.recvfrom fd buflen flags)

  pub set_nonblock : Bool → Option ℕ → Cmd Os (Unit {0})
  unfolding throw_errno
  set_nonblock val fd os = elim (getfl fd os) [
    | none ↦ throw_errno api os
    | some flags ↦
        (do
          code ← call (setfl fd (if val then bit_or flags o_nonblock else bit_xor flags o_nonblock))
          check api code)
          os
  ]

  -- `bind` with an address of a given size; the others pass on the size of their own type.
  pub bind : Option ℕ → Addr → ℕ → Cmd Os (Unit {0})
  bind fd addr addrsize = do code ← call (api.bind fd addr addrsize); check api code

  pub bind_addr : Option ℕ → Addr → Cmd Os (Unit {0})
  unfolding bind
  bind_addr fd addr = bind fd addr (sizeof addr)

  pub listen : Option ℕ → ℕ → Cmd Os (Unit {0})
  listen fd backlog = do ret ← call (api.listen fd backlog); check api ret

  pub connect : Option ℕ → Addr → ℕ → Cmd Os (Unit {0})
  connect fd addr addrsize = do code ← call (api.connect fd addr addrsize); check api code

  pub connect_addr : Option ℕ → Addr → Cmd Os (Unit {0})
  unfolding connect
  connect_addr fd addr = connect fd addr (sizeof addr)

  -- `Create`
  pub create : SockFamily → SockType → ℕ → Cmd Os (Option ℕ)
  unfolding is_invalid throw_errno
  create domain type prot = do
    sock ← call (api.socket domain type prot)
    if is_invalid sock then throw_errno api else pure sock

  pub tcp : SockFamily → Cmd Os (Option ℕ)
  unfolding create
  tcp family = create family sock_stream 0

  pub udp : SockFamily → Cmd Os (Option ℕ)
  unfolding create
  udp family = create family sock_dgram 0

  -- `accept`; `none` is the null pointer.
  pub accept : Option ℕ → Cmd Os (Option (Option ℕ))
  unfolding is_invalid from_fd
  accept fd = do
    ret ← call (api.accept fd)
    if is_invalid ret then pure none else pure (some (from_fd ret))

  pub pair : Cmd Os (Option ℕ × Option ℕ)
  unfolding from_fd throw_errno
  pair = do
    fds ← call api.socketpair
    elim fds [ none ↦ throw_errno api | some (a, b) ↦ pure (from_fd (some a), from_fd (some b)) ]
