-- ===== src/Socket/AddrV6.antt =====
-- `AddrV6` (src/socket.cpp): the fields of `sockaddr_in6` that the class uses.
pub mod Laws
use box_utils.Common.{Bytes, ℕ, none, some, Run, ok, throw}
use box_utils.Socket.Resolver.{Resolver, Error, socket_error}

pub record AddrV6 : Type 0 where
  pub sin6_family : ℕ
  pub sin6_port : ℕ
  pub sin6_addr : ℕ

module _ (net : Resolver) where
  open net use {htons, ntohs, inet_pton, inet_ntop, gethostbyaddr}

  pub clear : AddrV6
  clear = record { sin6_family = net.af_inet6; sin6_port = 0; sin6_addr = 0 }

  -- A text that is no address leaves the field as it is.
  pub set_ip : Bytes → AddrV6 → AddrV6
  set_ip ip a = elim (inet_pton ip) [ none ↦ a | some addr ↦ record a { sin6_addr = addr } ]

  pub set_port : ℕ → AddrV6 → AddrV6
  set_port port a = record a { sin6_port = htons port }

  -- `AddrV6(ip, port)` and `From`; `memory` is what stands in the new object before.
  pub from_ip : AddrV6 → Bytes → ℕ → AddrV6
  unfolding set_ip set_port
  from_ip memory ip port = set_port port (set_ip ip memory)

  pub get_host : AddrV6 → Run Error Bytes
  get_host a = elim (gethostbyaddr a.sin6_addr) [
    | none ↦ throw (socket_error net.errno)
    | some name ↦ ok name
  ]

  pub get_ip : AddrV6 → Bytes
  get_ip a = inet_ntop a.sin6_addr

  pub get_port : AddrV6 → ℕ
  get_port a = ntohs a.sin6_port
