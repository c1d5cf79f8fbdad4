-- ===== src/Socket/AddrV4.antt =====
-- `AddrV4` (src/socket.cpp): the fields of `sockaddr_in`, each in the order of the network.
use box_utils.Common.{Bytes, ℕ, none, some, Run, ok, throw}
use box_utils.Socket.Resolver.{Resolver, Error, socket_error}

pub record AddrV4 : Type 0 where
  pub sin_family : ℕ
  pub sin_port : ℕ
  pub sin_addr : ℕ

module _ (net : Resolver) where
  open net use {htons, ntohs, inet_addr, inet_ntoa, gethostbyname, gethostbyaddr}

  -- `clear`, and so the constructor without arguments.
  pub clear : AddrV4
  clear = record { sin_family = net.af_inet; sin_port = 0; sin_addr = 0 }

  -- `AddrV4(ip, port)` and `From`
  unfoldable pub from_ip : Bytes → ℕ → AddrV4
  unfolding clear
  from_ip ip port = record clear { sin_port = htons port; sin_addr = inet_addr ip }

  pub from_host : Bytes → ℕ → Run Error AddrV4
  unfolding clear
  from_host host port = elim (gethostbyname host) [
    | none ↦ throw (socket_error net.errno)
    | some addr ↦ ok (record clear { sin_port = htons port; sin_addr = addr })
  ]

  pub set_ip : Bytes → AddrV4 → AddrV4
  set_ip ip a = record a { sin_addr = inet_addr ip }

  pub set_port : ℕ → AddrV4 → AddrV4
  set_port port a = record a { sin_port = htons port }

  pub get_host : AddrV4 → Run Error Bytes
  get_host a = elim (gethostbyaddr a.sin_addr) [
    | none ↦ throw (socket_error net.errno)
    | some name ↦ ok name
  ]

  pub get_ip : AddrV4 → Bytes
  get_ip a = inet_ntoa a.sin_addr

  unfoldable pub get_port : AddrV4 → ℕ
  get_port a = ntohs a.sin_port
