-- ===== src/Socket/Resolver.antt =====
-- The conversions of addresses and the look-up of hosts that src/socket.cpp uses.
use box_utils.Common.{Bytes, ℕ, ◌^◌, ◌<◌, ◌≡◌, Option}

pub record Resolver : Type 0 where
  pub htons : ℕ → ℕ
  pub ntohs : ℕ → ℕ
  pub inet_addr : Bytes → ℕ
  pub inet_ntoa : ℕ → Bytes
  pub inet_pton : Bytes → Option ℕ
  pub inet_ntop : ℕ → Bytes
  pub gethostbyname : Bytes → Option ℕ
  pub gethostbyaddr : ℕ → Option Bytes
  pub errno : ℕ
  pub af_inet : ℕ
  pub af_inet6 : ℕ
  -- Ports have 16 bits, and the two conversions undo each other.
  pub ntohs_htons : (port : ℕ) → port < 2 ^ 16 → ntohs (htons port) ≡ port

pub data Error : Type 0 where
  socket_error : ℕ → Error
