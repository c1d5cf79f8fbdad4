-- ===== src/Socket/Names.antt =====
-- The address of a `Socket` and of its peer (src/socket.cpp). The functions of the source differ in
-- the type of the address, whose size they pass on.
use box_utils.Common.{ℕ, Option}
use box_utils.Socket.Api.{Api, Cmd, pure, call, ◌>>=◌, ◌>>◌, check}

module _ (api : Api) where
  open api use {Os, Addr}

  pub get_name : Option ℕ → ℕ → Cmd Os Addr
  get_name fd len = do (code, addr) ← call (api.getsockname fd len); check api code; pure addr

  pub get_peer_name : Option ℕ → ℕ → Cmd Os Addr
  get_peer_name fd len = do (code, addr) ← call (api.getpeername fd len); check api code; pure addr
