-- ===== src/Socket.antt =====
-- `Socket`, `SockSet`, `AddrV4` and `AddrV6` (src/socket.cpp, POSIX branches). The sockets API of
-- the system is the parameter `Api`, its conversions of addresses the parameter `Resolver`.
pub mod Api
pub mod Resolver
pub mod AddrV4
pub mod AddrV6
pub mod Stream
pub mod Names
pub mod Selection
mod Examples
