-- ===== src/Socket/AddrV6/Laws.antt =====
-- What the constructors of the two kinds of addresses (src/socket.cpp) make.
use box_utils.Common.{Bytes, ℕ, ◌^◌, ◌<◌, ◌≡◌, refl, inl, inr, none, some, Option-cases}
use box_utils.Socket.Resolver.{Resolver}
use box_utils.Socket.AddrV4
use box_utils.Socket.AddrV6.{AddrV6, from_ip, set_ip, get_port}

module _ (net : Resolver) where
  open net use {inet_pton, af_inet, inet_addr}

  -- Both constructors from a text and a port of 16 bits keep the port. That of `AddrV4` sets the
  -- family; that of `AddrV6` leaves in it what stood in the memory of the new object, and the
  -- address too where the text is none.
  pub get_port-from_ip :
      (memory : AddrV6) (ip : Bytes) (port : ℕ)
      → port < 2 ^ 16
      → (AddrV4.get_port net (AddrV4.from_ip net ip port) ≡ port)
        × ((AddrV4.from_ip net ip port).sin_family ≡ af_inet)
        × (get_port net (from_ip net memory ip port) ≡ port)
        × ((from_ip net memory ip port).sin6_family ≡ memory.sin6_family)
        × ((from_ip net memory ip port).sin6_addr
            ≡ elim (inet_pton ip) [ none ↦ memory.sin6_addr | some addr ↦ addr ])
  unfolding from_ip set_ip get_port AddrV4.from_ip AddrV4.get_port
  get_port-from_ip memory ip port h =
      let kept : net.ntohs (net.htons port) ≡ port = net.ntohs_htons port h in
      elim (Option-cases (inet_pton ip)) [
        | inl e ↦ (kept, refl, kept, rw (set_ip, e) refl, rw (set_ip, e) refl)
        | inr (addr, e) ↦ (kept, refl, kept, rw (set_ip, e) refl, rw (set_ip, e) refl)
      ]
