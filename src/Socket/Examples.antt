-- ===== src/Socket/Examples.antt =====
-- A toy system in place of the sockets API, and the theorems on src/socket.cpp in it.
use box_utils.Common.{
  codes, ℕ, ◌+◌, ◌*◌, ◌/◌, ◌%◌, ◌^◌, ◌≤◌, ◌<◌, ◌≡◌, none, some, List, [], ◌∷◌, arith, ◌==◌,
  if◌then◌else◌, length, All, ok,
}
use box_utils.Socket.Api.{Api, ◌>>=◌, ◌>>◌}
use box_utils.Socket.Resolver.{Resolver}
use box_utils.Socket.AddrV6.{AddrV6}
use box_utils.Socket.Stream.{destroy, move}
use box_utils.Socket.Stream.Laws.{closes, destroy-closes}
use box_utils.Socket.Selection.{SockSet, clear, select}
use box_utils.Socket.Selection.Bounds.{adds, select-above}

-- The two bytes of a port, swapped.
abbrev swap : ℕ → ℕ
swap p = p % 256 * 256 + p / 256

swap-swap : (p : ℕ) → p < 2 ^ 16 → swap (swap p) ≡ p
swap-swap p h = omega arith

abbrev net : Resolver
net = record {
  htons = swap;
  ntohs = swap;
  inet_addr = λ ip. length ip;
  inet_ntoa = λ a. a ∷ [];
  inet_pton = λ ip. if length ip == 0 then none else some (length ip);
  inet_ntop = λ a. a ∷ [];
  gethostbyname = λ host. none;
  gethostbyaddr = λ a. some (codes "host");
  errno = 5;
  af_inet = 2;
  af_inet6 = 10;
  ntohs_htons = swap-swap;
}

-- The system keeps the list of the descriptors that were closed.
abbrev toy : Api
toy = record {
  Os = List ℕ;
  Addr = ℕ;
  sizeof = λ a. 16;
  errno = λ os. 9;
  o_nonblock = 2048;
  socket = λ f t p os. (some 3, os);
  socketpair = λ os. (some (3, 4), os);
  closesocket = λ fd os. elim fd [ none ↦ os | some n ↦ n ∷ os ];
  bind = λ fd a n os. (0, os);
  connect = λ fd a n os. (1, os);
  listen = λ fd n os. (0, os);
  accept = λ fd os. (some 5, os);
  getsockname = λ fd n os. ((0, 7), os);
  getpeername = λ fd n os. ((1, 7), os);
  send = λ fd buf flags os. (some (length buf), os);
  recv = λ fd n flags os. (none, os);
  sendto = λ fd buf flags a os. (some (length buf), os);
  recvfrom = λ fd n flags os. (none, os);
  getfl = λ fd os. some 2;
  setfl = λ fd flags os. (0, os);
}

destroy-closes_example :
    (destroy toy (move toy (some 3)).1 >> (closes toy 1 (move toy (some 3)).0 >>= destroy toy)) []
    ≡ ok (tt, 3 ∷ 3 ∷ [])
destroy-closes_example = destroy-closes toy 1 3 [] (omega arith)

abbrev junk : AddrV6
junk = record { sin6_family = 77; sin6_port = 78; sin6_addr = 79 }

select-above_example :
    (r : SockSet) × (w : SockSet) × (e : SockSet) × (adds (5 ∷ 1023 ∷ []) clear ≡ ok r)
    × (adds (7 ∷ []) clear ≡ ok w)
    × (adds [] clear ≡ ok e)
    × All (λ fd. fd < select (some r) (some w) (some e)) (1023 ∷ 5 ∷ [])
    × All (λ fd. fd < select (some r) (some w) (some e)) (7 ∷ [])
    × All (λ fd. fd < select (some r) (some w) (some e)) []
    × (select (some r) (some w) (some e) ≤ 1024)
select-above_example =
    select-above (5 ∷ 1023 ∷ []) (7 ∷ []) [] (omega arith) (omega arith) (omega arith)
