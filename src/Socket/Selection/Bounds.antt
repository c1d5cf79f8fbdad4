-- ===== src/Socket/Selection/Bounds.antt =====
-- What `Select` (src/socket.cpp) tells `select` about the descriptors.
use box_utils.Common.{
  ℕ, ◌≤◌, ◌<◌, ◌≡◌, refl, inl, inr, true, Option, none, some, List, [], ◌∷◌, arith, ltb, ◌==◌,
  if◌then◌else◌, Bool-cases, All, Run, ◌>>=◌, ok,
}
use box_utils.Socket.Selection.{SockSet, fd_setsize, Error, clear, above, add, raise, nfds, select}

abbrev higher : Option ℕ → Option ℕ → Option ℕ
higher a m = if above a m then a else m

-- The higher one of two, as `nfds` reads it.
nfds-higher :
    (a m : Option ℕ)
    → (nfds a ≤ nfds (higher a m))
      × (nfds m ≤ nfds (higher a m))
      × ((bound : ℕ) → nfds a ≤ bound → nfds m ≤ bound → nfds (higher a m) ≤ bound)
unfolding above nfds
nfds-higher none m = (omega arith, omega arith, λ b h k. k)
nfds-higher (some a) none = (omega arith, omega arith, λ b h k. h)
nfds-higher (some a) (some b) = elim (Bool-cases (ltb b a)) [
  | inl t ↦ rw t (omega arith, ground arith, λ bound h k. h)
  | inr f ↦ rw f (ground arith, omega arith, λ bound h k. k)
]

-- The set has the descriptors of the list, and `max_fd` is at least each of them and below
-- `FD_SETSIZE`.
pub record Covers (s : SockSet) (added : List ℕ) : Type 0 where
  pub members : All (λ fd. (s.fds fd ≡ true) × (fd < nfds s.max_fd)) added
  pub size : nfds s.max_fd ≤ fd_setsize

abbrev with_fd : ℕ → SockSet → SockSet
with_fd fd s = record {
  fds = λ x. if x == fd then true else s.fds x;
  max_fd = higher (some fd) s.max_fd;
}

members-with_fd :
    (fd : ℕ) (s : SockSet) (added : List ℕ)
    → All (λ x. (s.fds x ≡ true) × (x < nfds s.max_fd)) added
    → All (λ x. ((with_fd fd s).fds x ≡ true) × (x < nfds (with_fd fd s).max_fd)) added
members-with_fd fd s [] h = tt
members-with_fd fd s (x ∷ added) ((there, below), h) =
    let grown : nfds s.max_fd ≤ nfds (higher (some fd) s.max_fd) =
      (nfds-higher (some fd) s.max_fd).1 in
    ((ground arith, omega (arith, below, grown)), members-with_fd fd s added h)

add-Covers :
    (fd : ℕ) (s : SockSet) (added : List ℕ)
    → fd < fd_setsize
    → Covers s added
    → (add (some fd) s ≡ ok (with_fd fd s)) × Covers (with_fd fd s) (fd ∷ added)
unfolding add nfds
add-Covers fd s added h c =
    let fits : ltb fd fd_setsize ≡ true = ground arith in
    let self : (fd == fd) ≡ true = ground arith in
    let (low, grown, within) = nfds-higher (some fd) s.max_fd in
    (
      rw fits refl,
      record {
        members = ((rw self refl, omega (arith, low)), members-with_fd fd s added c.members);
        size = within fd_setsize (omega (arith, h)) c.size;
      },
    )

abbrev pub reversed : List ℕ → List ℕ → List ℕ
reversed [] done = done
reversed (fd ∷ todo) done = reversed todo (fd ∷ done)

-- One `add` after the other.
pub adds : List ℕ → SockSet → Run Error SockSet
adds [] s = ok s
adds (fd ∷ rest) s = do s ← add (some fd) s; adds rest s

adds-Covers :
    (todo done : List ℕ) (s : SockSet)
    → All (λ fd. fd < fd_setsize) todo
    → Covers s done
    → (s' : SockSet) × (adds todo s ≡ ok s') × Covers s' (reversed todo done)
unfolding adds
adds-Covers [] done s h c = (s, refl, c)
adds-Covers (fd ∷ todo) done s (small, h) c =
    let (added, c1) = add-Covers fd s done small c in
    let (s', went, c') = adds-Covers todo (fd ∷ done) (with_fd fd s) h c1 in (s', rw added went, c')

built :
    (fds : List ℕ)
    → All (λ fd. fd < fd_setsize) fds
    → (s : SockSet) × (adds fds clear ≡ ok s) × Covers s (reversed fds [])
unfolding clear nfds
built fds h = adds-Covers fds [] clear h (record { members = tt; size = omega arith })

-- Each descriptor of a set is below the number that `Select` passes on.
below-nfds :
    (s : SockSet) (fds : List ℕ) (n : ℕ) → Covers s fds → nfds s.max_fd ≤ n → All (λ fd. fd < n) fds
below-nfds s fds n c h = go fds c.members
  where
    go :
        (fds : List ℕ)
        → All (λ fd. (s.fds fd ≡ true) × (fd < nfds s.max_fd)) fds
        → All (λ fd. fd < n) fds
    go [] _ = tt
    go (x ∷ fds) ((_, below), rest) = (omega (arith, below, h), go fds rest)

-- Three sets that are made by `clear` and `add` from descriptors below `FD_SETSIZE`: nothing is
-- undefined, and `Select` passes a number to `select` that is above
-- every descriptor of the three and at most `FD_SETSIZE`.
pub select-above :
    (rs ws es : List ℕ)
    → All (λ fd. fd < fd_setsize) rs
    → All (λ fd. fd < fd_setsize) ws
    → All (λ fd. fd < fd_setsize) es
    → (r : SockSet) × (w : SockSet) × (e : SockSet) × (adds rs clear ≡ ok r)
      × (adds ws clear ≡ ok w)
      × (adds es clear ≡ ok e)
      × All (λ fd. fd < select (some r) (some w) (some e)) (reversed rs [])
      × All (λ fd. fd < select (some r) (some w) (some e)) (reversed ws [])
      × All (λ fd. fd < select (some r) (some w) (some e)) (reversed es [])
      × (select (some r) (some w) (some e) ≤ fd_setsize)
unfolding select raise
select-above rs ws es hr hw he =
    let (r, made_r, cr) = built rs hr in
    let (w, made_w, cw) = built ws hw in
    let (e, made_e, ce) = built es he in
    let m1 = higher r.max_fd none in
    let m2 = higher w.max_fd m1 in
    let (r1, _, top1) = nfds-higher r.max_fd none in
    let (w2, r2, top2) = nfds-higher w.max_fd m1 in
    let (e3, r3, top3) = nfds-higher e.max_fd m2 in
    (
      r,
      w,
      e,
      made_r,
      made_w,
      made_e,
      below-nfds r (reversed rs []) _ cr (omega (arith, r1, r2, r3)),
      below-nfds w (reversed ws []) _ cw (omega (arith, w2, r3)),
      below-nfds e (reversed es []) _ ce e3,
      top3 fd_setsize ce.size (top2 fd_setsize cw.size (top1 fd_setsize cr.size (omega arith))),
    )
