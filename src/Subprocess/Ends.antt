-- ===== src/Subprocess/Ends.antt =====
-- One descriptor of a table, through what src/subprocess.cpp opens and closes.
use box_utils.Common.{
  ℕ, ◌≡◌, refl, sym, ap, ◌∙◌, ◌≢◌, Bool, true, false, Option, none, some, arith, ℕ_discrete, ◌==◌,
  if◌then◌else◌, ok,
}
use mathlib.Core.Path.{subst}
use box_utils.Subprocess.{End, Table, Fds, close_fd, open_pipe, redirect, close_both}

-- What `redirect` makes of a pipe.
abbrev pub ends : Bool → ℕ → ℕ → Fds
ends false r w = record { read_end = none; write_end = none }
ends true r w = record { read_end = some r; write_end = some w }

abbrev pub opened : Bool → ℕ → ℕ → ℕ → Table → Table
opened false id r w t = t
opened true id r w t = open_pipe id r w t

pub redirect-some :
    (re : Bool) (id r w : ℕ) (t : Table)
    → redirect re id (some (r, w)) t ≡ ok (ends re r w, opened re id r w t)
unfolding redirect
redirect-some false id r w t = refl
redirect-some true id r w t = refl

value-injective : (a b : ℕ) → some a ≡ some b → a ≡ b
value-injective a b e = ap (λ o. elim o [ none ↦ a | some y ↦ y ]) e

apart : (x fd : ℕ) → some fd ≢ some x → (x == fd) ≡ false
apart x fd differs = elim (ℕ_discrete x fd) [
  | yes same ↦ absurd (differs (ap some (sym same)))
  | no ne ↦ ground arith
]

-- At the descriptor `x`, which is open on `v` to begin with.
module _ (x : ℕ) (v : Option End) where
  -- Where the descriptor is `x`, nothing was open.
  abbrev pub Fresh : Option ℕ → Type 0
  Fresh fd = fd ≡ some x → v ≡ none

  pub close_fd-at :
      (fd : Option ℕ) (t : Table) → Fresh fd → (fd ≢ some x → t x ≡ v) → close_fd fd t x ≡ v
  unfolding close_fd
  close_fd-at none t fresh kept = kept (λ e. absurd (cc))
  close_fd-at (some fd) t fresh kept = elim (ℕ_discrete x fd) [
    | yes same ↦
        let hit : (x == fd) ≡ true = ground arith in rw hit (sym (fresh (ap some (sym same))))
    | no differs ↦
        let miss : (x == fd) ≡ false = ground arith in
        rw miss (kept (λ e. differs (sym (value-injective fd x e))))
  ]

  pub close_both-at :
      (fds : Fds) (t : Table)
      → Fresh fds.read_end
      → Fresh fds.write_end
      → (fds.read_end ≢ some x → fds.write_end ≢ some x → t x ≡ v)
      → close_both fds t x ≡ v
  unfolding close_both
  close_both-at fds t fresh_r fresh_w kept =
      close_fd-at fds.read_end (close_fd fds.write_end t) fresh_r
        (λ not_r. close_fd-at fds.write_end t fresh_w (λ not_w. kept not_r not_w))

  pub close_if-at :
      (re : Bool) (fd : Option ℕ) (t : Table)
      → (re ≡ false → fd ≡ none)
      → Fresh fd
      → (fd ≢ some x → t x ≡ v)
      → (if re then close_fd fd t else t) x ≡ v
  close_if-at false fd t off fresh kept = kept (λ e. absurd (cc (off refl, e)))
  close_if-at true fd t off fresh kept = close_fd-at fd t fresh kept

  pub opened-at :
      (re : Bool) (id r w : ℕ) (t : Table)
      → (ends re r w).read_end ≢ some x
      → (ends re r w).write_end ≢ some x
      → t x ≡ v
      → opened re id r w t x ≡ v
  unfolding open_pipe
  opened-at false id r w t not_r not_w e = e
  opened-at true id r w t not_r not_w e =
      let apart_r : (x == r) ≡ false = apart x r not_r in
      let apart_w : (x == w) ≡ false = apart x w not_w in rw (apart_r, apart_w) e

  pub ends-Fresh :
      (re : Bool) (r w : ℕ) (u : Table)
      → u x ≡ v
      → u r ≡ none
      → u w ≡ none
      → Fresh (ends re r w).read_end × Fresh (ends re r w).write_end
  ends-Fresh false r w u here free_r free_w = (λ e. absurd (cc), λ e. absurd (cc))
  ends-Fresh true r w u here free_r free_w = (
    λ e. sym here ∙ subst (λ y. u y ≡ none) (value-injective r x e) free_r,
    λ e. sym here ∙ subst (λ y. u y ≡ none) (value-injective w x e) free_w,
  )

  pub read_end-off : (re : Bool) (r w : ℕ) → re ≡ false → (ends re r w).read_end ≡ none
  read_end-off false r w off = refl
  read_end-off true r w off = absurd (cc)

  pub write_end-off : (re : Bool) (r w : ℕ) → re ≡ false → (ends re r w).write_end ≡ none
  write_end-off false r w off = refl
  write_end-off true r w off = absurd (cc)

  pub stream-Fresh : (re : Bool) (o : Option ℕ) → Fresh o → Fresh (if re then o else none)
  stream-Fresh false o fresh = λ e. absurd (cc)
  stream-Fresh true o fresh = fresh

  pub stream-off :
      (re : Bool) (o : Option ℕ)
      → (re ≡ false → o ≡ none)
      → (if re then o else none) ≢ some x
      → o ≢ some x
  stream-off false o off differs = λ e. absurd (cc (off refl, e))
  stream-off true o off differs = differs
