-- ===== src/Subprocess/Descriptors.antt =====
-- Which descriptors src/subprocess.cpp leaves open.
use box_utils.Common.{
  ℕ, suc, ◌≡◌, refl, ◌≢◌, ◌⊎◌, inl, inr, Bool, true, Option, none, some, [], ◌∷◌, if◌then◌else◌,
  All, ◌>>=◌, ok,
}
use box_utils.Subprocess.{
  Table, create, Fds, System, close_fd, open_pipe, make_pipe, fclose, close_both, destroy, returned,
  After, streams, close_ends, parent, fork_failed, run,
}
use box_utils.Subprocess.Ends.{
  ends, opened, redirect-some, close_fd-at, close_if-at, opened-at, ends-Fresh, read_end-off,
  write_end-off, stream-Fresh, stream-off, close_both-at,
}

-- Four pipes with free descriptors, and the three flags.
module _ (re_in re_out re_err : Bool) (f0 f1 i0 i1 o0 o1 e0 e1 : ℕ) (u : Table)
    (free : All (λ fd. u fd ≡ none) (f0 ∷ f1 ∷ i0 ∷ i1 ∷ o0 ∷ o1 ∷ e0 ∷ e1 ∷ [])) where
  abbrev fds : Fds
  fds = ends true f0 f1

  abbrev in_fds : Fds
  in_fds = ends re_in i0 i1

  abbrev out_fds : Fds
  out_fds = ends re_out o0 o1

  abbrev err_fds : Fds
  err_fds = ends re_err e0 e1

  -- The table behind the pipes.
  abbrev piped : Table
  piped = opened re_err 3 e0 e1 (opened re_out 2 o0 o1 (opened re_in 1 i0 i1 (open_pipe 0 f0 f1 u)))

  -- At a descriptor that is none of the pipes' ends.
  pub piped-at :
      (x : ℕ)
      → All
          (λ fd. fd ≢ some x)
          (fds.read_end ∷ fds.write_end ∷ in_fds.read_end ∷ in_fds.write_end ∷ out_fds.read_end
            ∷ out_fds.write_end ∷ err_fds.read_end ∷ err_fds.write_end ∷ [])
      → piped x ≡ u x
  piped-at x (n0, (n1, (n2, (n3, (n4, (n5, (n6, (n7, rest)))))))) =
      opened-at x (u x) re_err 3 e0 e1
        (opened re_out 2 o0 o1 (opened re_in 1 i0 i1 (open_pipe 0 f0 f1 u))) n6 n7
        (opened-at x (u x) re_out 2 o0 o1 (opened re_in 1 i0 i1 (open_pipe 0 f0 f1 u)) n4 n5 (
          opened-at x (u x) re_in 1 i0 i1 (open_pipe 0 f0 f1 u) n2 n3
            (opened-at x (u x) true 0 f0 f1 u n0 n1 refl)))

  -- Behind the ends that the parent closes, at a descriptor that is none that it keeps.
  pub close_ends-at :
      (x : ℕ)
      → in_fds.write_end ≢ some x
      → out_fds.read_end ≢ some x
      → err_fds.read_end ≢ some x
      → close_fd fds.read_end (close_ends re_in re_out re_err fds in_fds out_fds err_fds piped) x
        ≡ u x
  unfolding close_ends
  close_ends-at x not_in not_out not_err =
      let (free0, (free1, (free2, (free3, (free4, (free5, (free6, (free7, rest)))))))) = free in
      let (fresh0, fresh1) = ends-Fresh x (u x) true f0 f1 u refl free0 free1 in
      let (fresh2, fresh3) = ends-Fresh x (u x) re_in i0 i1 u refl free2 free3 in
      let (fresh4, fresh5) = ends-Fresh x (u x) re_out o0 o1 u refl free4 free5 in
      let (fresh6, fresh7) = ends-Fresh x (u x) re_err e0 e1 u refl free6 free7 in
      let t1 = close_fd fds.write_end piped in
      let t2 = if re_in then close_fd in_fds.read_end t1 else t1 in
      let t3 = if re_out then close_fd out_fds.write_end t2 else t2 in
      let t4 = if re_err then close_fd err_fds.write_end t3 else t3 in
      close_fd-at x (u x) fds.read_end t4 fresh0 (λ n0.
        close_if-at x (u x) re_err err_fds.write_end t3 (write_end-off x (u x) re_err e0 e1) fresh7
          (λ n7.
            close_if-at x (u x) re_out out_fds.write_end t2 (write_end-off x (u x) re_out o0 o1)
              fresh5
              (λ n5.
                close_if-at x (u x) re_in in_fds.read_end t1 (read_end-off x (u x) re_in i0 i1)
                  fresh2
                  (λ n2. close_fd-at x (u x) fds.write_end piped fresh1 (λ n1.
                    piped-at x (n0, (n1, (n2, (not_in, (not_out, (n5, (not_err, (n7, tt)))))))))))))

  abbrev in_stream : Option ℕ
  in_stream = if re_in then in_fds.write_end else none

  abbrev out_stream : Option ℕ
  out_stream = if re_out then out_fds.read_end else none

  abbrev err_stream : Option ℕ
  err_stream = if re_err then err_fds.read_end else none

  -- The table of the parent with its streams open.
  abbrev running : Table
  running = close_fd fds.read_end (close_ends re_in re_out re_err fds in_fds out_fds err_fds piped)

  -- The streams are closed in the order of the destructor, and in that of a failed `run`.
  streams-closed :
      (x : ℕ)
      → (close_fd in_stream (close_fd err_stream (close_fd out_stream running)) x ≡ u x)
        × (close_fd err_stream (close_fd out_stream (close_fd in_stream running)) x ≡ u x)
  streams-closed x =
      let (free0, (free1, (free2, (free3, (free4, (free5, (free6, (free7, rest)))))))) = free in
      let fresh_in =
        stream-Fresh x (u x) re_in in_fds.write_end
          (ends-Fresh x (u x) re_in i0 i1 u refl free2 free3).1 in
      let fresh_out =
        stream-Fresh x (u x) re_out out_fds.read_end
          (ends-Fresh x (u x) re_out o0 o1 u refl free4 free5).0 in
      let fresh_err =
        stream-Fresh x (u x) re_err err_fds.read_end
          (ends-Fresh x (u x) re_err e0 e1 u refl free6 free7).0 in
      let kept =
        λ (n_in : in_stream ≢ some x) (n_out : out_stream ≢ some x) (n_err : err_stream ≢ some x).
          close_ends-at x
            (stream-off x (u x) re_in in_fds.write_end (write_end-off x (u x) re_in i0 i1) n_in)
            (stream-off x (u x) re_out out_fds.read_end (read_end-off x (u x) re_out o0 o1) n_out)
            (stream-off x (u x) re_err err_fds.read_end (read_end-off x (u x) re_err e0 e1)
              n_err) in
      let destroyed =
        close_fd-at x (u x) in_stream (close_fd err_stream (close_fd out_stream running)) fresh_in
          (λ n_in. close_fd-at x (u x) err_stream (close_fd out_stream running) fresh_err (λ n_err.
            close_fd-at x (u x) out_stream running fresh_out (λ n_out. kept n_in n_out n_err))) in
      let closed =
        close_fd-at x (u x) err_stream (close_fd out_stream (close_fd in_stream running)) fresh_err
          (λ n_err. close_fd-at x (u x) out_stream (close_fd in_stream running) fresh_out (λ n_out.
            close_fd-at x (u x) in_stream running fresh_in (λ n_in. kept n_in n_out n_err))) in
      (destroyed, closed)

  -- `run` has returned or every descriptor is as before; behind the destructor it is.
  abbrev Restored : After → Type 0
  Restored a =
      ((a.outcome ≡ returned) ⊎ ((x : ℕ) → a.table x ≡ u x))
      × ((x : ℕ) → destroy a.process a.table x ≡ u x)

  parent-Restored :
      (pid : ℕ) (exec_error : Option ℕ)
      → Restored (
          parent re_in re_out re_err exec_error fds in_fds out_fds err_fds
            (record create { child_pid = some pid })
            piped)
  unfolding parent destroy fclose create streams
  parent-Restored pid none = (inl refl, λ x. (streams-closed x).0)
  parent-Restored pid (some err) = (inr (λ x. (streams-closed x).1), λ x. (streams-closed x).1)

  all_closed :
      (x : ℕ)
      → close_both err_fds (close_both out_fds (close_both in_fds (close_both fds piped))) x ≡ u x
  all_closed x =
      let (free0, (free1, (free2, (free3, (free4, (free5, (free6, (free7, rest)))))))) = free in
      let (fresh0, fresh1) = ends-Fresh x (u x) true f0 f1 u refl free0 free1 in
      let (fresh2, fresh3) = ends-Fresh x (u x) re_in i0 i1 u refl free2 free3 in
      let (fresh4, fresh5) = ends-Fresh x (u x) re_out o0 o1 u refl free4 free5 in
      let (fresh6, fresh7) = ends-Fresh x (u x) re_err e0 e1 u refl free6 free7 in
      let t0 = close_both fds piped in
      let t1 = close_both in_fds t0 in
      let t2 = close_both out_fds t1 in
      close_both-at x (u x) err_fds t2 fresh6 fresh7 (λ n6 n7.
        close_both-at x (u x) out_fds t1 fresh4 fresh5 (λ n4 n5.
          close_both-at x (u x) in_fds t0 fresh2 fresh3 (λ n2 n3.
            close_both-at x (u x) fds piped fresh0 fresh1
              (λ n0 n1. piped-at x (n0, (n1, (n2, (n3, (n4, (n5, (n6, (n7, tt))))))))))))

  fork_failed-Restored :
      (errno : ℕ)
      → Restored (fork_failed re_in re_out re_err errno fds in_fds out_fds err_fds create piped)
  unfolding fork_failed destroy fclose create
  fork_failed-Restored errno = (inr all_closed, all_closed)

  -- What the system answers when no pipe is refused.
  abbrev pub system : ℕ ⊎ ℕ → Option ℕ → System
  system fork exec_error = record {
    report_pipe = some (f0, f1);
    in_pipe = some (i0, i1);
    out_pipe = some (o0, o1);
    err_pipe = some (e0, e1);
    fork = fork;
    exec_error = exec_error;
  }

  run-after :
      (args : ℕ) (fork : ℕ ⊎ ℕ) (exec_error : Option ℕ)
      → run re_in re_out re_err (suc args) (system fork exec_error) create u
        ≡ ok (elim fork [
          | inl pid ↦
              parent re_in re_out re_err exec_error fds in_fds out_fds err_fds
                (record create { child_pid = some pid })
                piped
          | inr errno ↦
              fork_failed re_in re_out re_err errno fds in_fds out_fds err_fds create piped
        ])
  unfolding run make_pipe
  run-after args fork exec_error =
      rw (◌>>=◌, redirect-some re_in 1 i0 i1 (open_pipe 0 f0 f1 u))
        (rw (◌>>=◌, redirect-some re_out 2 o0 o1 (opened re_in 1 i0 i1 (open_pipe 0 f0 f1 u)))
          (rw
            (
              ◌>>=◌,
              redirect-some re_err 3 e0 e1
                  (opened re_out 2 o0 o1 (opened re_in 1 i0 i1 (open_pipe 0 f0 f1 u))),
            )
            refl))

  -- run on a new SubProcess, with arguments and pipes whose descriptors were free, whatever is
  -- redirected and whether fork or the child's execvp fails: it returns or throws, and when it
  -- throws, each descriptor of the parent is open on what it was before; so it is behind the
  -- destructor, also where run returns.
  pub run-destroy :
      (args : ℕ) (fork : ℕ ⊎ ℕ) (exec_error : Option ℕ)
      → (a : After) × (run re_in re_out re_err (suc args) (system fork exec_error) create u ≡ ok a)
        × ((a.outcome ≡ returned) ⊎ ((x : ℕ) → a.table x ≡ u x))
        × ((x : ℕ) → destroy a.process a.table x ≡ u x)
  run-destroy args (inl pid) exec_error = (
    parent re_in re_out re_err exec_error fds in_fds out_fds err_fds
        (record create { child_pid = some pid }) piped,
    run-after args (inl pid) exec_error,
    (parent-Restored pid exec_error).0,
    (parent-Restored pid exec_error).1,
  )
  run-destroy args (inr errno) exec_error = (
    fork_failed re_in re_out re_err errno fds in_fds out_fds err_fds create piped,
    run-after args (inr errno) exec_error,
    (fork_failed-Restored errno).0,
    (fork_failed-Restored errno).1,
  )
