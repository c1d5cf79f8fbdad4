-- ===== src/Subprocess.antt =====
-- `SubProcess` (src/subprocess.cpp) in its POSIX branches, with assertions on. A table says what
-- each descriptor of a process is open on. What the system answers is given: the descriptors of a
-- new pipe, the id of the child, and what the child reports of `execvp`. `fdopen` does not fail; a
-- stream is the descriptor that it is on.
mod Ends
pub mod Descriptors
mod Examples
use box_utils.Common.{
  ℕ, zero, suc, ◌⊎◌, inl, inr, Bool, true, false, Option, none, some, ◌==◌, if◌then◌else◌, Run,
  ◌>>=◌, ok, throw, aborted,
}

-- What a descriptor is open on: an end of the pipe with a number, or something else.
pub data End : Type 0 where
  reader writer : ℕ → End
  other : ℕ → End

abbrev pub Table : Type 0
Table = ℕ → Option End

pub data Error : Type 0 where
  invalid_argument : Error
  os_error : ℕ → Error

pub record SubProcess : Type 0 where
  -- -1 is `none`, as is the null stream.
  pub child_pid : Option ℕ
  pub in_stream : Option ℕ
  pub out_stream : Option ℕ
  pub err_stream : Option ℕ

pub create : SubProcess
create = record { child_pid = none; in_stream = none; out_stream = none; err_stream = none }

-- The ends of a pipe, `none` for -1.
pub record Fds : Type 0 where
  pub read_end : Option ℕ
  pub write_end : Option ℕ

-- What `pipe` answers, `none` where it fails.
abbrev pub Pipe : Type 0
Pipe = Option (ℕ × ℕ)

pub record System : Type 0 where
  pub report_pipe : Pipe
  pub in_pipe : Pipe
  pub out_pipe : Pipe
  pub err_pipe : Pipe
  -- The id of the child, or `errno`.
  pub fork : ℕ ⊎ ℕ
  -- What the child writes when `execvp` fails.
  pub exec_error : Option ℕ

pub close_fd : Option ℕ → Table → Table
close_fd none t x = t x
close_fd (some fd) t x = if x == fd then none else t x

pub dup2 : Option ℕ → ℕ → Table → Table
dup2 none to t x = t x
dup2 (some from) to t x = if x == to then t from else t x

pub open_pipe : ℕ → ℕ → ℕ → Table → Table
open_pipe id r w t x =
    if x == r then some (reader id) else (if x == w then some (writer id) else t x)

-- `assert(pipe(FDS) == 0)` for the pipe with the number `id`.
pub make_pipe : ℕ → Pipe → Table → Run Error (Fds × Table)
unfolding open_pipe
make_pipe id none t = aborted
make_pipe id (some (r, w)) t =
    ok (record { read_end = some r; write_end = some w }, open_pipe id r w t)

-- `REDIRECT`
pub redirect : Bool → ℕ → Pipe → Table → Run Error (Fds × Table)
unfolding make_pipe
redirect false id pipe t = ok (record { read_end = none; write_end = none }, t)
redirect true id pipe t = make_pipe id pipe t

-- `FCLOSE`
pub fclose : Option ℕ → Table → Table
unfolding close_fd
fclose stream t x = close_fd stream t x

-- The destructor, on the table.
pub destroy : SubProcess → Table → Table
unfolding fclose
destroy p t = fclose p.in_stream (fclose p.err_stream (fclose p.out_stream t))

pub close_both : Fds → Table → Table
unfolding close_fd
close_both fds t x = close_fd fds.read_end (close_fd fds.write_end t) x

-- How `run` ends.
pub data Outcome : Type 0 where
  returned : Outcome
  thrown : Error → Outcome

pub record After : Type 0 where
  pub outcome : Outcome
  pub process : SubProcess
  pub table : Table

module _ (re_in re_out re_err : Bool) where
  -- The table of the child up to `execvp`.
  pub child : Fds → Fds → Fds → Fds → Table → Table
  unfolding close_fd dup2
  child fds in_fds out_fds err_fds t =
      let t = close_fd fds.read_end t in
      let t = if re_in then dup2 in_fds.read_end 0 (close_fd in_fds.write_end t) else t in
      let t = if re_out then dup2 out_fds.write_end 1 (close_fd out_fds.read_end t) else t in
      if re_err then dup2 err_fds.write_end 2 (close_fd err_fds.read_end t) else t

  -- The streams that the parent makes.
  pub streams : Fds → Fds → Fds → SubProcess → SubProcess
  streams in_fds out_fds err_fds p = record p {
    in_stream = if re_in then in_fds.write_end else p.in_stream;
    out_stream = if re_out then out_fds.read_end else p.out_stream;
    err_stream = if re_err then err_fds.read_end else p.err_stream;
  }

  -- The ends that the parent closes.
  pub close_ends : Fds → Fds → Fds → Fds → Table → Table
  unfolding close_fd
  close_ends fds in_fds out_fds err_fds t =
      let t = close_fd fds.write_end t in
      let t = if re_in then close_fd in_fds.read_end t else t in
      let t = if re_out then close_fd out_fds.write_end t else t in
      if re_err then close_fd err_fds.write_end t else t

  -- `run` in the parent, behind `fork`.
  pub parent : Option ℕ → Fds → Fds → Fds → Fds → SubProcess → Table → After
  unfolding streams close_ends fclose
  parent exec_error fds in_fds out_fds err_fds p t =
      let p = streams in_fds out_fds err_fds p in
      let t = close_ends fds in_fds out_fds err_fds t in
      elim exec_error [
        | none ↦ record { outcome = returned; process = p; table = close_fd fds.read_end t }
        | some err ↦ record {
          outcome = thrown (os_error err);
          process = record p { in_stream = none; out_stream = none; err_stream = none };
          table =
              fclose p.err_stream
                (fclose p.out_stream (fclose p.in_stream (close_fd fds.read_end t)));
        }
      ]

  -- `run` where `fork` fails.
  pub fork_failed : ℕ → Fds → Fds → Fds → Fds → SubProcess → Table → After
  unfolding close_both
  fork_failed errno fds in_fds out_fds err_fds p t = record {
    outcome = thrown (os_error errno);
    process = record p { child_pid = none };
    table = close_both err_fds (close_both out_fds (close_both in_fds (close_both fds t)));
  }

  -- `run`, of which `args` is the number of arguments; the pipes have the numbers 0 to 3.
  pub run : ℕ → System → SubProcess → Table → Run Error After
  unfolding make_pipe redirect
  run zero sys p t = throw invalid_argument
  run (suc args) sys p t = do
    (fds, t) ← make_pipe 0 sys.report_pipe t
    (in_fds, t) ← redirect re_in 1 sys.in_pipe t
    (out_fds, t) ← redirect re_out 2 sys.out_pipe t
    (err_fds, t) ← redirect re_err 3 sys.err_pipe t
    ok (elim sys.fork [
      | inl pid ↦
          parent sys.exec_error fds in_fds out_fds err_fds (record p { child_pid = some pid }) t
      | inr errno ↦ fork_failed errno fds in_fds out_fds err_fds p t
    ])
