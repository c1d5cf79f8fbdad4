-- ===== src/File.antt =====
-- `File` and `FS` (src/filesystem.cpp) over the streams of C. A stream reads what is left of its
-- text and keeps what is written to it, without errors of a device unless `failed` is set; what
-- the system answers when something is opened, made or looked up is an argument.
pub mod Laws
mod Examples
use box_utils.Common.{
  Bytes, ℕ, zero, suc, Bool, true, false, not, ◌||◌, Option, none, some, [], ◌∷◌, ◌++◌, ltb, ◌==◌,
  if◌then◌else◌, length, take, drop, Run, ok, throw, undefined, aborted,
}
use box_utils.Common.Commands.{Command, pure, crash, ◌>>=◌, ◌>>◌}

pub data Error : Type 0 where
  null_ptr_exception : Error
  os_error : ℕ → Error

pub record Stream : Type 0 where
  pub unread : Bytes
  pub written : Bytes
  pub at_end : Bool
  pub failed : Bool

-- The open streams; 0 is the null pointer.
pub record Streams : Type 0 where
  pub opened : ℕ → Option Stream

abbrev pub Cmd : Type 0 → Type 0
Cmd = Command Streams Error

pub record File : Type 0 where
  pub fptr : ℕ

-- A call on a stream, undefined where it is not open.
pub on_stream : {A : Type 0} → (Stream → A × Stream) → ℕ → Cmd A
on_stream f fptr s = if fptr == 0 then undefined else elim (s.opened fptr) [
  | none ↦ undefined
  | some t ↦
      let (a, t) = f t in ok (a, record { opened = λ p. if p == fptr then some t else s.opened p })
]

-- `fclose`
pub fclose : ℕ → Cmd (Unit {0})
fclose fptr s = elim (s.opened fptr) [
  | none ↦ undefined
  | some t ↦ ok (tt, record { opened = λ p. if p == fptr then none else s.opened p })
]

-- `fgetc`, `none` being `EOF`.
pub fgetc : ℕ → Cmd (Option ℕ)
unfolding on_stream
fgetc = on_stream (λ t. elim t.unread [
  | [] ↦ (none, record t { at_end = true })
  | ch ∷ rest ↦ (some ch, record t { unread = rest })
])

-- `File::From`
pub from : ℕ → Run Error File
from fptr = if fptr == 0 then throw null_ptr_exception else ok (record { fptr = fptr })

-- `File::Open`; `answer` is what `fopen` answers, or `errno`.
pub open_file : Run ℕ ℕ → Run Error File
open_file (ok fptr) = ok (record { fptr = fptr })
open_file (throw e) = throw (os_error e)
open_file undefined = undefined
open_file aborted = aborted

-- `File::Tmpfile`
pub tmp_file : ℕ → Run Error File
unfolding from
tmp_file answer = from answer

pub destroy : File → Cmd (Unit {0})
unfolding fclose
destroy f = if f.fptr == 0 then pure tt else fclose f.fptr

-- `close` leaves the pointer in place.
pub close : File → Cmd (Unit {0})
unfolding fclose
close f = if f.fptr == 0 then pure tt else fclose f.fptr

pub eof : File → Cmd Bool
unfolding on_stream
eof f = on_stream (λ t. (t.at_end, t)) f.fptr

pub is_ok : File → Cmd Bool
unfolding on_stream
is_ok f = on_stream (λ t. (not t.failed, t)) f.fptr

pub clear : File → Cmd (Unit {0})
unfolding on_stream
clear f = on_stream (λ t. (tt, record t { at_end = false; failed = false })) f.fptr

-- `fread(buf, 1, bufsize, fptr)`: the bytes that arrive in the buffer.
pub read : File → ℕ → Cmd Bytes
unfolding on_stream
read f bufsize =
    on_stream
      (λ t. (
        take bufsize t.unread,
        record t {
          unread = drop bufsize t.unread;
          at_end = (if ltb (length t.unread) bufsize then true else t.at_end);
        },
      ))
      f.fptr

-- `fwrite(buf, 1, bufsize, fptr)`
pub write : File → Bytes → Cmd ℕ
unfolding on_stream
write f buf = on_stream (λ t. (length buf, record t { written = t.written ++ buf })) f.fptr

-- `detach`: the stream, and the file without it.
pub detach : File → Run Error (ℕ × File)
detach f = if f.fptr == 0 then throw null_ptr_exception else ok (f.fptr, record { fptr = 0 })

is_eof : Option ℕ → Bool
is_eof none = true
is_eof (some ch) = false

is_newline : Option ℕ → Bool
is_newline none = false
is_newline (some ch) = ch == 10

-- `ch != EOF or ch != '\n'`
pub goes_on : Option ℕ → Bool
unfolding is_eof is_newline
goes_on ch = not (is_eof ch) || not (is_newline ch)

-- The loop of `readline`, whose `EOF` is appended as the byte 255; `none` where the fuel does not
-- do.
pub readline_loop : ℕ → ℕ → Option ℕ → Bytes → Cmd (Option Bytes)
unfolding fgetc goes_on
readline_loop zero fptr ch str = pure none
readline_loop (suc fuel) fptr ch str = elim (goes_on ch) [
  | true ↦ do
    next ← fgetc fptr
    readline_loop fuel fptr next (str ++ (elim ch [ none ↦ 255 | some c ↦ c ]) ∷ [])
  | false ↦ pure (some str)
]

pub readline : ℕ → File → Bytes → Cmd (Option Bytes)
unfolding readline_loop fgetc
readline fuel f str = do ch ← fgetc f.fptr; readline_loop fuel f.fptr ch str

-- `FS::Exists`
pub exists : ℕ → Bool
exists access = access == 0

-- `FS::MkDir`, `FS::Chdir`, `FS::GetSize` and `FS::GetStat`: what the system answers, and `errno`.
pub check : {A : Type 0} → ℕ → ℕ → A → Run Error A
check answer errno result = if answer == 0 then ok result else throw (os_error errno)
