-- ===== src/Logger.antt =====
-- `Logger` (src/logger.cpp, include/Box/logger.hpp): the three kinds of output behind it, and what
-- it writes to them. Opening files and connecting sockets are steps of the system, whose results
-- are arguments; `vprintf` is given the text that the C library formats.
pub mod Lines
mod Examples
use box_utils.Common.{
  Bytes, codes, ℕ, ◌%◌, Bool, Option, none, some, List, [], ◌∷◌, ◌++◌, leb, length, Run, ok, throw,
  undefined, aborted,
}

-- The implementations: `stderr`, a file and a socket.
pub data LoggerImpl : Type 0 where
  stderr_impl : LoggerImpl
  file_impl net_impl : ℕ → LoggerImpl

-- What happens outside: texts handed to an output, and outputs closed or flushed.
pub data Effect : Type 0 where
  handed : LoggerImpl → Bytes → Effect
  closed flushed : LoggerImpl → Effect

pub data Error : Type 0 where
  runtime_error socket_error : ℕ → Error

-- The null pointer is `none`.
pub record Logger : Type 0 where
  pub impl : Option LoggerImpl

-- The destructors: `fclose`, `delete socket`, nothing for `stderr`.
destroy_impl : LoggerImpl → List Effect
destroy_impl stderr_impl = []
destroy_impl impl = closed impl ∷ []

-- `puts`: what stands before the NUL.
puts : LoggerImpl → Bytes → List Effect
puts impl text = handed impl text ∷ []

impl_putc : LoggerImpl → ℕ → List Effect
impl_putc impl ch = handed impl (ch % 256 ∷ []) ∷ []

vprintf : LoggerImpl → Bytes → List Effect
vprintf impl text = handed impl text ∷ []

pub flush : LoggerImpl → List Effect
flush (net_impl fd) = []
flush impl = flushed impl ∷ []

puts_info : LoggerImpl → List Effect
unfolding puts
puts_info stderr_impl = puts stderr_impl (27 ∷ codes "[32mINFO: " ++ 27 ∷ codes "[0m")
puts_info impl = puts impl (codes "INFO: ")

puts_warn : LoggerImpl → List Effect
unfolding puts
puts_warn stderr_impl = puts stderr_impl (27 ∷ codes "[33mWARN: " ++ 27 ∷ codes "[0m")
puts_warn impl = puts impl (codes "WARNING: ")

puts_error : LoggerImpl → List Effect
unfolding puts
puts_error stderr_impl = puts stderr_impl (27 ∷ codes "[31mERROR: " ++ 27 ∷ codes "[0m")
puts_error impl = puts impl (codes "ERROR: ")

-- `Logger()`
pub new : Logger
new = record { impl = some stderr_impl }

pub destroy : Logger → List Effect
unfolding destroy_impl
destroy l = elim l.impl [ none ↦ [] | some impl ↦ destroy_impl impl ]

-- The old output is destroyed where there is one.
replace : LoggerImpl → Logger → Logger × List Effect
unfolding destroy
replace impl l = (record { impl = some impl }, destroy l)

-- `set_output()`
pub set_output_stderr : Logger → Logger × List Effect
unfolding replace
set_output_stderr l = replace stderr_impl l

-- `set_output(const std::string &)`; `opened` is what `fopen` answers, or `errno`.
pub set_output_file : Run ℕ ℕ → Logger → Run Error (Logger × List Effect)
unfolding replace
set_output_file (ok fptr) l = ok (replace (file_impl fptr) l)
set_output_file (throw e) l = throw (runtime_error e)
set_output_file undefined l = undefined
set_output_file aborted l = aborted

-- An address of up to 16 characters is taken for one of IPv4.
pub is_ipv4 : Bytes → Bool
is_ipv4 ip = leb (length ip) 16

-- `set_output(const std::string &, uint16_t)`; `connected` makes and connects a socket of the
-- family that `is_ipv4` chooses, or throws.
pub set_output_net : (Bool → Run ℕ ℕ) → Bytes → Logger → Run Error (Logger × List Effect)
unfolding replace is_ipv4
set_output_net connected ip l = elim (connected (is_ipv4 ip)) [
  | ok fd ↦ ok (replace (net_impl fd) l)
  | throw e ↦ throw (socket_error e)
  | undefined ↦ undefined
  | aborted ↦ aborted
]

-- `to_impl(impl)->...`, undefined on the null pointer.
on_impl : (LoggerImpl → List Effect) → Logger → Run Error (List Effect)
on_impl f l = elim l.impl [ none ↦ undefined | some impl ↦ ok (f impl) ]

pub write : Bytes → Logger → Run Error (List Effect)
unfolding on_impl puts
write text = on_impl (λ impl. puts impl text)

pub putc : ℕ → Logger → Run Error (List Effect)
unfolding on_impl impl_putc
putc ch = on_impl (λ impl. impl_putc impl ch)

pub error : Bytes → Logger → Run Error (List Effect)
unfolding on_impl puts_error vprintf impl_putc
error text = on_impl (λ impl. puts_error impl ++ vprintf impl text ++ impl_putc impl 10)

pub warn : Bytes → Logger → Run Error (List Effect)
unfolding on_impl puts_warn vprintf impl_putc
warn text = on_impl (λ impl. puts_warn impl ++ vprintf impl text ++ impl_putc impl 10)

pub log : Bytes → Logger → Run Error (List Effect)
unfolding on_impl puts_info vprintf impl_putc
log text = on_impl (λ impl. puts_info impl ++ vprintf impl text ++ impl_putc impl 10)

-- `error()`, `warn()` and `log()` put the prefix in front of what the stream is given.
pub error_stream : Logger → Run Error (List Effect)
unfolding on_impl puts_error
error_stream = on_impl puts_error

pub warn_stream : Logger → Run Error (List Effect)
unfolding on_impl puts_warn
warn_stream = on_impl puts_warn

pub log_stream : Logger → Run Error (List Effect)
unfolding on_impl puts_info
log_stream = on_impl puts_info
