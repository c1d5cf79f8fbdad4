-- ===== src/Libc.antt =====
-- The C helpers below src/libc: memory and strings (mem.c), functions to call at exit (atexit.c).
pub mod Blocks
pub mod Strings
pub mod AtExit
mod Examples
