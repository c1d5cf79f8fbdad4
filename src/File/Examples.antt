-- ===== src/File/Examples.antt =====
-- The theorems on src/filesystem.cpp at a stream of two lines.
use box_utils.Common.{
  codes, ◌≡◌, refl, false, none, some, [], ◌∷◌, ◌++◌, arith, ◌==◌, if◌then◌else◌, ok,
}
use box_utils.File.{Stream, Streams, File, readline}
use box_utils.File.Laws.{readline-endless}

abbrev lines : Stream
lines = record {
  unread = codes "a" ++ 10 ∷ codes "b";
  written = [];
  at_end = false;
  failed = false;
}

abbrev streams : Streams
streams = record { opened = λ p. if p == 3 then some lines else none }

abbrev file : File
file = record { fptr = 3 }

readline-endless_example : (s' : Streams) × (readline 20 file [] streams ≡ ok (none, s'))
readline-endless_example = readline-endless 20 file [] streams lines (omega arith) refl
