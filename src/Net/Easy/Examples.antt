-- ===== src/Net/Easy/Examples.antt =====
-- The theorems on src/net/easy.cpp at concrete states.
use box_utils.Common.{Bytes, ℕ, ◌≡◌, refl, ◌≢◌, true, none, List, [], ◌∷◌, arith, All, ok}
use box_utils.Headers.{for_each}
use box_utils.Net.Multi.{get_ref_from}
use box_utils.Net.Toy.{toy, toy_live, start}
use box_utils.Net.Easy.{url}
use box_utils.Net.Easy.Operations.{
  Operation, op_construct, op_move, op_copy, op_clone, op_destroy, op_reset, option, run, apply,
  AllAllowed,
}
use box_utils.Net.Easy.Handles.{easies, get_ref_from-run}
use box_utils.Net.Easy.Callbacks.{strip_end}
use box_utils.Net.Easy.Callbacks.Response.{IsLine, Line, header, other, receive, for_each-receive}

-- The object at 100 is moved to 200, whose copy is at 300 and whose clone is at 400.
abbrev program : List Operation
program =
    op_construct true 100
    ∷ op_move 200 100
    ∷ option 200 (url none)
    ∷ op_copy 300 200
    ∷ op_clone 400 200
    ∷ op_reset 300
    ∷ op_destroy 100
    ∷ []

program-Allowed : AllAllowed toy program start
unfolding apply
program-Allowed = (
  (omega arith, refl),
  (
    (omega arith, refl, omega arith),
    (refl, ((omega arith, refl), ((omega arith, refl), (omega arith, (tt, tt))))),
  ),
)

program-has : (run toy program start).handle_of 200 ≢ 0
unfolding run
program-has = omega arith

get_ref_from-run_example :
    let w = run toy program start in
    (toy_live w.libcurl (w.handle_of 200) ≡ true)
    × ((e' : ℕ) → w.handle_of e' ≡ w.handle_of 200 → e' ≡ 200)
    × (get_ref_from (easies toy w) (w.handle_of 200) ≡ ok 200)
get_ref_from-run_example =
    get_ref_from-run toy program start.libcurl program-Allowed 200 program-has

abbrev status : Bytes
status = b'H' ∷ b'T' ∷ b'T' ∷ b'P' ∷ []

abbrev response : List Line
response = other status ∷ header (b'a' ∷ []) (b'1' ∷ b'2' ∷ []) ∷ other [] ∷ []

response-IsLine : All IsLine response
unfolding strip_end
response-IsLine = (
  (omega arith, (omega arith, (omega arith, (omega arith, tt)))),
  (((omega arith, tt), (omega arith, tt), (omega arith, (omega arith, tt)), refl), (tt, tt)),
)

for_each-receive_example :
    (slist : List Bytes) × (receive response [] ≡ ok slist)
    × (for_each slist ≡ ok ((b'a' ∷ [], b'1' ∷ b'2' ∷ []) ∷ []))
for_each-receive_example = for_each-receive response response-IsLine
