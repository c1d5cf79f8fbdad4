-- ===== src/RefPtr/Examples.antt =====
-- Tests of include/Box/refptr.hpp, and its theorem at a concrete program.
use box_utils.Common.{
  ℕ, Bool, ◌≡◌, refl, true, false, none, some, ◌==◌, if◌then◌else◌, List, [], ◌∷◌, arith, Run,
  ◌>>=◌, ok, undefined,
}
use box_utils.RefPtr.{null}
use box_utils.RefPtr.Memory.{Heap, Error}
use box_utils.RefPtr.World.{World, Op, create, destruct, clear, replace, copy_construct, slot, step}
use box_utils.RefPtr.Valid.{IsValid}
use box_utils.RefPtr.Safety.{step-IsValid}

abbrev empty_heap : Heap
empty_heap = record { counts = λ _. none; objects = λ _. false; next_count = 1; next_object = 1 }

abbrev start : World
start = record { heap = empty_heap; vars = null ∷ null ∷ [] }

start-IsValid : IsValid start.heap start.vars
start-IsValid = record {
  tied = (refl, (refl, tt));
  counted = λ a p. ground arith;
  alive = λ a p. ground arith;
  in_step = refl;
  started = omega arith;
  unused = λ a p. ground arith;
  few = omega arith;
}

step-IsValid_example : (w' : World) × (step (create 1) start ≡ ok w') × IsValid w'.heap w'.vars
step-IsValid_example = step-IsValid (create 1) start start-IsValid (omega arith, refl)

abbrev run_all : List Op → World → Run Error World
run_all [] w = ok w
run_all (op ∷ ops) w = step op w >>= run_all ops

-- Two variables share an object; it goes with the second of them.
shared_object :
    (run_all (create 0 ∷ copy_construct 1 0 ∷ destruct 0 ∷ []) start >>= λ w. ok (w.heap.objects 1))
    ≡ ok true
unfolding step
shared_object = refl

last_owner_deletes :
    (run_all (create 0 ∷ copy_construct 1 0 ∷ destruct 0 ∷ clear 1 ∷ []) start >>= λ w.
    ok (w.heap.objects 1))
    ≡ ok false
unfolding step
last_owner_deletes = refl

-- One variable, the only one that points to its object.
abbrev alone : World
alone = record {
  heap = record {
    counts = λ a. if a == 1 then some 1 else none;
    objects = λ a. a == 1;
    next_count = 2;
    next_object = 2;
  };
  vars = record { refcount = 1; ptr = 1 } ∷ [];
}

-- Where the first variable points, and which of the first two objects exist.
abbrev seen : World → ℕ × Bool × Bool
seen w = ((slot w.vars 0).ptr, w.heap.objects 1, w.heap.objects 2)

-- A null pointer stays null when it is reset to a new object, which nobody points to.
null_keeps_null : (step (replace 0) start >>= λ w. ok (seen w)) ≡ ok (0, true, false)
unfolding step
null_keeps_null = refl

-- One of two pointers to an object goes to a new one.
shared_replaced :
    (run_all (create 0 ∷ copy_construct 1 0 ∷ replace 1 ∷ []) start >>= λ w. ok (seen w))
    ≡ ok (1, true, true)
unfolding step
shared_replaced = refl

-- A copy of a null pointer is undefined.
copy_null : step (copy_construct 1 0) start ≡ undefined
unfolding step
copy_null = refl
