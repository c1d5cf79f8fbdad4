-- ===== src/RefPtr/Safety.antt =====
-- Every program over `RefPtr` (include/Box/refptr.hpp) that keeps to `Enabled` is memory safe.
use box_utils.Common.{
  ℕ, zero, suc, ◌+◌, ◌-◌, ◌==◌, leb, ◌≤◌, ◌<◌, ◌≡◌, refl, sym, ap, ◌∙◌, ◌≢◌, ◌⊎◌, inl, inr, true,
  false, not, some, List, arith, ℕ_discrete, ◌==◌, length, set, All, length-set, set-set, set_comm,
  set-get_or_self, get_or-set_self, get_or-set_ne, All-set, All-get_or, ok,
}
use mathlib.Core.Path.{subst}
use box_utils.RefPtr.{
  RefPtr, null, construct, copy, destroy, reset, reset_to, release, assign, move, move_assign,
  is_null,
}
use box_utils.Common.Commands.{update}
use box_utils.RefPtr.Memory.{grown, Heap, load, store, new_object, new_count}
use box_utils.RefPtr.World.{
  World, slot, Op, create, destruct, clear, replace, copy_construct, move_construct, copy_assign,
  take_over, step, Enabled,
}
use box_utils.RefPtr.Counting.{owners, owners-set, hit-le-owners, hit_self}
use box_utils.RefPtr.Valid.{shared, Tied, IsValid, keep-IsValid, drop-IsValid, take-IsValid}

abbrev pub Valid : World → Type 0
Valid w = IsValid w.heap w.vars

tied_slot : (w : World) (i : ℕ) → Valid w → (slot w.vars i).ptr ≡ (slot w.vars i).refcount
tied_slot w i v = All-get_or Tied w.vars i null v.tied refl

-- An object and its counter for the null slot `i`, both at the next address.
born : Heap → Heap
born h = record {
  counts = update h.counts h.next_count (some 1);
  objects = update h.objects h.next_object true;
  next_count = h.next_count + 1;
  next_object = h.next_object + 1;
}

born-IsValid :
    (h : Heap) (vars : List RefPtr) (i : ℕ)
    → IsValid h vars
    → i < length vars
    → (slot vars i).refcount ≡ 0
    → IsValid (born h) (set vars i (record { refcount = h.next_count; ptr = h.next_object }))
unfolding born
born-IsValid h vars i v l empty =
    let r : RefPtr = record { refcount = h.next_count; ptr = h.next_object } in
    record {
      tied = All-set Tied vars i r v.tied (sym v.in_step);
      counted = λ b q. ground (arith, v.counted b, v.unused h.next_count, owners-set b vars i r l);
      alive = λ b q.
          ground (arith, v.alive b, v.in_step, v.unused h.next_count, owners-set b vars i r l);
      in_step = ap suc_one v.in_step;
      started = omega arith;
      unused = λ b q. ground (arith, v.unused b, owners-set b vars i r l);
      few = omega (arith, length-set vars i r, v.few);
    }
  where
    suc_one : ℕ → ℕ
    suc_one n = n + 1

create-safe :
    (i : ℕ) (w : World)
    → Valid w
    → Enabled (create i) w
    → (w' : World) × (step (create i) w ≡ ok w') × Valid w'
unfolding step construct new_object new_count born
create-safe i w v (l, e) = (
  _,
  ground (arith, v.started, v.in_step),
  born-IsValid w.heap w.vars i v l (ap (λ (r : RefPtr). r.refcount) e),
)

null_of : (r : RefPtr) → Tied r → r.refcount ≡ 0 → r ≡ null
null_of r t e = ground arith

-- Writing null into a slot that is null changes nothing.
idle :
    (vars : List RefPtr) (i : ℕ)
    → All Tied vars
    → (slot vars i).refcount ≡ 0
    → set vars i null ≡ vars
idle vars i t e =
    ap (λ r. set vars i r) (sym (null_of (slot vars i) (All-get_or Tied vars i null t refl) e))
    ∙ set-get_or_self vars i null

zero_or : (n : ℕ) → (n ≡ 0) ⊎ (0 < n)
zero_or zero = inl refl
zero_or (suc n) = inr (omega arith)

module _ (h : Heap) (vars : List RefPtr) (i : ℕ) (v : IsValid h vars) (l : i < length vars) where
  same_ptr : (slot vars i).ptr ≡ (slot vars i).refcount
  same_ptr = All-get_or Tied vars i null v.tied refl

  reset-safe : (h' : Heap) × (reset (slot vars i) h ≡ ok (null, h')) × IsValid h' (set vars i null)
  unfolding reset is_null
  reset-safe = elim (zero_or (slot vars i).refcount) [
    | inl e ↦ (h, rw (null_of (slot vars i) same_ptr e), rw (idle vars i v.tied e) v)
    | inr p ↦
        let (h', run, v', _) = drop-IsValid h vars i v l p in
        let some_ptr : ((slot vars i).ptr == 0) ≡ false = ground (arith, same_ptr) in
        (h', rw (some_ptr, run), v')
  ]

  destroy-safe :
      (h' : Heap) × (destroy (slot vars i) h ≡ ok (tt, h')) × IsValid h' (set vars i null)
  unfolding destroy
  destroy-safe = elim (zero_or (slot vars i).refcount) [
    | inl e ↦ (h, rw e, rw (idle vars i v.tied e) v)
    | inr p ↦
        let (h', run, v', _) = drop-IsValid h vars i v l p in
        let counted : ((slot vars i).refcount == 0) ≡ false = ground arith in
        (h', rw (counted, run), v')
  ]

destruct-safe :
    (i : ℕ) (w : World)
    → Valid w
    → i < length w.vars
    → (w' : World) × (step (destruct i) w ≡ ok w') × Valid w'
unfolding step
destruct-safe i w v l = let (h', run, v') = destroy-safe w.heap w.vars i v l in (_, rw run, v')

clear-safe :
    (i : ℕ) (w : World)
    → Valid w
    → i < length w.vars
    → (w' : World) × (step (clear i) w ≡ ok w') × Valid w'
unfolding step
clear-safe i w v l = let (h', run, v') = reset-safe w.heap w.vars i v l in (_, rw run, v')

-- The heap behind the release of one of several shares of the counter `a`.
let_go : ℕ → ℕ → Heap → Heap
let_go a left h = record h { counts = update h.counts a (some left) }

store-lem :
    (a m n : ℕ) (h : Heap)
    → (a == 0) ≡ false
    → h.counts a ≡ some n
    → store a m h ≡ ok (tt, record h { counts = update h.counts a (some m) })
unfolding store
store-lem a m n h counter c = rw (counter, c) refl

replace-safe :
    (i : ℕ) (w : World)
    → Valid w
    → Enabled (replace i) w
    → (w' : World) × (step (replace i) w ≡ ok w') × Valid w'
unfolding step reset_to release is_null construct new_object new_count load store born let_go
replace-safe i w v (l, p, (n, c)) =
    let a = (slot w.vars i).refcount in
    let left : ℕ = suc (suc n) - 1 in
    let h : Heap = let_go a left w.heap in
    let owned : owners a w.vars ≡ suc left = ground (arith, v.counted a) in
    let live : w.heap.objects a ≡ true = ground (arith, v.alive a, owned) in
    let gone : slot (set w.vars i null) i ≡ null = get_or-set_self w.vars i null null l in
    let kept : IsValid h (set w.vars i null) =
      keep-IsValid w.heap h w.vars i a left v l refl owned (λ b. ground arith)
        (λ b. ground (arith, live)) refl refl in
    let r : RefPtr = record { refcount = w.heap.next_count; ptr = w.heap.next_object } in
    let new : IsValid (born h) (set (set w.vars i null) i r) =
      born-IsValid h (set w.vars i null) i kept (rw length-set l)
        (ap (λ (q : RefPtr). q.refcount) gone) in
    let not_null : ((slot w.vars i).ptr == 0) ≡ false = ground (arith, tied_slot w i v) in
    let counter : (a == 0) ≡ false = ground arith in
    let found : (w.heap.next_object == 0) ≡ false = ground (arith, v.started, v.in_step) in
    let shared_still : leb (suc (suc n)) 1 ≡ false = ground arith in
    (
      record { heap = born h; vars = set w.vars i r },
      rw
          (
            not_null,
            counter,
            c,
            store-lem a left (suc (suc n)) (grown w.heap) counter c,
            shared_still,
            found,
          )
          refl,
      rw set-set at new,
    )

some_owner :
    (vars : List RefPtr) (j : ℕ)
    → 0 < (slot vars j).refcount
    → 1 ≤ owners (slot vars j).refcount vars
some_owner vars j p =
    omega (arith, hit-le-owners (slot vars j).refcount vars j p, hit_self (slot vars j))

copy_construct-safe :
    (i j : ℕ) (w : World)
    → Valid w
    → Enabled (copy_construct i j) w
    → (w' : World) × (step (copy_construct i j) w ≡ ok w') × Valid w'
unfolding step copy
copy_construct-safe i j w v (l, e, p) =
    let (h', run, v') =
      take-IsValid w.heap w.vars i (slot w.vars j) v l (ap (λ (r : RefPtr). r.refcount) e)
        (tied_slot w j v) p (some_owner w.vars j p) in
    (_, rw run, v')

self_set : (w : World) (i : ℕ) → set w.vars i (slot w.vars i) ≡ w.vars
self_set w i = set-get_or_self w.vars i null

copy_assign-safe :
    (i j : ℕ) (w : World)
    → Valid w
    → Enabled (copy_assign i j) w
    → (w' : World) × (step (copy_assign i j) w ≡ ok w') × Valid w'
unfolding step assign
copy_assign-safe i j w v (l, inl e) =
    let same : (i == j) ≡ true = ground arith in
    (w, rw same (ap (λ t. ok (record { heap = w.heap; vars = t })) (self_set w i)), v)
copy_assign-safe i j w v (l, inr (ne, p)) =
    let other : (i == j) ≡ false = ground arith in
    let (h', run, v') = reset-safe w.heap w.vars i v l in
    let kept : slot (set w.vars i null) j ≡ slot w.vars j = get_or-set_ne w.vars i j null null ne in
    let gone : slot (set w.vars i null) i ≡ null = get_or-set_self w.vars i null null l in
    let still = some_owner (set w.vars i null) j (rw kept p) in
    let (h'', run', v'') =
      take-IsValid h' (set w.vars i null) i (slot w.vars j) v' (rw length-set l)
        (ap (λ (r : RefPtr). r.refcount) gone) (tied_slot w j v) p (rw kept at still) in
    (
      record { heap = h''; vars = set w.vars i (slot w.vars j) },
      rw (other, run, run'),
      rw set-set at v'',
    )

owners-move :
    (vars : List RefPtr) (i j b : ℕ)
    → i < length vars
    → j < length vars
    → i ≢ j
    → (slot vars i).refcount ≡ 0
    → 0 < b
    → owners b (set (set vars j null) i (slot vars j)) ≡ owners b vars
owners-move vars i j b l m ne e p =
    let kept : slot (set vars j null) i ≡ slot vars i =
      get_or-set_ne vars j i null null (λ q. ne (sym q)) in
    let second = owners-set b (set vars j null) i (slot vars j) (rw length-set l) in
    ground (arith, owners-set b vars j null m, rw kept at second)

-- What slot `j` holds goes to the null slot `i`.
move-IsValid :
    (h : Heap) (vars : List RefPtr) (i j : ℕ)
    → IsValid h vars
    → i < length vars
    → j < length vars
    → i ≢ j
    → (slot vars i).refcount ≡ 0
    → IsValid h (set (set vars j null) i (slot vars j))
move-IsValid h vars i j v l m ne e =
    let tied_j : Tied (slot vars j) = All-get_or Tied vars j null v.tied refl in
    record {
      tied =
          All-set Tied (set vars j null) i (slot vars j) (All-set Tied vars j null v.tied refl)
            tied_j;
      counted = λ b q. v.counted b q ∙ ap shared (sym (owners-move vars i j b l m ne e q));
      alive = λ b q. v.alive b q ∙ ap (λ n. not (n == 0)) (sym (owners-move vars i j b l m ne e q));
      in_step = v.in_step;
      started = v.started;
      unused = λ b q. owners-move vars i j b l m ne e (omega (arith, v.started)) ∙ v.unused b q;
      few = rw (length-set, length-set) v.few;
    }

move_construct-safe :
    (i j : ℕ) (w : World)
    → Valid w
    → Enabled (move_construct i j) w
    → (w' : World) × (step (move_construct i j) w ≡ ok w') × Valid w'
unfolding step move
move_construct-safe i j w v (l, m, n, ne) = (
  record { heap = w.heap; vars = set (set w.vars j null) i (slot w.vars j) },
  refl,
  move-IsValid w.heap w.vars i j v l m ne (ap (λ (r : RefPtr). r.refcount) n),
)

take_over-safe :
    (i j : ℕ) (w : World)
    → Valid w
    → Enabled (take_over i j) w
    → (w' : World) × (step (take_over i j) w ≡ ok w') × Valid w'
unfolding step move_assign
take_over-safe i j w v (l, m) = elim (ℕ_discrete i j) [
  | yes e ↦
      let same : (i == j) ≡ true = ground arith in
      let back : set (set w.vars j (slot w.vars j)) i (slot w.vars i) ≡ w.vars =
        ap (λ t. set t i (slot w.vars i)) (self_set w j) ∙ self_set w i in
      (w, rw same (ap (λ t. ok (record { heap = w.heap; vars = t })) back), v)
  | no ne ↦
      let other : (i == j) ≡ false = ground arith in
      let (h', run, v') = reset-safe w.heap w.vars i v l in
      let kept : slot (set w.vars i null) j ≡ slot w.vars j =
        get_or-set_ne w.vars i j null null ne in
      let gone : slot (set w.vars i null) i ≡ null = get_or-set_self w.vars i null null l in
      let v'' =
        move-IsValid h' (set w.vars i null) i j v' (rw length-set l) (rw length-set m) ne
          (ap (λ (r : RefPtr). r.refcount) gone) in
      let same_vars : set (set (set w.vars i null) j null) i (slot (set w.vars i null) j)
          ≡ set (set w.vars j null) i (slot w.vars j) =
        ap (λ t. set (set (set w.vars i null) j null) i t) kept
        ∙ ap (λ t. set t i (slot w.vars j)) (set_comm w.vars i j null null ne)
        ∙ set-set (set w.vars j null) i null (slot w.vars j) in
      (
        record { heap = h'; vars = set (set w.vars j null) i (slot w.vars j) },
        rw (other, run),
        subst (IsValid h') same_vars v'',
      )
]

-- Each operation on well-formed variables that `Enabled` allows (no null pointer is copied, no
-- variable is constructed twice, and `reset(T *)` is called with a new object and only where another
-- variable shares the old one) runs without undefined behaviour, and leaves counters and objects as
-- `IsValid` has them: a counter is the number of the variables that share it, and an object exists
-- exactly while some variable points to it.
pub step-IsValid :
    (op : Op) (w : World)
    → IsValid w.heap w.vars
    → Enabled op w
    → (w' : World) × (step op w ≡ ok w') × IsValid w'.heap w'.vars
step-IsValid (create i) w v e = create-safe i w v e
step-IsValid (destruct i) w v e = destruct-safe i w v e
step-IsValid (clear i) w v e = clear-safe i w v e
step-IsValid (replace i) w v e = replace-safe i w v e
step-IsValid (copy_construct i j) w v e = copy_construct-safe i j w v e
step-IsValid (move_construct i j) w v e = move_construct-safe i j w v e
step-IsValid (copy_assign i j) w v e = copy_assign-safe i j w v e
step-IsValid (take_over i j) w v e = take_over-safe i j w v e
