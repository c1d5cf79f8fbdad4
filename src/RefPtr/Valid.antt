-- ===== src/RefPtr/Valid.antt =====
-- The state that every use of `RefPtr` (include/Box/refptr.hpp) keeps, and its two basic moves:
-- a slot lets go of its object, or takes a share of one.
use box_utils.Common.{
  ℕ, zero, suc, ◌+◌, ◌-◌, ◌≤◌, ◌<◌, ◌≡◌, refl, sym, ◌∙◌, true, false, not, Option, none, some, List,
  arith, ◌==◌, if◌then◌else◌, length, set, All, length-set, All-set, All-get_or, ok,
}
use box_utils.RefPtr.{RefPtr, null, int_max, increment, release}
use box_utils.Common.Commands.{update}
use box_utils.RefPtr.Memory.{Heap, load, store}
use box_utils.RefPtr.World.{slot}
use box_utils.RefPtr.Counting.{owners, owners-set, hit-le-owners, owners-le-length, hit_self}

abbrev pub shared : ℕ → Option ℕ
shared n = if n == 0 then none else some n

abbrev pub Tied : RefPtr → Type 0
Tied r = r.ptr ≡ r.refcount

-- Counters and objects stand at equal addresses; each counter counts the variables that share
-- it, and a cell is there exactly while some variable does.
pub record IsValid (h : Heap) (vars : List RefPtr) : Type 0 where
  pub tied : All Tied vars
  pub counted : (a : ℕ) → 0 < a → h.counts a ≡ shared (owners a vars)
  pub alive : (a : ℕ) → 0 < a → h.objects a ≡ not (owners a vars == 0)
  pub in_step : h.next_count ≡ h.next_object
  pub started : 0 < h.next_count
  pub unused : (a : ℕ) → h.next_count ≤ a → owners a vars ≡ 0
  pub few : length vars < int_max

-- What `release` comes to on a counter of `suc n`.
pub release-lem :
    (h : Heap) (r : RefPtr) (n : ℕ)
    → 0 < r.refcount
    → r.ptr ≡ r.refcount
    → h.counts r.refcount ≡ some (suc n)
    → h.objects r.refcount ≡ true
    → (h' : Heap) × (release r h ≡ ok (tt, h'))
      × ((b : ℕ) → h'.counts b ≡ (if b == r.refcount then shared n else h.counts b))
      × ((b : ℕ) → h'.objects b ≡ (if b == r.refcount then not (n == 0) else h.objects b))
      × (h'.next_count ≡ h.next_count)
      × (h'.next_object ≡ h.next_object)
unfolding release
release-lem h r zero p t c o = (
  record h {
    counts = update (update h.counts r.refcount (some 0)) r.refcount none;
    objects = update h.objects r.refcount false;
  },
  ground arith,
  λ b. ground arith,
  λ b. ground arith,
  refl,
  refl,
)
release-lem h r (suc n) p t c o = (
  record h { counts = update h.counts r.refcount (some (suc n)) },
  ground arith,
  λ b. ground arith,
  λ b. ground arith,
  refl,
  refl,
)

-- The counts after slot `i` has let go of the counter `a`.
owners-drop :
    (vars : List RefPtr) (i a left b : ℕ)
    → i < length vars
    → 0 < b
    → (slot vars i).refcount ≡ a
    → owners a vars ≡ suc left
    → owners b (set vars i null) ≡ (if b == a then left else owners b vars)
owners-drop vars i a left b l q e n = ground (arith, owners-set b vars i null l)

pub keep-IsValid :
    (h h' : Heap) (vars : List RefPtr) (i a left : ℕ)
    → IsValid h vars
    → i < length vars
    → (slot vars i).refcount ≡ a
    → owners a vars ≡ suc left
    → ((b : ℕ) → h'.counts b ≡ (if b == a then shared left else h.counts b))
    → ((b : ℕ) → h'.objects b ≡ (if b == a then not (left == 0) else h.objects b))
    → h'.next_count ≡ h.next_count
    → h'.next_object ≡ h.next_object
    → IsValid h' (set vars i null)
keep-IsValid h h' vars i a left v l e n counts objects next_count next_object = record {
  tied = All-set Tied vars i null v.tied refl;
  counted = λ b q. ground (arith, counts b, v.counted b, owners-drop vars i a left b);
  alive = λ b q. ground (arith, objects b, v.alive b, owners-drop vars i a left b);
  in_step = next_count ∙ v.in_step ∙ sym next_object;
  started = omega (arith, next_count, v.started);
  unused = λ b q. ground (arith, v.unused b, next_count, v.started, owners-drop vars i a left b);
  few = omega (arith, length-set vars i null, v.few);
}

-- Slot `i` lets go: its share is released, and it is null afterwards.
pub drop-IsValid :
    (h : Heap) (vars : List RefPtr) (i : ℕ)
    → IsValid h vars
    → i < length vars
    → 0 < (slot vars i).refcount
    → (h' : Heap) × (release (slot vars i) h ≡ ok (tt, h'))
      × IsValid h' (set vars i null)
      × (h'.next_object ≡ h.next_object)
drop-IsValid h vars i v l p =
    let (h', run, counts, objects, next_count, next_object) =
      release-lem h (slot vars i) (owners (slot vars i).refcount vars - 1) p
        (All-get_or Tied vars i null v.tied refl) count live in
    (
      h',
      run,
      keep-IsValid h h' vars i _ _ v l refl one counts objects next_count next_object,
      next_object,
    )
  where
    one : owners (slot vars i).refcount vars ≡ suc (owners (slot vars i).refcount vars - 1)
    one = omega (arith, hit-le-owners (slot vars i).refcount vars i p, hit_self (slot vars i))

    count : h.counts (slot vars i).refcount ≡ some (suc (owners (slot vars i).refcount vars - 1))
    count = ground (arith, v.counted (slot vars i).refcount, one)

    live : h.objects (slot vars i).refcount ≡ true
    live = ground (arith, v.alive (slot vars i).refcount, one)

-- The null slot `i` takes a share of a counter that is in use.
pub take-IsValid :
    (h : Heap) (vars : List RefPtr) (i : ℕ) (r : RefPtr)
    → IsValid h vars
    → i < length vars
    → (slot vars i).refcount ≡ 0
    → r.ptr ≡ r.refcount
    → 0 < r.refcount
    → 1 ≤ owners r.refcount vars
    → (h' : Heap) × (increment r.refcount h ≡ ok (tt, h')) × IsValid h' (set vars i r)
unfolding increment load store
take-IsValid h vars i r v l empty t p some_owner =
    let a = r.refcount in
    let n = owners a vars in
    let below : n < int_max = omega (arith, owners-le-length a vars, v.few) in
    let count : h.counts a ≡ some n = ground (arith, v.counted a) in
    (
      record h { counts = update h.counts a (some (n + 1)) },
      ground arith,
      record {
        tied = All-set Tied vars i r v.tied t;
        counted = λ b q. ground (arith, v.counted b, owners-set b vars i r l);
        alive = λ b q. ground (arith, v.alive b, owners-set b vars i r l);
        in_step = v.in_step;
        started = v.started;
        unused = λ b q. ground (arith, v.unused b, v.unused a, owners-set b vars i r l);
        few = omega (arith, length-set vars i r, v.few);
      },
    )
