-- ===== src/Json/Examples.antt =====
-- A small node store in place of cJSON, and the theorems on src/json.cpp at concrete nodes in it.
use box_utils.Common.{
  ℕ, suc, Bytes, codes, true, false, not, ◌≡◌, refl, ok, arith, ◌==◌, if◌then◌else◌, Option, none,
  some, [], ◌∷◌, ap, ◌||◌,
}
use box_utils.Json.Interface.{CJson}
use box_utils.Json.Store.{Store}
use box_utils.Json.Lookup.{has, same}
use box_utils.Json.Lookup.Keys.{has-some_named}
use box_utils.Json.Items.{add_item_object, destroy_holder}
use box_utils.Json.Items.Ownership.{add_item_object-hands_over}
use box_utils.Json.Iterator.{JsonIterator, begin, end, decrement}
use box_utils.Json.Iterator.Walk.{collect, walk-visits}

record Node : Type 0 where
  kind : ℕ
  int : ℕ
  double : ℕ
  text : Bytes
  name : Option Bytes
  child : ℕ
  next : ℕ
  prev : ℕ

record Nodes : Type 0 where
  cells : ℕ → Node
  supply : ℕ

abbrev change : ℕ → (Node → Node) → Nodes → Nodes
change p f m = record m { cells = λ q. if q == p then f (m.cells p) else m.cells q }

self_equal : (p : ℕ) → (p == p) ≡ true
self_equal p = ground arith

change_lem : (p : ℕ) (f : Node → Node) (m : Nodes) → (change p f m).cells p ≡ f (m.cells p)
change_lem p f m = rw (self_equal p) refl

abbrev blank : ℕ → Node
blank k = record {
  kind = k;
  int = 0;
  double = 0;
  text = [];
  name = none;
  child = 0;
  next = 0;
  prev = 0;
}

abbrev fresh : Node → Nodes → ℕ × Nodes
fresh n m = (
  m.supply,
  record { cells = λ q. if q == m.supply then n else m.cells q; supply = suc m.supply },
)

abbrev put_below : ℕ → ℕ → Nodes → Nodes
put_below a p m =
    change a (λ n. record n { child = p }) (change p (λ n. record n { next = (m.cells a).child }) m)

abbrev toy : CJson
toy = record {
  Mem = Nodes;
  Int = ℕ;
  Double = ℕ;
  int_of_bool = λ b. if b then 1 else 0;
  bool_of_int = λ i. not (i == 0);
  kind = λ m p. (m.cells p).kind;
  valueint = λ m p. (m.cells p).int;
  valuedouble = λ m p. (m.cells p).double;
  valuestring = λ m p. (m.cells p).text;
  name = λ m p. (m.cells p).name;
  child = λ m p. (m.cells p).child;
  next = λ m p. (m.cells p).next;
  prev = λ m p. (m.cells p).prev;
  is_bool = λ m p. ((m.cells p).kind == 1) || ((m.cells p).kind == 2);
  is_true = λ m p. (m.cells p).kind == 2;
  is_false = λ m p. (m.cells p).kind == 1;
  is_null = λ m p. (m.cells p).kind == 4;
  is_array = λ m p. (m.cells p).kind == 32;
  is_number = λ m p. (m.cells p).kind == 8;
  is_string = λ m p. (m.cells p).kind == 16;
  is_object = λ m p. (m.cells p).kind == 64;
  has_object_item = λ m p key. not ((m.cells p).child == 0);
  parse = λ text m. (0, m);
  get_error_ptr = λ m. 0 ∷ [];
  create_null = fresh (blank 4);
  create_bool = λ b. fresh (blank (if b then 2 else 1));
  create_number = λ d. fresh (record (blank 8) { double = d });
  create_string = λ s. fresh (record (blank 16) { text = s });
  create_array = fresh (blank 32);
  create_object = fresh (blank 64);
  duplicate = λ p m. fresh (m.cells p) m;
  delete = λ p. change p (λ n. blank 0);
  add_item_to_array = put_below;
  add_item_to_object = λ o key p m. put_below o p (change p (λ n. record n { name = some key }) m);
  get_object_item = λ m p key. (m.cells p).child;
  get_array_item = λ m p i. (m.cells p).child;
  get_array_size = λ m p. if (m.cells p).child == 0 then 0 else 1;
  detach_from_array = λ p i m. ((m.cells p).child, change p (λ n. record n { child = 0 }) m);
  detach_from_object = λ b p key m. ((m.cells p).child, change p (λ n. record n { child = 0 }) m);
  set_int_value = λ p i. change p (λ n. record n { int = i; double = i });
  set_number_helper = λ p d. change p (λ n. record n { int = d; double = d });
  set_valuestring = λ p s. change p (λ n. record n { text = s });
  compare_nodes = λ m p q b. (m.cells p).kind == (m.cells q).kind;
  create_int_array = λ l. fresh (blank 32);
  create_string_reference = λ s. fresh (record (blank 16) { text = s });
  add_string_to_object = λ o key s m.
      put_below o m.supply (fresh (record (blank 16) { text = s; name = some key }) m).1;
  add_null_to_object =
      λ o key m. put_below o m.supply (fresh (record (blank 4) { name = some key }) m).1;
  add_bool_to_object = λ o key b m.
      put_below o m.supply (fresh (record (blank (if b then 2 else 1)) { name = some key }) m).1;
  sort_object = λ b p m. m;
  merge_patch = λ b target patch m. (patch, m);
  double_of_int = λ i. i;
  int_equal = λ i j. i == j;
  double_equal = λ d e. d == e;
  set_int_value_kind =
      λ p i m. ap (λ n. n.kind) (change_lem p (λ n. record n { int = i; double = i }) m);
  set_int_value_lem =
      λ p i m. ap (λ n. n.int) (change_lem p (λ n. record n { int = i; double = i }) m);
  set_number_kind =
      λ p d m. ap (λ n. n.kind) (change_lem p (λ n. record n { int = d; double = d }) m);
  set_number_lem =
      λ p d m. ap (λ n. n.double) (change_lem p (λ n. record n { int = d; double = d }) m);
  set_valuestring_kind = λ p s m. ap (λ n. n.kind) (change_lem p (λ n. record n { text = s }) m);
  set_valuestring_lem = λ p s m. ap (λ n. n.text) (change_lem p (λ n. record n { text = s }) m);
}

-- The nodes: 1 a number, 2 the Bool true, 3 a string, 4 an array of the nodes 1 and 2, 5 an object,
-- 6 an empty array, 7 an object with the members 8 and 9. The holder at `n` owns the node `n`.
abbrev cell : ℕ → Node
cell p =
    if p == 1
    then record (blank 8) { next = 2 }
    else if p == 2
    then record (blank 2) { prev = 1 }
    else if p == 3
    then blank 16
    else if p == 4
    then record (blank 32) { child = 1 }
    else if p == 5
    then blank 64
    else if p == 6
    then blank 32
    else if p == 7
    then record (blank 64) { child = 8 }
    else if p == 8
    then record (blank 4) { name = some (codes "k"); next = 9 }
    else if p == 9
    then record (blank 4) { name = some (codes "key") }
    else blank 0

abbrev nodes : Nodes
nodes = record { cells = cell; supply = 10 }

abbrev sample : Store Nodes
sample = record { mem = nodes; holders = λ n. record { cjson = n; ref = false }; next_holder = 10 }

add_item_object-hands_over_example :
    (s' : Store Nodes) × (add_item_object toy 5 (codes "k") 3 sample ≡ ok (tt, s'))
    × (s'.mem ≡ put_below 5 3 (change 3 (λ n. record n { name = some (codes "k") }) nodes))
    × (destroy_holder toy 3 s' ≡ ok (tt, s'))
    × (destroy_holder toy 5 s' ≡ ok (tt, record s' { mem = change 5 (λ n. blank 0) s'.mem }))
add_item_object-hands_over_example =
    add_item_object-hands_over toy 5 3 (codes "k") sample (omega arith) refl (omega arith) refl refl

walk-visits_example :
    (first : JsonIterator) × (stop : JsonIterator) × (begin toy 4 sample ≡ ok first)
    × (end toy 2 4 sample ≡ ok (some stop))
    × (collect toy 3 nodes first stop ≡ ok (some (1 ∷ 2 ∷ [])))
    × (decrement toy nodes stop ≡ ok (record { cjson = 2; prev = 0 }))
walk-visits_example =
    walk-visits toy 4 1 (2 ∷ []) sample refl refl (refl, omega arith, (refl, omega arith, refl))

has-some_named_example : has toy 3 7 (codes "key") true sample ≡ ok (some true)
unfolding same
has-some_named_example =
    has-some_named toy 7 (codes "key") (8 ∷ 9 ∷ []) sample (omega arith) refl
      (refl, omega arith, (refl, omega arith, refl)) ((codes "k", refl), ((codes "key", refl), tt))

abbrev print : Nodes → ℕ → Option Bytes
print m p = some (codes "7")
