-- ===== src/Json/Items/Ownership.antt =====
-- Who deletes a node that `add_item` (src/json.cpp) has put below another one.
use box_utils.Common.{ℕ, Bytes, true, false, ◌≡◌, refl, ◌≢◌, ok, arith, ◌==◌, ap, ◌∙◌}
use box_utils.Json.Interface.{CJson}
use box_utils.Json.Store.{array, object, Holder, Store, update}
use box_utils.Json.Types.{cjson_of, tag, json_array, json_object, check_is, check_is-holds}
use box_utils.Json.Items.{add_item_array, add_item_object, destroy_holder}

module _ (lib : CJson) where
  open lib use {Mem, delete, add_item_to_array, add_item_to_object}

  -- The destructor of a holder that owns its node, whose holder is `h`.
  destroy-owner :
      (j : ℕ) (h : Holder) (s : Store Mem)
      → s.holders j ≡ h
      → h.ref ≡ false
      → destroy_holder lib j s ≡ ok (tt, record s { mem = delete h.cjson s.mem })
  unfolding destroy_holder
  destroy-owner j h s same own =
      rw (ap (λ x. x.ref) same ∙ own)
        (ap (λ x. ok (tt, record s { mem = delete x.cjson s.mem })) same)

  -- An object takes over the node of an owning `Json` that is added to it: the destructor of that
  -- `Json` deletes nothing any more, that of the object deletes the object as before.
  pub add_item_object-hands_over :
      (j json : ℕ) (key : Bytes) (s : Store Mem)
      → cjson_of lib j s ≢ 0
      → tag lib j s ≡ json_object
      → j ≢ json
      → (s.holders json).ref ≡ false
      → (s.holders j).ref ≡ false
      → (s' : Store Mem) × (add_item_object lib j key json s ≡ ok (tt, s'))
        × (s'.mem ≡ add_item_to_object (cjson_of lib j s) key (cjson_of lib json s) s.mem)
        × (destroy_holder lib json s' ≡ ok (tt, s'))
        × (destroy_holder lib j s' ≡ ok (tt, record s' { mem = delete (cjson_of lib j s) s'.mem }))
  unfolding add_item_object destroy_holder
  add_item_object-hands_over j json key s h t ne own owns =
      let checked : check_is lib object j s ≡ ok (tt, s) = check_is-holds lib object j s h t in
      let self : (json == json) ≡ true = ground arith in
      let other : (j == json) ≡ false = ground arith in
      let s' : Store Mem = record {
        mem = add_item_to_object (cjson_of lib j s) key (cjson_of lib json s) s.mem;
        holders = update s.holders json (record { cjson = cjson_of lib json s; ref = true });
        next_holder = s.next_holder;
      } in
      (
        s',
        rw (checked, own) refl,
        refl,
        rw self refl,
        destroy-owner j (s.holders j) s' (rw other refl) owns,
      )

  -- An owning array that an owning `Json` is added to becomes a reference itself: its destructor
  -- deletes nothing any more, and the destructor of the `Json` deletes the node that is in it.
  pub add_item_array-gives_itself_up :
      (j json : ℕ) (s : Store Mem)
      → cjson_of lib j s ≢ 0
      → tag lib j s ≡ json_array
      → j ≢ json
      → (s.holders json).ref ≡ false
      → (s.holders j).ref ≡ false
      → (s' : Store Mem) × (add_item_array lib j json s ≡ ok (tt, s'))
        × (s'.mem ≡ add_item_to_array (cjson_of lib j s) (cjson_of lib json s) s.mem)
        × (destroy_holder lib j s' ≡ ok (tt, s'))
        × (destroy_holder lib json s'
            ≡ ok (tt, record s' { mem = delete (cjson_of lib json s) s'.mem }))
  unfolding add_item_array destroy_holder
  add_item_array-gives_itself_up j json s h t ne own owns =
      let checked : check_is lib array j s ≡ ok (tt, s) = check_is-holds lib array j s h t in
      let self : (j == j) ≡ true = ground arith in
      let other : (json == j) ≡ false = ground arith in
      let s' : Store Mem = record {
        mem = add_item_to_array (cjson_of lib j s) (cjson_of lib json s) s.mem;
        holders = update s.holders j (record { cjson = cjson_of lib j s; ref = true });
        next_holder = s.next_holder;
      } in
      (
        s',
        rw (checked, owns) refl,
        refl,
        rw self refl,
        destroy-owner json (s.holders json) s' (rw other refl) own,
      )
