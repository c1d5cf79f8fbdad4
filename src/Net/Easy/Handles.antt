-- ===== src/Net/Easy/Handles.antt =====
-- Which `Easy` a handle of src/net/easy.cpp leads back to, as the objects come and go.
use box_utils.Common.{
  ℕ, ◌≡◌, refl, sym, ap, ◌∙◌, ◌≢◌, Bool, true, false, List, [], ◌∷◌, arith, ◌==◌, ok,
}
use mathlib.Core.Path.{subst}
use box_utils.Net.Multi.{Easies, get_ref_from}
use box_utils.Net.Easy.{
  private, no_signal, verbose, CurlEasy, World, put_at, set_option, from_handle, construct, move,
  copy, clone, destroy, reset,
}
use box_utils.Net.Easy.Operations.{
  Operation, op_construct, op_move, op_copy, op_clone, op_destroy, op_reset, option, apply, Allowed,
  run, AllAllowed,
}
use box_utils.Net.Easy.Owned.{
  IsOwned, option-IsOwned, OthersOwned-kept, OthersOwned-IsOwned, private-IsOwned, put_at-same,
  put_at-other, put_at-IsOwned,
}

module _ (curl : CurlEasy) where
  open curl use {State, live, private_of}

  easy_init-IsOwned :
      (e : ℕ) (w : World State)
      → let r = curl.easy_init w.libcurl in
        let f = put_at w.handle_of e r.0 in
        e ≢ 0
        → IsOwned curl w.libcurl w.handle_of
        → IsOwned curl (curl.setopt (f e) (private e) r.1).1 f
  easy_init-IsOwned e w e_set owned =
      let r = curl.easy_init w.libcurl in
      subst (λ h. IsOwned curl (curl.setopt h (private e) r.1).1 (put_at w.handle_of e r.0))
        (sym (put_at-same curl w.handle_of e r.0))
        (put_at-IsOwned curl e w.libcurl w.handle_of r e_set (curl.easy_init-Created w.libcurl)
          owned)

  construct-IsOwned :
      (debug : Bool) (e : ℕ) (w : World State)
      → e ≢ 0
      → IsOwned curl w.libcurl w.handle_of
      → IsOwned curl (construct curl debug e w).libcurl (construct curl debug e w).handle_of
  unfolding construct set_option
  construct-IsOwned false e w e_set owned =
      let r = curl.easy_init w.libcurl in
      let f = put_at w.handle_of e r.0 in
      option-IsOwned curl (f e) no_signal (curl.setopt (f e) (private e) r.1).1 f refl
        (easy_init-IsOwned e w e_set owned)
  construct-IsOwned true e w e_set owned =
      let r = curl.easy_init w.libcurl in
      let f = put_at w.handle_of e r.0 in
      let s = (curl.setopt (f e) (private e) r.1).1 in
      option-IsOwned curl (f e) no_signal (curl.setopt (f e) verbose s).1 f refl
        (option-IsOwned curl (f e) verbose s f refl (easy_init-IsOwned e w e_set owned))

  copy-IsOwned :
      (e from : ℕ) (w : World State)
      → e ≢ 0
      → IsOwned curl w.libcurl w.handle_of
      → IsOwned curl (copy curl e from w).libcurl (copy curl e from w).handle_of
  unfolding copy from_handle set_option
  copy-IsOwned e from w e_set owned =
      let r = curl.duphandle (w.handle_of from) w.libcurl in
      subst (λ h. IsOwned curl (curl.setopt h (private e) r.1).1 (put_at w.handle_of e r.0))
        (sym (put_at-same curl w.handle_of e r.0))
        (put_at-IsOwned curl e w.libcurl w.handle_of r e_set
          (curl.duphandle-Created (w.handle_of from) w.libcurl) owned)

  clone-IsOwned :
      (e from : ℕ) (w : World State)
      → e ≢ 0
      → IsOwned curl w.libcurl w.handle_of
      → IsOwned curl (clone curl e from w).libcurl (clone curl e from w).handle_of
  unfolding clone from_handle set_option
  clone-IsOwned e from w e_set owned =
      let r = curl.duphandle (w.handle_of from) w.libcurl in
      subst (λ h. IsOwned curl (curl.setopt h (private e) r.1).1 (put_at w.handle_of e r.0))
        (sym (put_at-same curl w.handle_of e r.0))
        (put_at-IsOwned curl e w.libcurl w.handle_of r e_set
          (curl.duphandle-Created (w.handle_of from) w.libcurl) owned)

  move-IsOwned :
      (e from : ℕ) (w : World State)
      → e ≢ 0
      → from ≢ e
      → IsOwned curl w.libcurl w.handle_of
      → IsOwned curl (move curl e from w).libcurl (move curl e from w).handle_of
  unfolding move set_option
  move-IsOwned e from w e_set apart owned =
      let h = w.handle_of from in
      let g = put_at w.handle_of e h in
      let f = put_at g from 0 in
      let g_e : g e ≡ h = put_at-same curl w.handle_of e h in
      subst (λ x. IsOwned curl (curl.setopt x (private e) w.libcurl).1 f) (sym g_e)
        (private-IsOwned curl e h w.libcurl f e_set
          (put_at-other curl g from 0 e (λ z. apart (sym z)) ∙ g_e) (λ has. (owned from has).1)
          (λ e' ne has.
            let moved : e' ≢ from = λ z. has (ap f z ∙ put_at-same curl g from 0) in
            let here : f e' ≡ w.handle_of e' =
              put_at-other curl g from 0 e' moved ∙ put_at-other curl w.handle_of e h e' ne in
            subst
              (λ x. (x ≢ h) × (e' ≢ 0) × (live w.libcurl x ≡ true) × (private_of w.libcurl x ≡ e'))
              (sym here)
              (OthersOwned-IsOwned curl from w.libcurl w.handle_of owned e' moved
                (λ z. has (here ∙ z)))))

  destroy-IsOwned :
      (e : ℕ) (w : World State)
      → IsOwned curl w.libcurl w.handle_of
      → IsOwned curl (destroy curl e w).libcurl (destroy curl e w).handle_of
  unfolding destroy
  destroy-IsOwned e w owned e' has =
      let h = w.handle_of e in
      let ne : e' ≢ e =
        λ z. has (ap (put_at w.handle_of e 0) z ∙ put_at-same curl w.handle_of e 0) in
      let here : put_at w.handle_of e 0 e' ≡ w.handle_of e' =
        put_at-other curl w.handle_of e 0 e' ne in
      let (differs, e_set, alive, back) =
        OthersOwned-kept curl e h w.libcurl (curl.cleanup h w.libcurl) w.handle_of
          (curl.cleanup-others h w.libcurl) (OthersOwned-IsOwned curl e w.libcurl w.handle_of owned)
          e' ne (λ z. has (here ∙ z)) in
      subst
        (λ x.
          (e' ≢ 0)
          × (live (curl.cleanup h w.libcurl) x ≡ true)
          × (private_of (curl.cleanup h w.libcurl) x ≡ e'))
        (sym here) (e_set, alive, back)

  reset-IsOwned :
      (e : ℕ) (w : World State)
      → e ≢ 0
      → IsOwned curl w.libcurl w.handle_of
      → IsOwned curl (reset curl e w).libcurl (reset curl e w).handle_of
  unfolding reset set_option
  reset-IsOwned e w e_set owned =
      let h = w.handle_of e in
      let s = curl.easy_reset h w.libcurl in
      let s' = (curl.setopt h no_signal s).1 in
      private-IsOwned curl e h s' w.handle_of e_set refl
        (λ has. curl.setopt-live h no_signal s ∙ curl.easy_reset-live h w.libcurl ∙ (owned e has).1)
        (OthersOwned-kept curl e h s s' w.handle_of (curl.setopt-others h no_signal s) (
          OthersOwned-kept curl e h w.libcurl s w.handle_of (curl.easy_reset-others h w.libcurl)
            (OthersOwned-IsOwned curl e w.libcurl w.handle_of owned)))

  apply-IsOwned :
      (op : Operation) (w : World State)
      → Allowed curl op w
      → IsOwned curl w.libcurl w.handle_of
      → IsOwned curl (apply curl op w).libcurl (apply curl op w).handle_of
  unfolding apply
  apply-IsOwned (op_construct debug e) w allowed owned = construct-IsOwned debug e w allowed.0 owned
  apply-IsOwned (op_move e from) w allowed owned = move-IsOwned e from w allowed.0 allowed.2 owned
  apply-IsOwned (op_copy e from) w allowed owned = copy-IsOwned e from w allowed.0 owned
  apply-IsOwned (op_clone e from) w allowed owned = clone-IsOwned e from w allowed.0 owned
  apply-IsOwned (op_destroy e) w allowed owned = destroy-IsOwned e w owned
  apply-IsOwned (op_reset e) w allowed owned = reset-IsOwned e w allowed owned
  apply-IsOwned (option e setting) w allowed owned =
      option-IsOwned curl (w.handle_of e) setting w.libcurl w.handle_of allowed owned

  run-IsOwned :
      (ops : List Operation) (w : World State)
      → AllAllowed curl ops w
      → IsOwned curl w.libcurl w.handle_of
      → IsOwned curl (run curl ops w).libcurl (run curl ops w).handle_of
  unfolding run
  run-IsOwned [] w allowed owned = owned
  run-IsOwned (op ∷ ops) w (here, allowed) owned =
      run-IsOwned ops (apply curl op w) allowed (apply-IsOwned op w here owned)

  -- What `GetRefFrom` reads.
  abbrev pub easies : World State → Easies
  easies w = record {
    handle_of = w.handle_of;
    ref_from = private_of w.libcurl;
    multi_userdata = w.multi_userdata;
  }

  -- Objects are made (each at an address where none is), moved, copied, cloned, reset, destroyed and
  -- get options set, in any order: whenever an object has a handle, the handle is alive, no other
  -- object has it, and GetRefFrom comes from the handle to the object.
  pub get_ref_from-run :
      (ops : List Operation) (s : State)
      → let w0 : World State = record {
        libcurl = s;
        handle_of = λ e. 0;
        multi_userdata = λ e. 0;
      } in
        let w = run curl ops w0 in
        AllAllowed curl ops w0
        → (e : ℕ) → w.handle_of e ≢ 0
        → (live w.libcurl (w.handle_of e) ≡ true)
          × ((e' : ℕ) → w.handle_of e' ≡ w.handle_of e → e' ≡ e)
          × (get_ref_from (easies w) (w.handle_of e) ≡ ok e)
  unfolding get_ref_from
  get_ref_from-run ops s allowed e has =
      let w0 : World State = record { libcurl = s; handle_of = λ e. 0; multi_userdata = λ e. 0 } in
      let w = run curl ops w0 in
      let owned : IsOwned curl w.libcurl w.handle_of =
        run-IsOwned ops w0 allowed (λ e h. absurd (h refl)) in
      let (e_set, alive, back) = owned e has in
      let not_null : (private_of w.libcurl (w.handle_of e) == 0) ≡ false = rw back (ground arith) in
      (
        alive,
        λ e' same.
            let (e_set', alive', back') = owned e' (λ z. has (sym same ∙ z)) in
            sym back' ∙ ap (λ x. private_of w.libcurl x) same ∙ back,
        rw (not_null, back) refl,
      )
