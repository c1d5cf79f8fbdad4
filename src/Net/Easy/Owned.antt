-- ===== src/Net/Easy/Owned.antt =====
-- Handles of libcurl, each of which leads back to the object that has it.
use box_utils.Common.{ℕ, ◌≡◌, sym, ap, ◌∙◌, ◌≢◌, true, false, arith, ℕ_discrete}
use mathlib.Core.Path.{subst}
use mathlib.Core.Bool.{true≢false}
use box_utils.Net.Easy.{Setting, private, is_private, OthersKept, Created, CurlEasy, put_at}

module _ (curl : CurlEasy) where
  open curl use {State, live, private_of}

  -- With the handles `f` of the objects: each handle is alive and leads back to its object.
  abbrev pub IsOwned : State → (ℕ → ℕ) → Type 0
  IsOwned s f = (e : ℕ) → f e ≢ 0 → (e ≢ 0) × (live s (f e) ≡ true) × (private_of s (f e) ≡ e)

  -- The same for all objects but `e`, and none of them has the handle `h`.
  abbrev pub OthersOwned : ℕ → ℕ → State → (ℕ → ℕ) → Type 0
  OthersOwned e h s f =
      (e' : ℕ)
      → e' ≢ e
      → f e' ≢ 0
      → (f e' ≢ h) × (e' ≢ 0) × (live s (f e') ≡ true) × (private_of s (f e') ≡ e')

  pub option-IsOwned :
      (h : ℕ) (setting : Setting) (s : State) (f : ℕ → ℕ)
      → is_private setting ≡ false
      → IsOwned s f
      → IsOwned (curl.setopt h setting s).1 f
  option-IsOwned h setting s f other owned e has =
      let (e_set, alive, back) = owned e has in
      elim (ℕ_discrete (f e) h) [
        | yes same ↦ (
          e_set,
          subst (λ x. live (curl.setopt h setting s).1 x ≡ true) (sym same)
              (curl.setopt-live h setting s ∙ subst (λ x. live s x ≡ true) same alive),
          subst (λ x. private_of (curl.setopt h setting s).1 x ≡ e) (sym same)
              (curl.setopt-other h setting s other ∙ subst (λ x. private_of s x ≡ e) same back),
        )
        | no differs ↦
            let (same_live, same_private) = curl.setopt-others h setting s (f e) differs in
            (e_set, same_live ∙ alive, same_private ∙ back)
      ]

  pub OthersOwned-kept :
      (e h : ℕ) (s s' : State) (f : ℕ → ℕ)
      → OthersKept live private_of h s s'
      → OthersOwned e h s f
      → OthersOwned e h s' f
  OthersOwned-kept e h s s' f kept others e' ne has =
      let (differs, e_set, alive, back) = others e' ne has in
      let (same_live, same_private) = kept (f e') differs in
      (differs, e_set, same_live ∙ alive, same_private ∙ back)

  pub OthersOwned-IsOwned : (e : ℕ) (s : State) (f : ℕ → ℕ) → IsOwned s f → OthersOwned e (f e) s f
  OthersOwned-IsOwned e s f owned e' ne has =
      let (e_set, alive, back) = owned e' has in
      (
        λ same.
            let (e_set', alive', back') = owned e (λ z. has (same ∙ z)) in
            ne (sym back ∙ ap (λ x. private_of s x) same ∙ back'),
        e_set,
        alive,
        back,
      )

  -- The pointer to `e` is set for the handle `h` that `e` has.
  pub private-IsOwned :
      (e h : ℕ) (s : State) (f : ℕ → ℕ)
      → e ≢ 0
      → f e ≡ h
      → (h ≢ 0 → live s h ≡ true)
      → OthersOwned e h s f
      → IsOwned (curl.setopt h (private e) s).1 f
  private-IsOwned e h s f e_set handle alive others e' has = elim (ℕ_discrete e' e) [
    | yes same ↦
        let here : f e' ≡ h = ap f same ∙ handle in
        let h_live : live s h ≡ true = alive (λ z. has (here ∙ z)) in
        (
          λ z. e_set (sym same ∙ z),
          subst (λ x. live (curl.setopt h (private e) s).1 x ≡ true) (sym here)
              (curl.setopt-live h (private e) s ∙ h_live),
          subst (λ x. private_of (curl.setopt h (private e) s).1 x ≡ e') (sym here)
              (curl.setopt-private h e s h_live ∙ sym same),
        )
    | no ne ↦
        let (differs, e_set', alive', back) = others e' ne has in
        let (same_live, same_private) = curl.setopt-others h (private e) s (f e') differs in
        (e_set', same_live ∙ alive', same_private ∙ back)
  ]

  pub put_at-same : (f : ℕ → ℕ) (e v : ℕ) → put_at f e v e ≡ v
  put_at-same f e v = ground arith

  pub put_at-other : (f : ℕ → ℕ) (e v e' : ℕ) → e' ≢ e → put_at f e v e' ≡ f e'
  put_at-other f e v e' ne = ground arith

  -- A handle that libcurl has just made is given to `e`.
  pub put_at-IsOwned :
      (e : ℕ) (s : State) (f : ℕ → ℕ) (r : ℕ × State)
      → e ≢ 0
      → Created live private_of s r
      → IsOwned s f
      → IsOwned (curl.setopt r.0 (private e) r.1).1 (put_at f e r.0)
  put_at-IsOwned e s f r e_set (fresh, kept) owned =
      private-IsOwned e r.0 r.1 (put_at f e r.0) e_set (put_at-same f e r.0) (λ h. (fresh h).1)
        (λ e' ne has.
          let here = put_at-other f e r.0 e' ne in
          let (e_set', alive, back) = owned e' (λ z. has (here ∙ z)) in
          let differs : f e' ≢ r.0 = λ same.
            true≢false
              (sym alive ∙ ap (λ x. live s x) same ∙ (fresh (λ z. has (here ∙ same ∙ z))).0) in
          let (same_live, same_private) = kept (f e') differs in
          (
            λ same. differs (sym here ∙ same),
            e_set',
            ap (λ x. live r.1 x) here ∙ same_live ∙ alive,
            ap (λ x. private_of r.1 x) here ∙ same_private ∙ back,
          ))
