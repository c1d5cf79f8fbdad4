-- ===== src/Net/Multi/Laws.antt =====
-- The messages that a `Multi` (src/net/multi.cpp) comes to.
use box_utils.Common.{
  ℕ, zero, suc, ◌<◌, ◌≡◌, refl, ◌≢◌, ◌⊎◌, inl, inr, false, none, some, List, [], ◌∷◌, arith, ◌==◌,
  if◌then◌else◌, Bool-cases, length, All, ok,
}
use box_utils.Net.Multi.{CurlMsg, CurlMulti, MultiMsg, Easies, get_ref_from, get_msg, for_msg}

-- What the messages of transfers that are done are turned into, in their order.
abbrev pub done : Easies → List CurlMsg → List MultiMsg
done es [] = []
done es (m ∷ ms) =
    let easy = es.ref_from m.easy_handle in
    if m.is_done
    then record { easy = easy; userdata = es.multi_userdata easy; code = m.result } ∷ done es ms
    else done es ms

-- Each of the messages is of a handle that an `Easy` was made for.
abbrev pub Known : Easies → List CurlMsg → Type 0
Known es = All (λ m. es.ref_from m.easy_handle ≢ 0)

module _ (curl : CurlMulti) (es : Easies) where
  open curl use {Handle, info_read, pending, info_read-empty, info_read-first}

  -- `get_msg` answers the first message of a transfer that is done, or that there is none.
  get_msg-first :
      (fuel : ℕ) (h : Handle) (ms : List CurlMsg)
      → pending h ≡ ms
      → Known es ms
      → length ms < fuel
      → ((h' : Handle) × (get_msg curl fuel es h ≡ ok (some (none, h')))
          × (done es ms ≡ [])
          × (pending h' ≡ []))
        ⊎ ((msg : MultiMsg) × (h' : Handle) × (rest : List CurlMsg) × (get_msg curl fuel es h
              ≡ ok (some (some msg, h')))
            × (done es ms ≡ msg ∷ done es rest)
            × (pending h' ≡ rest)
            × Known es rest
            × (length rest < length ms))
  unfolding get_msg get_ref_from
  get_msg-first zero h ms queue known enough = absurd (omega (arith, enough))
  get_msg-first (suc fuel) h [] queue known enough =
      let (nothing, left) = info_read-empty h queue in
      inl ((info_read h).2, rw (get_msg, nothing) refl, refl, left)
  get_msg-first (suc fuel) h (m ∷ ms) queue (here, known) enough =
      let (read, left) = info_read-first h m ms queue in
      elim (Bool-cases m.is_done) [
        | inl d ↦
            let given : (es.ref_from m.easy_handle == 0) ≡ false = ground arith in
            let msg : MultiMsg = record {
              easy = es.ref_from m.easy_handle;
              userdata = es.multi_userdata (es.ref_from m.easy_handle);
              code = m.result;
            } in
            inr (
              msg,
              (info_read h).2,
              ms,
              rw (get_msg, read) (rw d (rw given refl)),
              rw d refl,
              left,
              known,
              omega arith,
            )
        | inr d ↦ elim (get_msg-first fuel (info_read h).2 ms left known (omega (arith, enough))) [
          | inl (h', got, nothing, empty) ↦
              inl (h', rw (get_msg, read) (rw d got), rw d nothing, empty)
          | inr (msg, h', rest, got, found, queue', known', less) ↦ inr (
            msg,
            h',
            rest,
            rw (get_msg, read) (rw d got),
            rw d found,
            queue',
            known',
            omega (arith, less),
          )
        ]
      ]

  -- With fuel for each message `for_msg` comes to an end, where each message is of a handle that an
  -- `Easy` was made for: its function is called with every message of a transfer that is done, in
  -- their order, and no message is left.
  pub for_msg-visits :
      (fuel : ℕ) (h : Handle) (ms : List CurlMsg)
      → pending h ≡ ms
      → Known es ms
      → length ms < fuel
      → (h' : Handle) × (for_msg curl fuel es h ≡ ok (some (done es ms, h'))) × (pending h' ≡ [])
  unfolding for_msg
  for_msg-visits zero h ms queue known enough = absurd (omega (arith, enough))
  for_msg-visits (suc fuel) h ms queue known enough =
      elim (get_msg-first (suc fuel) h ms queue known enough) [
        | inl (h', got, nothing, empty) ↦ (h', rw (for_msg, got) (rw nothing refl), empty)
        | inr (msg, h1, rest, got, found, queue1, known1, less) ↦
            let (h', ran, empty) =
              for_msg-visits fuel h1 rest queue1 known1 (omega (arith, enough, less)) in
            (h', rw (for_msg, got) (rw (ran, found) refl), empty)
      ]
