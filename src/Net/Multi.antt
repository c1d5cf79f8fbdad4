-- ===== src/Net/Multi.antt =====
-- `Multi` (src/net/multi.cpp) over libcurl's multi interface, which is a parameter: its functions,
-- and what it documents of the queue of messages. Addresses are numbers; the null handle is `none`.
pub mod Laws
use box_utils.Common.{
  ℕ, zero, suc, ◌≡◌, Bool, true, false, Option, none, some, List, [], ◌∷◌, ◌==◌, if◌then◌else◌, Run,
  ◌>>=◌, ok, throw,
}

-- `CURLMsg`; `is_done` is `msg == CURLMSG_DONE`.
pub record CurlMsg : Type 0 where
  pub is_done : Bool
  pub easy_handle : ℕ
  pub result : ℕ

pub record CurlMulti : Type 1 where
  pub Handle : Type 0
  pub add : Handle → ℕ → Handle
  pub remove : Handle → ℕ → Handle
  pub run : Handle → ℕ × Handle
  pub poll : Handle → ℕ → Option ℕ × Handle
  pub set_max_connects : Handle → ℕ → Handle
  pub info_read : Handle → Option CurlMsg × ℕ × Handle
  -- The messages that are to be read; `info_read` takes the first one out.
  pub pending : Handle → List CurlMsg
  pub info_read-empty :
      (h : Handle) → pending h ≡ [] → ((info_read h).0 ≡ none) × (pending (info_read h).2 ≡ [])
  pub info_read-first :
      (h : Handle) (m : CurlMsg) (ms : List CurlMsg)
      → pending h ≡ m ∷ ms
      → ((info_read h).0 ≡ some m) × (pending (info_read h).2 ≡ ms)

-- `MultiMsg`, without the pointer to its `Multi`.
pub record MultiMsg : Type 0 where
  pub easy : ℕ
  pub userdata : ℕ
  pub code : ℕ

pub data Error : Type 0 where
  null_ptr_exception : Error
  easy_exception : ℕ → Error

-- The fields of the `Easy` objects: the handle of each, and its `multi_userdata`. `ref_from` is
-- the pointer that libcurl keeps with the handle, 0 the null pointer.
pub record Easies : Type 0 where
  pub handle_of : ℕ → ℕ
  pub ref_from : ℕ → ℕ
  pub multi_userdata : ℕ → ℕ

-- `Easy::GetRefFrom`
unfoldable pub get_ref_from : Easies → ℕ → Run Error ℕ
get_ref_from es handle =
    if es.ref_from handle == 0 then throw null_ptr_exception else ok (es.ref_from handle)

module _ (curl : CurlMulti) where
  open curl use {Handle, add, remove, run, poll, set_max_connects, info_read}

  -- `Multi(Multi &&)`: the new one, and what is left of the old one.
  pub move : Option Handle → Option Handle × Option Handle
  move m = (m, none)

  -- `perform`: the number of running handles; all errors are passed over.
  pub perform : Handle → ℕ × Handle
  perform h = run h

  pub add_handle : ℕ → ℕ → Easies → Handle → Easies × Handle
  add_handle easy userdata es h = (
    record es { multi_userdata = λ e. if e == easy then userdata else es.multi_userdata e },
    add h (es.handle_of easy),
  )

  pub remove_handle : ℕ → Easies → Handle → Handle
  remove_handle easy es h = remove h (es.handle_of easy)

  -- `wait`: `none` where it answers -1.
  pub wait : ℕ → Handle → Option ℕ × Handle
  wait timeout_ms h = poll h timeout_ms

  pub set_max : ℕ → Handle → Handle
  set_max max h = set_max_connects h max

  -- `get_msg`: the message, or `none` for false; `ok none` where the fuel does not do.
  pub get_msg : ℕ → Easies → Handle → Run Error (Option (Option MultiMsg × Handle))
  unfolding get_ref_from
  get_msg zero es h = ok none
  get_msg (suc fuel) es h =
      let (cmsg, in_queue, h) = info_read h in
      elim cmsg [
        | none ↦ ok (some (none, h))
        | some m ↦ elim m.is_done [
          | false ↦ get_msg fuel es h
          | true ↦ do
            easy ← get_ref_from es m.easy_handle
            ok (
                some (
                  some (record { easy = easy; userdata = es.multi_userdata easy; code = m.result }),
                  h,
                ))
        ]
      ]

  -- `for_msg`: the messages that the function is called with.
  pub for_msg : ℕ → Easies → Handle → Run Error (Option (List MultiMsg × Handle))
  unfolding get_msg
  for_msg zero es h = ok none
  for_msg (suc fuel) es h = do
    got ← get_msg (suc fuel) es h
    elim got [
      | none ↦ ok none
      | some (none, h) ↦ ok (some ([], h))
      | some (some msg, h) ↦ do
        rest ← for_msg fuel es h
        elim rest [ none ↦ ok none | some (msgs, h) ↦ ok (some (msg ∷ msgs, h)) ]
    ]

pub is_ok : MultiMsg → Bool
is_ok msg = msg.code == 0

pub throw_for_error : MultiMsg → Run Error (Unit {0})
throw_for_error msg = if msg.code == 0 then ok tt else throw (easy_exception msg.code)
