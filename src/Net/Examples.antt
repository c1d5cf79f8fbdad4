-- ===== src/Net/Examples.antt =====
-- The theorems on src/net at concrete states.
use box_utils.Common.{
  ℕ, ◌+◌, ◌-◌, ◌≡◌, refl, ap, true, false, Option, none, some, List, [], ◌∷◌, arith, length, ok,
}
use box_utils.Net.Share.{Mutexs}
use box_utils.Net.Multi.{CurlMsg, CurlMulti, Easies, for_msg}
use box_utils.Net.Multi.Laws.{for_msg-visits}

abbrev free : Mutexs
free = record {
  m_cookie = true;
  m_dns = false;
  m_ssl_session = false;
  m_connect = false;
  m_psl = false;
  m_share = true;
}

-- A multi handle that is its queue of messages.
abbrev toy_read : List CurlMsg → Option CurlMsg × ℕ × List CurlMsg
toy_read [] = (none, 0, [])
toy_read (m ∷ ms) = (some m, length ms, ms)

abbrev toy : CurlMulti
toy = record {
  Handle = List CurlMsg;
  add = λ h easy. h;
  remove = λ h easy. h;
  run = λ h. (0, h);
  poll = λ h timeout_ms. (some 0, h);
  set_max_connects = λ h max. h;
  info_read = toy_read;
  pending = λ h. h;
  info_read-empty = λ h e. (ap (λ l. (toy_read l).0) e, ap (λ l. (toy_read l).2) e);
  info_read-first = λ h m ms e. (ap (λ l. (toy_read l).0) e, ap (λ l. (toy_read l).2) e);
}

abbrev es : Easies
es = record { handle_of = λ e. e + 10; ref_from = λ h. h - 10; multi_userdata = λ e. 7 }

-- Two transfers are done, and a message in between is of another kind.
abbrev queue : List CurlMsg
queue =
    record { is_done = true; easy_handle = 11; result = 0 }
    ∷ record { is_done = false; easy_handle = 12; result = 0 }
    ∷ record { is_done = true; easy_handle = 12; result = 28 }
    ∷ []

for_msg-visits_example :
    (h' : List CurlMsg) × (for_msg toy 4 es queue
      ≡ ok (
          some (
            record { easy = 1; userdata = 7; code = 0 }
                ∷ record { easy = 2; userdata = 7; code = 28 }
                ∷ [],
            h',
          )))
    × (h' ≡ [])
for_msg-visits_example =
    for_msg-visits toy es 4 queue queue refl (omega arith, (omega arith, (omega arith, tt)))
      (omega arith)
