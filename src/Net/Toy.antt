-- ===== src/Net/Toy.antt =====
-- A libcurl to try the theorems on src/net in.
use box_utils.Common.{
  ℕ, suc, ◌≡◌, refl, Bool, true, false, ◌&&◌, none, arith, ltb, leb, ◌==◌, if◌then◌else◌,
}
use mathlib.Core.Bool.{true≢false}
use box_utils.Net.Easy.{
  Setting, private, header_data, is_private, OthersKept, Created, CurlEasy, World,
}
use box_utils.Net.Factory.Moved.{is_header_data, HeaderTarget}

-- A libcurl that numbers its handles from 1 and keeps them: the last one, and the pointers to the
-- object and to the headers of each.
pub record Toy : Type 0 where
  pub last : ℕ
  pub owners : ℕ → ℕ
  pub targets : ℕ → ℕ

abbrev pub toy_live : Toy → ℕ → Bool
toy_live s h = ltb 0 h && leb h s.last

abbrev pub toy_private : Toy → ℕ → ℕ
toy_private s h = s.owners h

abbrev pub toy_new : Toy → ℕ × Toy
toy_new s = (suc s.last, record s { last = suc s.last })

abbrev pub toy_set : ℕ → Setting → Toy → ℕ × Toy
toy_set h (private p) s = (0, record s { owners = λ x. if x == h then p else s.owners x })
toy_set h (header_data p) s = (0, record s { targets = λ x. if x == h then p else s.targets x })
toy_set h setting s = (0, s)

pub toy_kept : (h : ℕ) (s : Toy) → OthersKept toy_live toy_private h s s
toy_kept h s h' ne = (refl, refl)

pub toy_new-Created : (s : Toy) → Created toy_live toy_private s (toy_new s)
toy_new-Created s = (λ has. (ground arith, ground arith), λ h' ne. (ground arith, refl))

pub toy_set-others :
    (h : ℕ) (setting : Setting) (s : Toy)
    → OthersKept toy_live toy_private h s (toy_set h setting s).1
toy_set-others h (private p) s h' ne = (refl, ground arith)
toy_set-others h (header_data p) s h' ne = (refl, refl)
toy_set-others h setting s h' ne = (refl, refl)

pub toy_set-live :
    (h : ℕ) (setting : Setting) (s : Toy) → toy_live (toy_set h setting s).1 h ≡ toy_live s h
toy_set-live h (private p) s = refl
toy_set-live h (header_data p) s = refl
toy_set-live h setting s = refl

pub toy_set-private :
    (h p : ℕ) (s : Toy) → toy_live s h ≡ true → toy_private (toy_set h (private p) s).1 h ≡ p
toy_set-private h p s alive = ground arith

pub toy_set-other :
    (h : ℕ) (setting : Setting) (s : Toy)
    → is_private setting ≡ false
    → toy_private (toy_set h setting s).1 h ≡ toy_private s h
toy_set-other h (private p) s e = absurd (true≢false e)
toy_set-other h (header_data p) s e = refl
toy_set-other h setting s e = refl

abbrev pub toy : CurlEasy
toy = record {
  State = Toy;
  easy_init = toy_new;
  duphandle = λ h s. toy_new s;
  setopt = toy_set;
  easy_reset = λ h s. s;
  cleanup = λ h s. s;
  easy_perform = λ h s. (0, s);
  response_code = λ h s. (0, 200);
  effective_url = λ h s. (0, none);
  content_type_of = λ h s. (0, none);
  scheme_of = λ h s. (0, none);
  escape = λ h text s. text;
  live = toy_live;
  private_of = toy_private;
  easy_init-Created = toy_new-Created;
  duphandle-Created = λ h s. toy_new-Created s;
  setopt-others = toy_set-others;
  setopt-live = toy_set-live;
  setopt-private = toy_set-private;
  setopt-other = toy_set-other;
  easy_reset-others = toy_kept;
  easy_reset-live = λ h s. refl;
  cleanup-others = toy_kept;
}

pub target-set :
    (h p : ℕ) (s : Toy) → toy_live s h ≡ true → (toy_set h (header_data p) s).1.targets h ≡ p
target-set h p s alive = ground arith

pub target-other :
    (h : ℕ) (setting : Setting) (s : Toy)
    → is_header_data setting ≡ false
    → (toy_set h setting s).1.targets h ≡ s.targets h
target-other h (private p) s e = refl
target-other h (header_data p) s e = absurd (true≢false e)
target-other h setting s e = refl

abbrev pub toy_target : HeaderTarget toy
toy_target = record {
  target_of = λ s h. s.targets h;
  target_of-set = target-set;
  target_of-other = target-other;
}

abbrev pub start : World Toy
start = record {
  libcurl = record { last = 0; owners = λ h. 0; targets = λ h. 0 };
  handle_of = λ e. 0;
  multi_userdata = λ e. 0;
}
