-- ===== src/Net/Startup.antt =====
-- What src/net.cpp does with the parts of libcurl.
use box_utils.Common.{
  Bytes, ℕ, zero, suc, ◌≡◌, refl, Bool, Option, none, some, List, [], ◌∷◌, ◌++◌, Run, ◌>>=◌, ok,
}
use box_utils.Net.Easy.{Error, CurlEasy, World, construct, destroy, perform}
use box_utils.Net.Easy.Options.{set_url, ostream_string}

-- The loop of `SListDup`, with `new_list`; `curl_slist_append` appends to the list it is given and
-- answers its head. `none` where the fuel does not do.
pub dup_loop : ℕ → List Bytes → List Bytes → Option (List Bytes)
dup_loop fuel [] new_list = some new_list
dup_loop zero (str ∷ slist) new_list = none
dup_loop (suc fuel) (str ∷ slist) new_list =
    dup_loop fuel ((str ∷ slist) ++ str ∷ []) ((str ∷ slist) ++ str ∷ [])

pub slist_dup : ℕ → List Bytes → Option (List Bytes)
unfolding dup_loop
slist_dup fuel slist = dup_loop fuel slist []

dup_loop-endless :
    (fuel : ℕ) (str : Bytes) (slist new_list : List Bytes)
    → dup_loop fuel (str ∷ slist) new_list ≡ none
unfolding dup_loop
dup_loop-endless zero str slist new_list = refl
dup_loop-endless (suc fuel) str slist new_list =
    dup_loop-endless fuel str (slist ++ str ∷ []) ((str ∷ slist) ++ str ∷ [])

-- The copy of a list that is not empty never ends, whatever the fuel.
slist_dup-endless :
    (fuel : ℕ) (str : Bytes) (slist : List Bytes) → slist_dup fuel (str ∷ slist) ≡ none
unfolding slist_dup
slist_dup-endless fuel str slist = dup_loop-endless fuel str slist []

-- `Get`, with its Easy at `e` and its string at `content`: where `perform` throws, the Easy is
-- destroyed as well, and the state behind is not looked at.
pub get_content :
    (curl : CurlEasy) → Bool → ℕ → ℕ → Bytes → World curl.State → Run Error (World curl.State)
get_content curl debug e content url w = do
  let w = ostream_string curl e content (set_url curl e (some url) (construct curl debug e w))
  w' ← perform curl e w
  ok (destroy curl e w')
