-- ===== src/Net/Easy/Operations.antt =====
-- Sequences of what a program does with its `Easy` objects (src/net/easy.cpp).
use box_utils.Common.{ℕ, ◌≡◌, ◌≢◌, Bool, false, List, [], ◌∷◌}
use box_utils.Net.Easy.{
  Setting, is_private, CurlEasy, World, set_option, construct, move, copy, clone, destroy, reset,
}

-- What is done with the objects; `option` is any member that sets an option.
pub data Operation : Type 0 where
  op_construct : Bool → ℕ → Operation
  op_move op_copy op_clone : ℕ → ℕ → Operation
  op_destroy op_reset : ℕ → Operation
  option : ℕ → Setting → Operation

module _ (curl : CurlEasy) where
  open curl use {State}

  unfoldable pub apply : Operation → World State → World State
  unfolding construct move copy clone destroy reset set_option
  apply (op_construct debug e) w = construct curl debug e w
  apply (op_move e from) w = move curl e from w
  apply (op_copy e from) w = copy curl e from w
  apply (op_clone e from) w = clone curl e from w
  apply (op_destroy e) w = destroy curl e w
  apply (op_reset e) w = reset curl e w
  apply (option e setting) w = set_option curl e setting w

  -- An object is made at an address where none is that has a handle; the members set all options but
  -- the pointer.
  abbrev pub Allowed : Operation → World State → Type 0
  Allowed (op_construct debug e) w = (e ≢ 0) × (w.handle_of e ≡ 0)
  Allowed (op_move e from) w = (e ≢ 0) × (w.handle_of e ≡ 0) × (from ≢ e)
  Allowed (op_copy e from) w = (e ≢ 0) × (w.handle_of e ≡ 0)
  Allowed (op_clone e from) w = (e ≢ 0) × (w.handle_of e ≡ 0)
  Allowed (op_destroy e) w = Unit
  Allowed (op_reset e) w = e ≢ 0
  Allowed (option e setting) w = is_private setting ≡ false

  unfoldable pub run : List Operation → World State → World State
  unfolding apply
  run [] w = w
  run (op ∷ ops) w = run ops (apply op w)

  abbrev pub AllAllowed : List Operation → World State → Type 0
  AllAllowed [] w = Unit
  AllAllowed (op ∷ ops) w = Allowed op w × AllAllowed ops (apply op w)
