-- ===== src/Socket/Stream/Laws.antt =====
-- How often a descriptor is closed (src/socket.cpp).
use box_utils.Common.{ℕ, zero, suc, ◌≡◌, refl, ◌≢◌, false, Option, some, arith, ◌==◌, ok}
use box_utils.Socket.Api.{Api, Cmd, pure, ◌>>=◌, ◌>>◌}
use box_utils.Socket.Stream.{close, destroy, move}

module _ (api : Api) where
  open api use {Os, closesocket}

  -- `close()`, several times on one `Socket`; what the field holds afterwards.
  unfoldable pub closes : ℕ → Option ℕ → Cmd Os (Option ℕ)
  closes zero fd = pure fd
  closes (suc n) fd = close api fd >>= closes n

  -- The descriptor closed so many times by the system.
  abbrev pub closed : ℕ → ℕ → Os → Os
  closed zero fd os = os
  closed (suc n) fd os = closed n fd (closesocket (some fd) os)

  closes-destroy :
      (n fd : ℕ) (os : Os)
      → (fd == 0) ≡ false
      → (closes n (some fd) >>= destroy api) os ≡ ok (tt, closed (suc n) fd os)
  unfolding closes destroy close
  closes-destroy zero fd os h = rw h refl
  closes-destroy (suc n) fd os h = rw h (closes-destroy n fd (closesocket (some fd) os) h)

  -- A Socket of a descriptor that is not 0 is moved to another one and destroyed; the other one is
  -- closed any number of times and then destroyed. The system is told to close the descriptor once
  -- for each call of close, and once more.
  pub destroy-closes :
      (n fd : ℕ) (os : Os)
      → fd ≢ 0
      → (destroy api (move api (some fd)).1 >> (closes n (move api (some fd)).0 >>= destroy api)) os
        ≡ ok (tt, closed (suc n) fd os)
  unfolding destroy close move
  destroy-closes n fd os h = closes-destroy n fd os (ground arith)
