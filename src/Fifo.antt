-- ===== src/Fifo.antt =====
-- The abstract view of the buffers: a first-in first-out queue of at most `cap` items, oldest
-- first. It says nothing of indices, storage or wrap-around.
use ch32v20x_usb_mux_uart_bl.Prelude.{
  ℕ, Option, none, some, List, [], ◌∷◌, ◌++◌, ltb, if◌then◌else◌, length,
}

module _ {ℓ} {A : Type ℓ} where
  -- `none` refuses the item of a full queue.
  unfoldable pub push : ℕ → List A → A → Option (List A)
  push cap q x = if ltb (length q) cap then some (q ++ (x ∷ [])) else none

  unfoldable pub pop : List A → Option (A × List A)
  pop [] = none
  pop (x ∷ q) = some (x, q)
