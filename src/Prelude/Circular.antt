-- ===== src/Prelude/Circular.antt =====
-- The cells of a circular buffer that is written at one index and read at another: both go up by
-- one and return to 0 at `size`. One cell stays unused, so equal indices mean empty.
use Prim.Native.Nat.{ℕ, zero, suc, ◌+◌, ◌-◌, ◌≤◌, ◌<◌}
use mathlib.Core.Path.{◌≡◌, refl, ap, ap₂}
use mathlib.Core.List.{List, [], ◌∷◌, ◌++◌}
use native.Mathlib.Omega.{arith}
use ch32v20x_usb_mux_uart_bl.Prelude.Tests.{leb, if◌then◌else◌}
use ch32v20x_usb_mux_uart_bl.Prelude.Lists.{length, get_or, set, get_or-set_self, get_or-set_ne}

-- The index behind `i`.
abbrev pub next : ℕ → ℕ → ℕ
next size i = if leb size (i + 1) then 0 else i + 1

-- How many cells lie from `i` up to `j`, going round.
abbrev pub dist : ℕ → ℕ → ℕ → ℕ
dist size i j = if leb i j then j - i else size - i + j

module _ {ℓ} {A : Type ℓ} (d : A) (size : ℕ) where
  -- The `n` cells from `i` on.
  abbrev pub cells : List A → ℕ → ℕ → List A
  cells buf i zero = []
  cells buf i (suc n) = get_or buf i d ∷ cells buf (next size i) n

  pub length-cells : (buf : List A) (i n : ℕ) → length (cells buf i n) ≡ n
  length-cells buf i zero = refl
  length-cells buf i (suc n) = ap suc (length-cells buf (next size i) n)

  -- A write to the first free cell leaves the used cells and appends the value.
  pub cells-set :
      (buf : List A) (v : A) (i j n : ℕ)
      → size ≤ length buf
      → i < size
      → j < size
      → n ≡ dist size i j
      → cells (set buf j v) i (suc n) ≡ cells buf i n ++ (v ∷ [])
  cells-set buf v i j zero hb hi hj e =
      let same : i ≡ j = ground arith in cc (get_or-set_self buf j v d (omega arith))
  cells-set buf v i j (suc n) hb hi hj e =
      ap₂ ◌∷◌ (get_or-set_ne buf j i v d (ground arith))
        (cells-set buf v (next size i) j n hb (ground arith) hj (ground arith))
