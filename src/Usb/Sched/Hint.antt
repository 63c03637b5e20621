-- ===== src/Usb/Sched/Hint.antt =====
-- The hints on endpoint 1: what the host is told, and what is forgotten afterwards.
use ch32v20x_usb_mux_uart_bl.Prelude.{ℕ, ◌%◌, ◌/◌, ◌≢◌, List, [], ◌∷◌, ◌≡◌, ◌⊎◌, take}
use ch32v20x_usb_mux_uart_bl.Usb.Dev.{UsbDev}
use ch32v20x_usb_mux_uart_bl.Usb.Tx.{TxCtx}

-- What a hint tells the host, byte by byte: the version 1, no urgent flags, which queues hold a frame,
-- which queues have lost one, and two reserved bytes.
abbrev pub report : ℕ → ℕ → List ℕ
report pending dropped =
    1 ∷ 0 ∷ pending % 256 ∷ pending / 256 % 256 ∷ dropped % 256 ∷ dropped / 256 % 256 ∷ 0 ∷ 0 ∷ []

-- Endpoint 1 sends these eight bytes next.
pub record IsArmed (bytes : List ℕ) (d : UsbDev) : Type 0 where
  pub busy : d.ep1_tx_busy ≡ 1
  pub len : d.uep1_tx_len ≡ 8
  pub loaded : take 8 d.ep1_dma ≡ bytes

-- What becomes of a report: nothing is new, or the device cannot take it, and nothing changes; or it
-- is sent, and forgotten only then.
pub data Hinted (c : TxCtx) (d : UsbDev) (c' : TxCtx) (d' : UsbDev) : Type 0 where
  nothing_new : c.hint_dirty ≡ 0 → c' ≡ c → d' ≡ d → Hinted c d c' d'
  put_off :
      c.hint_dirty ≢ 0
      → (d.configured ≡ 0) ⊎ (d.ep1_tx_busy ≢ 0)
      → c' ≡ c
      → d' ≡ d
      → Hinted c d c' d'
  sent :
      c.hint_dirty ≢ 0
      → d.configured ≢ 0
      → d.ep1_tx_busy ≡ 0
      → IsArmed (report c.pending_bitmap c.dropped_bitmap) d'
      → c' ≡ record c { hint_dirty = 0; dropped_bitmap = 0 }
      → Hinted c d c' d'
