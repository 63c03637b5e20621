-- ===== src/Ble/Link/Require.antt =====
-- What a request to a link does when it is not refused.
use ch32v20x_usb_mux_uart_bl.Prelude.{
  ℕ, ◌<◌, ◌≡◌, ◌≢◌, refl, Bool, true, false, some, leb, leb_false→lt, ◌==◌, ==_false→ne, not,
  if-cases, none, Option, if◌then◌else◌,
}
use ch32v20x_usb_mux_uart_bl.Proto.{Status}
use ch32v20x_usb_mux_uart_bl.Firmware.{Firmware}
use ch32v20x_usb_mux_uart_bl.Ble.Types.{LinkCtx}
use ch32v20x_usb_mux_uart_bl.Ble.Status.{max_links, gap_connhandle_init}
use ch32v20x_usb_mux_uart_bl.Ble.Link.{require, link_at}

abbrev with_ctx :
    Option LinkCtx → Status × Firmware → (LinkCtx → Status × Firmware) → Status × Firmware
with_ctx o x f = elim o [ none ↦ x | some c ↦ f c ]

-- A case analysis on a context that may be null.
if_some-cases :
    (P : Status × Firmware → Type 0) (b : Bool) (x : Status × Firmware)
    (f : LinkCtx → Status × Firmware) (ctx : LinkCtx)
    → (b ≡ true → P x)
    → (b ≡ false → P (f ctx))
    → P (with_ctx (if b then none else some ctx) x f)
if_some-cases P true x f ctx h k = h refl
if_some-cases P false x f ctx h k = k refl

-- A refused request changes nothing; else the slot exists and its link is attached and idle.
pub require-cases :
    (P : Status × Firmware → Type 0) (slot : ℕ) (valid : Bool)
    (go : LinkCtx → Firmware → Status × Firmware) (fw : Firmware)
    → ((s : Status) → s ≢ Status.ok → P (s, fw))
    → (slot < 3
        → (link_at slot fw).conn_handle ≢ gap_connhandle_init
        → (link_at slot fw).proc_busy ≡ false
        → P (go (link_at slot fw) fw))
    → P (require slot valid go fw)
unfolding require
require-cases P slot valid go fw bad good =
    let ctx = link_at slot fw in
    if_some-cases P (leb max_links slot) _ _ ctx (λ _. bad Status.err_ble_not_connected (λ e. cc))
      λ inside.
        if-cases P (ctx.conn_handle == gap_connhandle_init) _ _
          (λ _. bad Status.err_ble_not_connected (λ e. cc))
          λ there.
            if-cases P (not valid) _ _ (λ _. bad Status.err_invalid_param (λ e. cc))
              λ _.
                if-cases P ctx.proc_busy _ _ (λ _. bad Status.err_busy (λ e. cc))
                  λ rest.
                    good (leb_false→lt max_links slot inside)
                      (==_false→ne ctx.conn_handle gap_connhandle_init there) rest
