-- ===== src/App/Sound.antt =====
-- The transmit queues and the rings of the UART ports, which most parts of the firmware share.
pub mod Report
pub mod Link
pub mod Gatt
pub mod Host
pub mod Dispatch
use ch32v20x_usb_mux_uart_bl.Prelude.{
  ℕ, ◌≡◌, sym, subst, arith, Ptr, Rc, ok, err, All, if-cases, not,
}
use ch32v20x_usb_mux_uart_bl.Proto.{Hdr, Status}
use ch32v20x_usb_mux_uart_bl.Proto.Msg
use ch32v20x_usb_mux_uart_bl.Firmware.{Firmware, kick_usb_tx}
use ch32v20x_usb_mux_uart_bl.Usb.Tx
use ch32v20x_usb_mux_uart_bl.Usb.Tx.{TxCtx, Lane}
use ch32v20x_usb_mux_uart_bl.Usb.Tx.Invariant.{IsTx, queue_frame-IsTx, pop_queue-IsTx}
use ch32v20x_usb_mux_uart_bl.Usb.Sched
use ch32v20x_usb_mux_uart_bl.Usb.Sched.{queue_rsp, queue_evt, queue_data}
use ch32v20x_usb_mux_uart_bl.Uart.Manager.Rings.{IsPort}

-- The transmit queues are well formed and the rings of every port are valid.
abbrev pub IsSound : Firmware → Type 0
IsSound fw = IsTx fw.tx × All IsPort fw.uart

pub elsewhere : (fw fw' : Firmware) → fw'.tx ≡ fw.tx → fw'.uart ≡ fw.uart → IsSound fw → IsSound fw'
elsewhere fw fw' e u (a, b) = (subst IsTx (sym e) a, subst (All IsPort) (sym u) b)

kick_usb_tx-IsSound : (fw : Firmware) → IsSound fw → IsSound (kick_usb_tx fw)
unfolding kick_usb_tx
kick_usb_tx-IsSound fw v = elsewhere fw (kick_usb_tx fw) (ground arith) (ground arith) v

queue_frame-IsSound :
    (l : Lane) (bit ch slot msg opcode ref : ℕ) (s : Status) (p : Ptr) (n : ℕ) (fw : Firmware)
    → IsSound fw
    → IsSound (Sched.queue_frame l bit ch slot msg opcode ref s p n fw).1
unfolding Sched.queue_frame
queue_frame-IsSound l bit ch slot msg opcode ref s p n fw v =
    after (Tx.queue_frame l bit ch slot msg opcode ref s p n fw.tx)
      (queue_frame-IsTx l bit ch slot msg opcode ref s p n fw.tx v.0)
  where
    after :
        (r : Rc × TxCtx)
        → IsTx r.1
        → IsSound
            (elim r.0 as (λ _. Rc × Firmware) [
              | ok ↦ (ok, kick_usb_tx (record fw { tx = r.1 }))
              | err ↦ (err, record fw { tx = r.1 })
            ]).1
    after (ok, c) w = kick_usb_tx-IsSound (record fw { tx = c }) (w, v.1)
    after (err, c) w = (w, v.1)

pub queue_rsp-IsSound :
    (hdr : Hdr) (s : Status) (p : Ptr) (n : ℕ) (fw : Firmware)
    → IsSound fw
    → IsSound (queue_rsp hdr s p n fw).1
unfolding queue_rsp
queue_rsp-IsSound hdr s p n fw v =
    queue_frame-IsSound _ _ hdr.ch_type hdr.ch_id _ hdr.opcode hdr.seq s p n fw v

pub queue_evt-IsSound :
    (ch slot opcode : ℕ) (p : Ptr) (n : ℕ) (fw : Firmware)
    → IsSound fw
    → IsSound (queue_evt ch slot opcode p n fw).1
unfolding queue_evt
queue_evt-IsSound ch slot opcode p n fw v = queue_frame-IsSound _ _ ch slot _ opcode 0 _ p n fw v
