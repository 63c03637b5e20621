-- ===== src/Uart/Manager/Rings.antt =====
-- The rings of the UART ports: the invariant, and the operations on one port.
pub mod Requested
pub mod Traffic
use ch32v20x_usb_mux_uart_bl.Prelude.{
  ℕ, zero, suc, Bool, true, false, u32, ◌+◌, ◌≤◌, ◌≡◌, sym, subst, arith, some, none, Ptr, Rc, ok,
  err, Option, List, [], ◌∷◌, All, set, get_or, replicate, length-replicate, IsU16,
}
use ch32v20x_usb_mux_uart_bl.Firmware.{Firmware}
use ch32v20x_usb_mux_uart_bl.RingBuffer
use ch32v20x_usb_mux_uart_bl.RingBuffer.{RingBuffer}
use ch32v20x_usb_mux_uart_bl.RingBuffer.Invariant.{
  IsValid, init-IsValid, reset-IsValid, push_byte-IsValid, pop_byte-IsValid,
}
use ch32v20x_usb_mux_uart_bl.RingBuffer.Transfer.{write_lem, write_null}
use ch32v20x_usb_mux_uart_bl.Uart.Types.{UartPort}
use ch32v20x_usb_mux_uart_bl.Uart.Manager
use ch32v20x_usb_mux_uart_bl.Uart.Manager.{
  port_at, set_port, init_port, accept_tx, receive_byte, next_tx_byte,
}

-- Both rings of a port are valid.
pub record IsPort (p : UartPort) : Type 0 where
  pub rx_valid : IsValid p.rx_rb
  pub tx_valid : IsValid p.tx_rb

abbrev pub IsPorts : Firmware → Type 0
IsPorts fw = All IsPort fw.uart

pub zeros-IsValid : (n : ℕ) → 2 ≤ n → IsU16 n → IsValid (RingBuffer.init (some (replicate n 0)) n)
zeros-IsValid n two narrow =
    init-IsValid (replicate n 0) n two (omega (arith, length-replicate {A = ℕ} n 0)) narrow

init_port-IsPort : (i : ℕ) → IsPort (init_port i)
unfolding init_port
init_port-IsPort i = record {
  rx_valid = zeros-IsValid 256 (omega arith) (omega arith);
  tx_valid = zeros-IsValid 256 (omega arith) (omega arith);
}

pub init-IsPort : All IsPort Manager.init
unfolding Manager.init
init-IsPort =
    (init_port-IsPort 0, (init_port-IsPort 1, (init_port-IsPort 2, (init_port-IsPort 3, tt))))

get_or-IsPort : (ps : List UartPort) (i : ℕ) → All IsPort ps → IsPort (get_or ps i (init_port 0))
get_or-IsPort [] i v = init_port-IsPort 0
get_or-IsPort (p ∷ ps) zero v = v.0
get_or-IsPort (p ∷ ps) (suc i) v = get_or-IsPort ps i v.1

set-IsPort :
    (ps : List UartPort) (i : ℕ) (p : UartPort) → All IsPort ps → IsPort p → All IsPort (set ps i p)
set-IsPort [] i p v w = tt
set-IsPort (q ∷ ps) zero p v w = (w, v.1)
set-IsPort (q ∷ ps) (suc i) p v w = (v.0, set-IsPort ps i p v.1 w)

module _ (fw : Firmware) (v : IsPorts fw) where
  pub port_at-IsPort : (i : ℕ) → IsPort (port_at i fw)
  port_at-IsPort i = get_or-IsPort fw.uart i v

  -- A step elsewhere, and one that changes a port besides.
  pub same-IsPorts : (fw' : Firmware) → fw'.uart ≡ fw.uart → IsPorts fw'
  same-IsPorts fw' e = subst (All IsPort) (sym e) v

  pub set_port-IsPorts :
      (i : ℕ) (p : UartPort) (fw' : Firmware)
      → fw'.uart ≡ fw.uart
      → IsPort p
      → IsPorts (set_port i p fw')
  set_port-IsPorts i p fw' e w = set-IsPort fw'.uart i p (same-IsPorts fw' e) w

write-IsValid :
    (rb : RingBuffer) (bs : Ptr) (n : ℕ) → IsValid rb → IsValid (RingBuffer.write rb bs n).1
write-IsValid rb none n v = subst (λ r. IsValid r.1) (sym (write_null rb v n)) v
write-IsValid rb (some bs) n v = let (_, _, w, _) = write_lem rb v bs n in w

module _ (p : UartPort) (v : IsPort p) where
  pub accept_tx-IsPort : (bs : Ptr) (n : ℕ) → IsPort (accept_tx bs n p).1
  unfolding accept_tx
  accept_tx-IsPort bs n = record {
    rx_valid = v.rx_valid;
    tx_valid = write-IsValid p.tx_rb bs n v.tx_valid;
  }

  pub receive_byte-IsPort : (x : ℕ) → IsPort (receive_byte x p).1
  unfolding receive_byte
  receive_byte-IsPort x = kept (RingBuffer.push_byte p.rx_rb x) (push_byte-IsValid x v.rx_valid)
    where
      kept :
          (r : Rc × RingBuffer)
          → IsValid r.1
          → IsPort
              (elim r.0 as (λ _. Bool × UartPort) [
                | ok ↦ (true, record p { rx_rb = r.1; rx_bytes = u32 (p.rx_bytes + 1) })
                | err ↦ (false, record p { rx_rb = r.1; drop_rx_bytes = u32 (p.drop_rx_bytes + 1) })
              ]).1
      kept (ok, rb) w = record { rx_valid = w; tx_valid = v.tx_valid }
      kept (err, rb) w = record { rx_valid = w; tx_valid = v.tx_valid }

  pub next_tx_byte-IsPort : IsPort (next_tx_byte p).1
  unfolding next_tx_byte
  next_tx_byte-IsPort = taken (RingBuffer.pop_byte p.tx_rb) (pop_byte-IsValid v.tx_valid)
    where
      taken :
          (r : Option ℕ × RingBuffer)
          → IsValid r.1
          → IsPort
              (elim r.0 as (λ _. Option ℕ × UartPort) [
                | none ↦ (none, record p { tx_rb = r.1 })
                | some b ↦ (some b, record p { tx_rb = r.1; tx_bytes = u32 (p.tx_bytes + 1) })
              ]).1
      taken (some b, rb) w = record { rx_valid = v.rx_valid; tx_valid = w }
      taken (none, rb) w = record { rx_valid = v.rx_valid; tx_valid = w }
