-- ===== src/Uart/Manager/Queued.antt =====
-- What uart_manager.c and the USART interrupts do to the transmit queues: only `UartMgr_Process` queues
-- frames on its own.
use ch32v20x_usb_mux_uart_bl.Prelude.{
  ℕ, zero, suc, ◌+◌, ◌≡◌, refl, sym, subst, if-cases, Bool, Option, none, some, ◌==◌, arith, Ptr,
  Rc, ok, err, length,
}
use ch32v20x_usb_mux_uart_bl.Proto.Channel
use ch32v20x_usb_mux_uart_bl.Firmware.{Firmware, emit, kick_uart, kick_usb_tx}
use ch32v20x_usb_mux_uart_bl.Usb.Tx
use ch32v20x_usb_mux_uart_bl.Usb.Tx.{TxCtx}
use ch32v20x_usb_mux_uart_bl.Usb.Tx.Invariant.{IsTx, queue_frame-IsTx}
use ch32v20x_usb_mux_uart_bl.Usb.Sched
use ch32v20x_usb_mux_uart_bl.Usb.Sched.{queue_data}
use ch32v20x_usb_mux_uart_bl.Usb.Sched.Replies.{kick_usb_tx-tx}
use ch32v20x_usb_mux_uart_bl.RingBuffer
use ch32v20x_usb_mux_uart_bl.Uart.Types.{UartPort}
use ch32v20x_usb_mux_uart_bl.Uart.Manager.{
  port_at, set_port, get_port, is_open, usb_chunk_size, forward_rx, process_port, process_from,
  process, uart_port_count, irq_rx_byte, irq_tx_next_byte,
}
use ch32v20x_usb_mux_uart_bl.Uart.Irq.{receive_half, transmit_half, common_irq}

queue_data-IsTx :
    (ch i : ℕ) (p : Ptr) (n : ℕ) (fw : Firmware) → IsTx fw.tx → IsTx (queue_data ch i p n fw).1.tx
unfolding queue_data Sched.queue_frame
queue_data-IsTx ch i p n fw v =
    of (Tx.queue_frame _ _ ch i _ 0 0 _ p n fw.tx) (queue_frame-IsTx _ _ ch i _ 0 0 _ p n fw.tx v)
  where
    of :
        (r : Rc × TxCtx)
        → IsTx r.1
        → IsTx
            (elim r.0 as (λ _. Rc × Firmware) [
              | ok ↦ (ok, kick_usb_tx (record fw { tx = r.1 }))
              | err ↦ (err, record fw { tx = r.1 })
            ]).1.tx
    of (ok, c) w = subst IsTx (sym (kick_usb_tx-tx (record fw { tx = c }))) w
    of (err, c) w = w

forward_rx-IsTx : (i : ℕ) (fw : Firmware) → IsTx fw.tx → IsTx (forward_rx i fw).tx
unfolding forward_rx
forward_rx-IsTx i fw v =
    let p : UartPort = port_at i fw in
    let r = RingBuffer.read p.rx_rb usb_chunk_size in
    let fw' : Firmware = set_port i (record p { rx_rb = r.1 }) fw in
    let s = queue_data Channel.uart_data i (some r.0) (length r.0) fw' in
    if-cases (λ (f : Firmware). IsTx f.tx) (length r.0 == 0) _ _ (λ _. v)
      (λ _. of s (queue_data-IsTx Channel.uart_data i (some r.0) (length r.0) fw' v) _)
  where
    of :
        (s : Rc × Firmware)
        → IsTx s.1.tx
        → (q : UartPort)
        → IsTx (elim s.0 as (λ _. Firmware) [ ok ↦ s.1 | err ↦ set_port i q s.1 ]).tx
    of (ok, g) w q = w
    of (err, g) w q = w

process_port-IsTx : (i : ℕ) (fw : Firmware) → IsTx fw.tx → IsTx (process_port i fw).tx
unfolding process_port
process_port-IsTx i fw v =
    if-cases (λ (f : Firmware). IsTx f.tx) (is_open (port_at i fw).state) _ _
      (λ _. forward_rx-IsTx i fw v) (λ _. v)

process_from-IsTx : (left i : ℕ) (fw : Firmware) → IsTx fw.tx → IsTx (process_from left i fw).tx
unfolding process_from
process_from-IsTx zero i fw v = v
process_from-IsTx (suc left) i fw v =
    process_from-IsTx left (i + 1) (process_port i fw) (process_port-IsTx i fw v)

pub process-IsTx : (fw : Firmware) → IsTx fw.tx → IsTx (process fw).tx
unfolding process
process-IsTx fw v = process_from-IsTx uart_port_count 0 fw v

irq_rx_byte-tx : (i x : ℕ) (fw : Firmware) → (irq_rx_byte i x fw).tx ≡ fw.tx
unfolding irq_rx_byte get_port kick_uart
irq_rx_byte-tx i x fw = ground arith

irq_tx_next_byte-tx : (i : ℕ) (fw : Firmware) → (irq_tx_next_byte i fw).1.tx ≡ fw.tx
unfolding irq_tx_next_byte get_port
irq_tx_next_byte-tx i fw = ground arith

transmit_half-tx : (i hw : ℕ) (fw : Firmware) → (transmit_half i hw fw).tx ≡ fw.tx
unfolding transmit_half emit
transmit_half-tx i hw fw = ground (arith, irq_tx_next_byte-tx i fw)

receive_half-tx : (i : ℕ) (rx : Option ℕ) (fw : Firmware) → (receive_half i rx fw).tx ≡ fw.tx
receive_half-tx i none fw = refl
receive_half-tx i (some x) fw = irq_rx_byte-tx i x fw

pub common_irq-tx :
    (usart : ℕ) (rx : Option ℕ) (tx_empty : Bool) (fw : Firmware)
    → (common_irq usart rx tx_empty fw).tx ≡ fw.tx
unfolding common_irq
common_irq-tx usart rx tx_empty fw = grind (arith, receive_half-tx, transmit_half-tx)
