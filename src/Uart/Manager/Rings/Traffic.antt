-- ===== src/Uart/Manager/Rings/Traffic.antt =====
-- The bytes between the host, the ports and the interrupt handlers, and the rings of the ports.
use ch32v20x_usb_mux_uart_bl.Prelude.{
  ℕ, zero, suc, ◌+◌, ◌≡◌, refl, ◌∙◌, if-cases, Bool-cases, inl, inr, ◌⊎◌, Bool, false, Option, none,
  some, not, ◌==◌, leb, Ptr, if◌then◌else◌, arith, Rc, ok, err, length,
}
use ch32v20x_usb_mux_uart_bl.Proto.{Status}
use ch32v20x_usb_mux_uart_bl.Proto.Channel
use ch32v20x_usb_mux_uart_bl.Firmware.{Firmware, emit, kick_uart, kick_usb_tx}
use ch32v20x_usb_mux_uart_bl.Hal.{usart_send, usart_it, txe}
use ch32v20x_usb_mux_uart_bl.Usb.Sched
use ch32v20x_usb_mux_uart_bl.Usb.Sched.{queue_data}
use ch32v20x_usb_mux_uart_bl.RingBuffer
use ch32v20x_usb_mux_uart_bl.RingBuffer.{RingBuffer}
use ch32v20x_usb_mux_uart_bl.RingBuffer.Transfer.{read_lem}
use ch32v20x_usb_mux_uart_bl.Uart.Types.{UartPort}
use ch32v20x_usb_mux_uart_bl.Uart.Port.{try_kick_tx, find_logic_port_by_phy, get_hw_desc}
use ch32v20x_usb_mux_uart_bl.Uart.Manager.{
  port_at, set_port, get_port, is_open, is_disabled, accept_tx, write_from_host, usb_chunk_size,
  forward_rx, process_port, process_from, process, uart_port_count, receive_byte, irq_rx_byte,
  irq_tx_next_byte,
}
use ch32v20x_usb_mux_uart_bl.Uart.Irq.{receive_half, transmit_half, common_irq}
use ch32v20x_usb_mux_uart_bl.Uart.Manager.Rings.{
  IsPort, IsPorts, port_at-IsPort, same-IsPorts, set_port-IsPorts, accept_tx-IsPort,
  receive_byte-IsPort, next_tx_byte-IsPort,
}

kick_uart-uart : (fw : Firmware) → (kick_uart fw).uart ≡ fw.uart
unfolding kick_uart
kick_uart-uart fw = ground arith

try_kick_tx-uart : (i : ℕ) (fw : Firmware) → (try_kick_tx i fw).uart ≡ fw.uart
unfolding try_kick_tx
try_kick_tx-uart i fw = ground arith

queue_data-uart :
    (ch i : ℕ) (p : Ptr) (n : ℕ) (fw : Firmware) → (queue_data ch i p n fw).1.uart ≡ fw.uart
unfolding queue_data Sched.queue_frame kick_usb_tx
queue_data-uart ch i p n fw = ground arith

-- Behind a queued frame the port stays as it is, or counts what was refused.
sent-IsPorts :
    (i : ℕ) (r : Rc × Firmware) (q : UartPort)
    → IsPorts r.1
    → IsPort q
    → IsPorts (elim r.0 as (λ _. Firmware) [ ok ↦ r.1 | err ↦ set_port i q r.1 ])
sent-IsPorts i (ok, fw) q v w = v
sent-IsPorts i (err, fw) q v w = set_port-IsPorts fw v i q fw refl w

get_port-cases :
    (i : ℕ) (fw : Firmware) → (get_port i fw ≡ none) ⊎ (get_port i fw ≡ some (port_at i fw))
unfolding get_port
get_port-cases i fw = elim (Bool-cases (leb uart_port_count i)) [
  | inl far ↦ inl (rw far refl)
  | inr near ↦ inr (rw near refl)
]

module _ (fw : Firmware) (v : IsPorts fw) where
  set-IsPorts : (i : ℕ) (p : UartPort) → IsPort p → IsPorts (set_port i p fw)
  set-IsPorts i p w = set_port-IsPorts fw v i p fw refl w

  woken-IsPorts : (i : ℕ) (p : UartPort) → IsPort p → IsPorts (kick_uart (set_port i p fw))
  woken-IsPorts i p w =
      same-IsPorts (set_port i p fw) (set-IsPorts i p w) (kick_uart (set_port i p fw))
        (kick_uart-uart (set_port i p fw))

  pub write_from_host-IsPorts : (i : ℕ) (bs : Ptr) (n : ℕ) → IsPorts (write_from_host i bs n fw).1
  unfolding write_from_host
  write_from_host-IsPorts i bs n = elim (get_port-cases i fw) [
    | inl far ↦ rw (write_from_host, far) v
    | inr near ↦
        (let q : UartPort = (accept_tx bs n (port_at i fw)).1 in
          let stored : Firmware = set_port i q fw in
          let w : IsPorts stored =
            set-IsPorts i q (accept_tx-IsPort (port_at i fw) (port_at-IsPort fw v i) bs n) in
          rw (write_from_host, near)
            (if-cases (λ (r : Status × Firmware). IsPorts r.1) (is_disabled (port_at i fw).state) _
              _ (λ _. v)
              (λ _.
                if-cases (λ (r : Status × Firmware). IsPorts r.1)
                  (not (is_open (port_at i fw).state)) _ _ (λ _. v)
                  (λ _.
                    same-IsPorts stored w (kick_uart (try_kick_tx i stored))
                      (kick_uart-uart (try_kick_tx i stored) ∙ try_kick_tx-uart i stored)))))
  ]

  forward_rx-IsPorts : (i : ℕ) → IsPorts (forward_rx i fw)
  unfolding forward_rx
  forward_rx-IsPorts i =
      let p : UartPort = port_at i fw in
      let p_ok : IsPort p = port_at-IsPort fw v i in
      let r = RingBuffer.read p.rx_rb usb_chunk_size in
      let (_, _, taken, _) = read_lem p.rx_rb usb_chunk_size p_ok.rx_valid in
      let read : UartPort = record p { rx_rb = r.1 } in
      let fw' : Firmware = set_port i read fw in
      let v' : IsPorts fw' =
        set-IsPorts i read (record { rx_valid = taken; tx_valid = p_ok.tx_valid }) in
      let s = queue_data Channel.uart_data i (some r.0) (length r.0) fw' in
      if-cases IsPorts (length r.0 == 0) _ _ (λ _. v')
        (λ _.
          sent-IsPorts i s _
            (same-IsPorts fw' v' s.1
              (queue_data-uart Channel.uart_data i (some r.0) (length r.0) fw'))
            (record { rx_valid = taken; tx_valid = p_ok.tx_valid }))

  process_port-IsPorts : (i : ℕ) → IsPorts (process_port i fw)
  unfolding process_port
  process_port-IsPorts i =
      if-cases IsPorts (is_open (port_at i fw).state) _ _ (λ _. forward_rx-IsPorts i) (λ _. v)

  pub irq_rx_byte-IsPorts : (i x : ℕ) → IsPorts (irq_rx_byte i x fw)
  unfolding irq_rx_byte
  irq_rx_byte-IsPorts i x = elim (get_port-cases i fw) [
    | inl far ↦ rw (irq_rx_byte, far) v
    | inr near ↦
        (let p : UartPort = port_at i fw in
          let w : IsPort (receive_byte x p).1 = receive_byte-IsPort p (port_at-IsPort fw v i) x in
          rw (irq_rx_byte, near)
            (if-cases IsPorts (not (is_open p.state)) _ _ (λ _. v)
              (λ _.
                if-cases IsPorts (receive_byte x p).0 _ _ (λ _. woken-IsPorts i _ w)
                  (λ _. set-IsPorts i _ w))))
  ]

  pub irq_tx_next_byte-IsPorts : (i : ℕ) → IsPorts (irq_tx_next_byte i fw).1
  unfolding irq_tx_next_byte
  irq_tx_next_byte-IsPorts i = elim (get_port-cases i fw) [
    | inl far ↦ rw (irq_tx_next_byte, far) v
    | inr near ↦
        (let p : UartPort = port_at i fw in
          rw (irq_tx_next_byte, near)
            (if-cases (λ (r : Option ℕ × Firmware). IsPorts r.1) (not (is_open p.state)) _ _
              (λ _. v) (λ _. set-IsPorts i _ (next_tx_byte-IsPort p (port_at-IsPort fw v i)))))
  ]

process_from-IsPorts : (left i : ℕ) (fw : Firmware) → IsPorts fw → IsPorts (process_from left i fw)
unfolding process_from
process_from-IsPorts zero i fw v = v
process_from-IsPorts (suc left) i fw v =
    process_from-IsPorts left (i + 1) (process_port i fw) (process_port-IsPorts fw v i)

pub process-IsPorts : (fw : Firmware) → IsPorts fw → IsPorts (process fw)
unfolding process
process-IsPorts fw v = process_from-IsPorts uart_port_count 0 fw v

receive_half-IsPorts :
    (i : ℕ) (rx : Option ℕ) (fw : Firmware) → IsPorts fw → IsPorts (receive_half i rx fw)
receive_half-IsPorts i none fw v = v
receive_half-IsPorts i (some x) fw v = irq_rx_byte-IsPorts fw v i x

transmit_half-IsPorts : (i hw : ℕ) (fw : Firmware) → IsPorts fw → IsPorts (transmit_half i hw fw)
unfolding transmit_half emit
transmit_half-IsPorts i hw fw v = after (irq_tx_next_byte i fw) (irq_tx_next_byte-IsPorts fw v i)
  where
    after :
        (r : Option ℕ × Firmware)
        → IsPorts r.1
        → IsPorts (elim r.0 as (λ _. Firmware) [
          | some b ↦ emit (usart_send hw b) r.1
          | none ↦ emit (usart_it hw txe false) r.1
        ])
    after (some b, fw') w = w
    after (none, fw') w = w

pub common_irq-IsPorts :
    (usart : ℕ) (rx : Option ℕ) (tx_empty : Bool) (fw : Firmware)
    → IsPorts fw
    → IsPorts (common_irq usart rx tx_empty fw)
unfolding common_irq
common_irq-IsPorts usart rx tx_empty fw v = for (find_logic_port_by_phy usart)
  where
    on :
        (i : ℕ) (o : Option ℕ)
        → IsPorts (elim o as (λ _. Firmware) [
          | none ↦ fw
          | some hw ↦
              (let fw' : Firmware = receive_half i rx fw in
                if tx_empty then transmit_half i hw fw' else fw')
        ])
    on i none = v
    on i (some hw) =
        if-cases IsPorts tx_empty _ _
          (λ _. transmit_half-IsPorts i hw _ (receive_half-IsPorts i rx fw v))
          (λ _. receive_half-IsPorts i rx fw v)

    for :
        (o : Option ℕ)
        → IsPorts (elim o as (λ _. Firmware) [
          | none ↦ fw
          | some i ↦ (elim (get_hw_desc i) as (λ _. Firmware) [
            | none ↦ fw
            | some hw ↦
                (let fw' : Firmware = receive_half i rx fw in
                  if tx_empty then transmit_half i hw fw' else fw')
          ])
        ])
    for none = v
    for (some i) = on i (get_hw_desc i)
