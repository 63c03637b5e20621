-- ===== src/Uart/Irq.antt =====
-- `UARTPort_CommonIrq` of App/usb_mux_dev/uart/uart_port_ch32v20x.c, which the four interrupt handlers
-- call with the number of their USART.
use ch32v20x_usb_mux_uart_bl.Prelude.{
  ℕ, zero, suc, ◌<◌, ◌≡◌, refl, ap, ◌∙◌, Bool, true, false, Option, none, some, ◌∷◌, arith, get_or,
  if◌then◌else◌,
}
use ch32v20x_usb_mux_uart_bl.Fifo
use ch32v20x_usb_mux_uart_bl.RingBuffer
use ch32v20x_usb_mux_uart_bl.RingBuffer.{RingBuffer}
use ch32v20x_usb_mux_uart_bl.RingBuffer.Invariant.{IsValid}
use ch32v20x_usb_mux_uart_bl.RingBuffer.Refine.{contents, popped, pop_byte_refines}
use ch32v20x_usb_mux_uart_bl.Hal.{Call, usart_send, usart_it, txe}
use ch32v20x_usb_mux_uart_bl.Firmware.{Firmware, emit}
use ch32v20x_usb_mux_uart_bl.Uart.Types.{UartPort}
use ch32v20x_usb_mux_uart_bl.Uart.Port.{find_logic_port_by_phy, get_hw_desc}
use ch32v20x_usb_mux_uart_bl.Uart.Manager.{
  port_at, set_port, init_port, next_tx_byte, irq_rx_byte, irq_tx_next_byte,
}
use ch32v20x_usb_mux_uart_bl.Uart.Manager.Traffic.{IsOpen, get_port-open, port_at-set_port}

-- The receive half, for the byte in the data register if RXNE is set.
abbrev pub receive_half : ℕ → Option ℕ → Firmware → Firmware
receive_half port none fw = fw
receive_half port (some x) fw = irq_rx_byte port x fw

-- The transmit half, where TXE is set: the next byte is sent, or the interrupt is switched off.
unfoldable pub transmit_half : ℕ → ℕ → Firmware → Firmware
unfolding emit
transmit_half port hw fw =
    let (x, fw') = irq_tx_next_byte port fw in
    elim x [ some b ↦ emit (usart_send hw b) fw' | none ↦ emit (usart_it hw txe false) fw' ]

-- The received byte if RXNE is set, and whether TXE is set, are what the USART gives.
unfoldable pub common_irq : ℕ → Option ℕ → Bool → Firmware → Firmware
unfolding transmit_half
common_irq phy_uart_id rx tx_empty fw = elim (find_logic_port_by_phy phy_uart_id) [
  | none ↦ fw
  | some port ↦ (elim (get_hw_desc port) [
    | none ↦ fw
    | some hw ↦
        (let fw' : Firmware = receive_half port rx fw in
          if tx_empty then transmit_half port hw fw' else fw')
  ])
]

-- The map of the board: USART i + 1 serves port i, and its hardware descriptor is the i-th.
usart_of_port :
    (i : ℕ) → i < 4 → (find_logic_port_by_phy (suc i) ≡ some i) × (get_hw_desc i ≡ some i)
unfolding find_logic_port_by_phy get_hw_desc
usart_of_port zero h = (refl, refl)
usart_of_port (suc zero) h = (refl, refl)
usart_of_port (suc (suc zero)) h = (refl, refl)
usart_of_port (suc (suc (suc zero))) h = (refl, refl)
usart_of_port (suc (suc (suc (suc i)))) h = absurd (omega arith)

-- The call that a transmit interrupt ends with.
abbrev pub tx_call : ℕ → Option ℕ → Call
tx_call hw (some b) = usart_send hw b
tx_call hw none = usart_it hw txe false

module _ (i : ℕ) (fw : Firmware) (v : IsOpen i fw) where
  irq_tx_next_byte-open :
      irq_tx_next_byte i fw
      ≡ ((next_tx_byte (port_at i fw)).0, set_port i (next_tx_byte (port_at i fw)).1 fw)
  unfolding irq_tx_next_byte
  irq_tx_next_byte-open = rw (irq_tx_next_byte, get_port-open i fw v, v.opened_now)

  transmit_half_lem :
      (x : Option ℕ) (fw' : Firmware)
      → irq_tx_next_byte i fw ≡ (x, fw')
      → transmit_half i i fw ≡ emit (tx_call i x) fw'
  unfolding transmit_half
  transmit_half_lem (some b) fw' e = rw (transmit_half, e) (ap (λ r. emit (usart_send i b) r.1) e)
  transmit_half_lem none fw' e = rw (transmit_half, e) (ap (λ r. emit (usart_it i txe false) r.1) e)

  common_irq-tx : common_irq (suc i) none true fw ≡ transmit_half i i fw
  unfolding common_irq
  common_irq-tx = let u = usart_of_port i v.exists in rw (common_irq, u.0, u.1)

  next_tx_byte-pop :
      (r : Option ℕ × RingBuffer)
      → RingBuffer.pop_byte (port_at i fw).tx_rb ≡ r
      → ((next_tx_byte (port_at i fw)).0 ≡ r.0) × ((next_tx_byte (port_at i fw)).1.tx_rb ≡ r.1)
  unfolding next_tx_byte
  next_tx_byte-pop (some b, rb) e = rw (next_tx_byte, e) (refl, ap (λ r. r.1) e)
  next_tx_byte-pop (none, rb) e = rw (next_tx_byte, e) (refl, ap (λ r. r.1) e)

  emitted :
      (c : Call) (g : Firmware) → ((emit c g).calls ≡ c ∷ g.calls) × ((emit c g).uart ≡ g.uart)
  unfolding emit
  emitted c g = (refl, refl)

  -- A transmit interrupt of USART i + 1, with port i open and its ring valid, sends the oldest
  -- byte that waits in the ring, and takes just this byte out; if none waits, it switches the
  -- interrupt off.
  pub common_irq-transmit :
      IsValid (port_at i fw).tx_rb
      → (let fw' = common_irq (suc i) none true fw in
          let (x, rest) = popped (Fifo.pop (contents (port_at i fw).tx_rb)) in
          (fw'.calls ≡ tx_call i x ∷ fw.calls) × (contents (port_at i fw').tx_rb ≡ rest))
  common_irq-transmit valid =
      let p : UartPort = port_at i fw in
      let q = next_tx_byte-pop (RingBuffer.pop_byte p.tx_rb) refl in
      let r = pop_byte_refines p.tx_rb valid in
      let x : Option ℕ = (next_tx_byte p).0 in
      let g : Firmware = set_port i (next_tx_byte p).1 fw in
      let e = common_irq-tx ∙ transmit_half_lem x g irq_tx_next_byte-open in
      let m = emitted (tx_call i x) g in
      (
        ap Firmware.calls e ∙ m.0 ∙ ap (λ y. tx_call i y ∷ fw.calls) (q.0 ∙ ap (λ s. s.0) r),
        ap (λ f. contents (port_at i f).tx_rb) e
            ∙ ap (λ u. contents (get_or u i (init_port 0)).tx_rb) m.1
            ∙ ap (λ k. contents (UartPort.tx_rb k)) (port_at-set_port i fw v (next_tx_byte p).1)
            ∙ ap contents q.1
            ∙ ap (λ s. s.1) r,
      )
