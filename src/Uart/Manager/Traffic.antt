-- ===== src/Uart/Manager/Traffic.antt =====
-- The bytes that pass through an open port: what is stored, what is handed on, and what is counted as
-- dropped.
use ch32v20x_usb_mux_uart_bl.Prelude.{
  ℕ, ◌+◌, ◌-◌, ◌<◌, ◌≡◌, refl, ap, ◌∙◌, false, Option, none, some, List, ◌++◌, arith, length,
  get_or, min, get_or-set_self, ltb, leb, ◌==◌, if◌then◌else◌, u32, IsU32, Ptr, read_bytes,
}
use ch32v20x_usb_mux_uart_bl.Proto.{Status}
use ch32v20x_usb_mux_uart_bl.RingBuffer.{space}
use ch32v20x_usb_mux_uart_bl.RingBuffer.Invariant.{IsValid}
use ch32v20x_usb_mux_uart_bl.RingBuffer.Refine.{contents}
use ch32v20x_usb_mux_uart_bl.RingBuffer.Transfer.{write_lem}
use ch32v20x_usb_mux_uart_bl.Firmware.{Firmware, kick_uart}
use ch32v20x_usb_mux_uart_bl.Uart.Types.{UartPort, opened}
use ch32v20x_usb_mux_uart_bl.Uart.Port.{get_hw_desc, try_kick_tx}
use ch32v20x_usb_mux_uart_bl.Uart.Manager.{
  port_at, set_port, get_port, init_port, accept_tx, write_from_host,
}

kick_uart-uart : (fw : Firmware) → (kick_uart fw).uart ≡ fw.uart
unfolding kick_uart
kick_uart-uart fw = ground arith

hw_kick-uart :
    (i : ℕ) (fw : Firmware) (hw : Option ℕ) → get_hw_desc i ≡ hw → (try_kick_tx i fw).uart ≡ fw.uart
unfolding try_kick_tx
hw_kick-uart i fw none e = rw (try_kick_tx, e)
hw_kick-uart i fw (some hw) e = rw (try_kick_tx, e)

try_kick_tx-uart : (i : ℕ) (fw : Firmware) → (try_kick_tx i fw).uart ≡ fw.uart
try_kick_tx-uart i fw = hw_kick-uart i fw (get_hw_desc i) refl

-- A port that is open, with its place in the table.
pub record IsOpen (i : ℕ) (fw : Firmware) : Type 0 where
  pub exists : i < 4
  pub table : length fw.uart ≡ 4
  pub opened_now : (port_at i fw).state ≡ opened

module _ (i : ℕ) (fw : Firmware) (v : IsOpen i fw) where
  pub port_at-set_port : (p : UartPort) → port_at i (set_port i p fw) ≡ p
  port_at-set_port p = get_or-set_self fw.uart i p _ (omega (arith, v.exists, v.table))

  pub get_port-open : get_port i fw ≡ some (port_at i fw)
  unfolding get_port
  get_port-open = let e : leb 4 i ≡ false = ground (arith, v.exists) in rw e

  abbrev accepted : Ptr → ℕ → ℕ × UartPort
  accepted p n = accept_tx p n (port_at i fw)

  write_from_host-open :
      (p : Ptr) (n : ℕ)
      → write_from_host i p n fw ≡ (
        if (accepted p n).0 == n then Status.ok else Status.err_overflow,
        kick_uart (try_kick_tx i (set_port i (accepted p n).1 fw)),
      )
  unfolding write_from_host
  write_from_host-open p n = rw (write_from_host, get_port-open, v.opened_now)

  port_at-written : (p : Ptr) (n : ℕ) → port_at i (write_from_host i p n fw).1 ≡ (accepted p n).1
  port_at-written p n =
      let fw' : Firmware = set_port i (accepted p n).1 fw in
      ap (λ r. port_at i r.1) (write_from_host-open p n)
      ∙ ap (λ u. get_or u i (init_port 0))
          (kick_uart-uart (try_kick_tx i fw') ∙ try_kick_tx-uart i fw')
      ∙ port_at-set_port (accepted p n).1

  -- `UartMgr_WriteFromHost` on an open port, with a valid ring and a drop count that fits 32
  -- bits, stores as many bytes as the ring has room for, from the front of the payload, behind
  -- those that wait; it counts the others as dropped, and it reports an overflow exactly when
  -- there are others.
  pub write_from_host_lem :
      (bytes : List ℕ) (n : ℕ)
      → IsValid (port_at i fw).tx_rb
      → IsU32 (port_at i fw).drop_tx_bytes
      → (let p = port_at i fw in
          let (s, fw') = write_from_host i (some bytes) n fw in
          let p' = port_at i fw' in
          let k = min n (space p.tx_rb) in
          (s ≡ (if k == n then Status.ok else Status.err_overflow))
          × (contents p'.tx_rb ≡ contents p.tx_rb ++ read_bytes bytes 0 k)
          × (p'.drop_tx_bytes ≡ u32 (p.drop_tx_bytes + (n - k)))
          × IsValid p'.tx_rb)
  unfolding accept_tx
  write_from_host_lem bytes n valid narrow =
      let p : UartPort = port_at i fw in
      let w = write_lem p.tx_rb valid bytes n in
      let k : ℕ = min n (space p.tx_rb) in
      let stored = port_at-written (some bytes) n in
      let drops : (if ltb k n then u32 (p.drop_tx_bytes + (n - k)) else p.drop_tx_bytes)
          ≡ u32 (p.drop_tx_bytes + (n - k)) =
        ground (arith, narrow) in
      (
        ap (λ r. r.0) (write_from_host-open (some bytes) n) ∙ rw w.0,
        ap (λ q. contents (UartPort.tx_rb q)) stored ∙ w.1 ∙ rw w.0,
        ap UartPort.drop_tx_bytes stored ∙ rw w.0 drops,
        rw stored w.2,
      )
