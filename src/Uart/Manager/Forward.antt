-- ===== src/Uart/Manager/Forward.antt =====
-- `UartMgr_Process` on an open port: the received bytes go to the host, or are counted.
use ch32v20x_usb_mux_uart_bl.Prelude.{
  ℕ, ◌+◌, ◌<◌, ◌≡◌, ◌≢◌, refl, ap, ◌∙◌, true, false, some, List, arith, length, get_or, set, take,
  drop, get_or-set_self, length-set, ◌==◌, if◌then◌else◌, u32, IsU32, Rc, ok, err, ℕ_discrete,
}
use ch32v20x_usb_mux_uart_bl.Proto.{Status}
use ch32v20x_usb_mux_uart_bl.Proto.Channel
use ch32v20x_usb_mux_uart_bl.Proto.Msg
use ch32v20x_usb_mux_uart_bl.RingBuffer
use ch32v20x_usb_mux_uart_bl.RingBuffer.{RingBuffer}
use ch32v20x_usb_mux_uart_bl.RingBuffer.Invariant.{IsValid}
use ch32v20x_usb_mux_uart_bl.RingBuffer.Refine.{contents}
use ch32v20x_usb_mux_uart_bl.RingBuffer.Transfer.{read_lem}
use ch32v20x_usb_mux_uart_bl.Firmware.{Firmware, kick_usb_tx}
use ch32v20x_usb_mux_uart_bl.Usb.Tx
use ch32v20x_usb_mux_uart_bl.Usb.Tx.{TxCtx, bulk}
use ch32v20x_usb_mux_uart_bl.Usb.Sched
use ch32v20x_usb_mux_uart_bl.Usb.Sched.{queue_data}
use ch32v20x_usb_mux_uart_bl.Usb.Sched.Replies.{kick_usb_tx-tx, kick_usb_tx-uart}
use ch32v20x_usb_mux_uart_bl.Uart.Types.{UartPort}
use ch32v20x_usb_mux_uart_bl.Uart.Manager.{port_at, set_port, init_port, forward_rx}
use ch32v20x_usb_mux_uart_bl.Uart.Manager.Traffic.{IsOpen, port_at-set_port}

-- The data frame of port `i` with the bytes `bs`, as it is queued.
abbrev pub data_frame : ℕ → List ℕ → TxCtx → Rc × TxCtx
data_frame i bs =
    Tx.queue_frame bulk 4 Channel.uart_data i Msg.data_msg 0 0 Status.ok (some bs) (length bs)

abbrev queued : Rc → TxCtx → Firmware → Firmware
queued ok c fw = kick_usb_tx (record fw { tx = c })
queued err c fw = record fw { tx = c }

queued-tx : (rc : Rc) (c : TxCtx) (fw : Firmware) → (queued rc c fw).tx ≡ c
queued-tx ok c fw = kick_usb_tx-tx (record fw { tx = c })
queued-tx err c fw = refl

queued-uart : (rc : Rc) (c : TxCtx) (fw : Firmware) → (queued rc c fw).uart ≡ fw.uart
queued-uart ok c fw = kick_usb_tx-uart (record fw { tx = c })
queued-uart err c fw = refl

queue_data-queued :
    (i : ℕ) (bs : List ℕ) (fw : Firmware) (r : Rc × TxCtx)
    → data_frame i bs fw.tx ≡ r
    → queue_data Channel.uart_data i (some bs) (length bs) fw ≡ (r.0, queued r.0 r.1 fw)
unfolding queue_data
queue_data-queued i bs fw (ok, c) e =
    rw (queue_data, Sched.queue_frame, e) (ap (λ r. (ok, kick_usb_tx (record fw { tx = r.1 }))) e)
queue_data-queued i bs fw (err, c) e =
    rw (queue_data, Sched.queue_frame, e) (ap (λ r. (err, record fw { tx = r.1 })) e)

-- What is lost of `n` bytes.
abbrev pub lost : Rc → ℕ → ℕ
lost ok n = 0
lost err n = n

-- The frame is queued only if there are bytes.
abbrev pub sent : ℕ → List ℕ → TxCtx → Rc × TxCtx
sent i bs c = if length bs == 0 then (ok, c) else data_frame i bs c

module _ (i : ℕ) (fw : Firmware) (v : IsOpen i fw) where
  abbrev bytes : List ℕ
  bytes = (RingBuffer.read (port_at i fw).rx_rb 64).0

  abbrev emptied : UartPort
  emptied = record (port_at i fw) { rx_rb = (RingBuffer.read (port_at i fw).rx_rb 64).1 }

  abbrev taken : Firmware
  taken = set_port i emptied fw

  forward_nothing : length bytes ≡ 0 → forward_rx i fw ≡ taken
  unfolding forward_rx
  forward_nothing z = let e : (length bytes == 0) ≡ true = ground arith in rw (forward_rx, e)

  abbrev after : Rc → TxCtx → Firmware
  after ok c = queued ok c taken
  after err c =
      set_port i (record emptied { drop_rx_bytes = u32 (emptied.drop_rx_bytes + length bytes) })
        (queued err c taken)

  abbrev counted : UartPort
  counted = record emptied { drop_rx_bytes = u32 (emptied.drop_rx_bytes + length bytes) }

  forward_some :
      (r : Rc × TxCtx)
      → length bytes ≢ 0
      → data_frame i bytes fw.tx ≡ r
      → forward_rx i fw ≡ after r.0 r.1
  unfolding forward_rx
  forward_some (ok, c) ne e =
      let s : (length bytes == 0) ≡ false = ground arith in
      let q = queue_data-queued i bytes taken (ok, c) e in rw (forward_rx, s, q) (ap (λ r. r.1) q)
  forward_some (err, c) ne e =
      let s : (length bytes == 0) ≡ false = ground arith in
      let q = queue_data-queued i bytes taken (err, c) e in
      rw (forward_rx, s, q) (ap (λ r. set_port i counted r.1) q)

  -- What the two ways out have in common.
  record Forwarded (rc : Rc) (c : TxCtx) (fw' : Firmware) : Type 0 where
    ring : (port_at i fw').rx_rb ≡ emptied.rx_rb
    queues : fw'.tx ≡ c
    drops :
        (port_at i fw').drop_rx_bytes ≡ u32 ((port_at i fw).drop_rx_bytes + lost rc (length bytes))

  port_at-taken : port_at i taken ≡ emptied
  port_at-taken = port_at-set_port i fw v emptied

  after-Forwarded :
      (rc : Rc) (c : TxCtx) → IsU32 (port_at i fw).drop_rx_bytes → Forwarded rc c (after rc c)
  after-Forwarded ok c narrow =
      let e : port_at i (queued ok c taken) ≡ emptied =
        ap (λ u. get_or u i (init_port 0)) (queued-uart ok c taken) ∙ port_at-taken in
      record {
        ring = ap UartPort.rx_rb e;
        queues = queued-tx ok c taken;
        drops = ap UartPort.drop_rx_bytes e ∙ omega (arith, narrow);
      }
  after-Forwarded err c narrow =
      let fits : i < length (set fw.uart i emptied) =
        omega (arith, length-set fw.uart i emptied, v.exists, v.table) in
      let e : port_at i (after err c) ≡ counted =
        get_or-set_self (set fw.uart i emptied) i counted (init_port 0) fits in
      record { ring = ap UartPort.rx_rb e; queues = refl; drops = ap UartPort.drop_rx_bytes e }

  forward-Forwarded :
      IsU32 (port_at i fw).drop_rx_bytes
      → (let (rc, c) = sent i bytes fw.tx in Forwarded rc c (forward_rx i fw))
  forward-Forwarded narrow = elim (ℕ_discrete (length bytes) 0) [
    | yes z ↦
        (let e : (length bytes == 0) ≡ true = ground arith in
          rw (e, forward_nothing z)
            record {
              ring = ap UartPort.rx_rb port_at-taken;
              queues = refl;
              drops = ap UartPort.drop_rx_bytes port_at-taken ∙ omega (arith, narrow);
            })
    | no ne ↦
        (let e : (length bytes == 0) ≡ false = ground arith in
          let r = data_frame i bytes fw.tx in
          rw (e, forward_some r ne refl) (after-Forwarded r.0 r.1 narrow))
  ]

  -- `UartMgr_Process` on an open port, with a valid ring and a drop count that fits 32 bits,
  -- takes the oldest 64 received bytes, or all if there are fewer, from the ring. They are
  -- queued as one data frame of the port; if the queue refuses the frame, they are counted as
  -- dropped; if no byte waits, no frame is queued.
  pub forward_rx_lem :
      IsValid (port_at i fw).rx_rb
      → IsU32 (port_at i fw).drop_rx_bytes
      → (let p = port_at i fw in
          let chunk = take 64 (contents p.rx_rb) in
          let (rc, c) = sent i chunk fw.tx in
          let fw' = forward_rx i fw in
          let p' = port_at i fw' in
          (contents p'.rx_rb ≡ drop 64 (contents p.rx_rb))
          × IsValid p'.rx_rb
          × (fw'.tx ≡ c)
          × (p'.drop_rx_bytes ≡ u32 (p.drop_rx_bytes + lost rc (length chunk))))
  forward_rx_lem valid narrow =
      let r = read_lem (port_at i fw).rx_rb 64 valid in
      let f = forward-Forwarded narrow in
      (ap contents f.ring ∙ r.1, rw f.ring r.2, rw r.0 at f.queues, rw r.0 at f.drops)
