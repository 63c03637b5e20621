-- ===== src/Ble/Report/Bounds.antt =====
-- The reports of values from the peer: they fit a frame, whatever the length of the value is.
use ch32v20x_usb_mux_uart_bl.Prelude.{
  ℕ, ◌+◌, ◌-◌, ◌/◌, ◌%◌, ◌≤◌, ◌<◌, ◌≡◌, refl, ap, ◌∙◌, List, [], ◌∷◌, ◌++◌, length,
  length-read_bytes, read_bytes, some, arith, ltb, lt→ltb, false, min, u16, Ptr, Rc, ok, err,
}
use ch32v20x_usb_mux_uart_bl.Fifo
use ch32v20x_usb_mux_uart_bl.Proto.{Hdr, Status}
use ch32v20x_usb_mux_uart_bl.Proto.Channel
use ch32v20x_usb_mux_uart_bl.Proto.Msg
use ch32v20x_usb_mux_uart_bl.Proto.BleOp
use ch32v20x_usb_mux_uart_bl.Firmware.{Firmware}
use ch32v20x_usb_mux_uart_bl.Usb.Tx
use ch32v20x_usb_mux_uart_bl.Usb.Tx.{TxCtx, evt}
use ch32v20x_usb_mux_uart_bl.Usb.Tx.Content.{frame_bytes}
use ch32v20x_usb_mux_uart_bl.Usb.Tx.Invariant.{IsTx, sent_header}
use ch32v20x_usb_mux_uart_bl.Usb.Tx.Refine.{waiting, length-waiting, queue_frame_refines}
use ch32v20x_usb_mux_uart_bl.Usb.Sched
use ch32v20x_usb_mux_uart_bl.Usb.Sched.{queue_evt}
use ch32v20x_usb_mux_uart_bl.Usb.Sched.Replies.{kick_usb_tx-tx}
use ch32v20x_usb_mux_uart_bl.Ble.Report.{
  copy_len, payload_size, report_read_result, report_value_event,
}

-- The header of an event of a link.
abbrev pub event_header : ℕ → ℕ → Ptr → ℕ → TxCtx → Hdr
event_header slot opcode p n c =
    sent_header evt 2 Channel.ble_conn slot Msg.evt opcode 0 Status.ok p n c

queue_frame-tx :
    (ch slot opcode : ℕ) (p : Ptr) (n : ℕ) (fw : Firmware) (r : Rc × TxCtx)
    → Tx.queue_frame evt 2 ch slot Msg.evt opcode 0 Status.ok p n fw.tx ≡ r
    → (queue_evt ch slot opcode p n fw).1.tx ≡ r.1
unfolding Sched.queue_evt
queue_frame-tx ch slot opcode p n fw (ok, c) e =
    rw (queue_evt, Sched.queue_frame, e) (kick_usb_tx-tx (record fw { tx = _ }) ∙ ap (λ r. r.1) e)
queue_frame-tx ch slot opcode p n fw (err, c) e =
    rw (queue_evt, Sched.queue_frame, e) (ap (λ r. r.1) e)

-- An event that fits a frame joins the events that wait, if there is room.
pub queue_evt-waiting :
    (slot opcode : ℕ) (bs : List ℕ) (n : ℕ) (fw : Firmware)
    → IsTx fw.tx
    → fw.tx.evt_q.count < 4
    → n ≤ 488
    → waiting evt (queue_evt Channel.ble_conn slot opcode (some bs) n fw).1.tx
      ≡ waiting evt fw.tx
        ++ (frame_bytes (event_header slot opcode (some bs) n fw.tx) (some bs) ∷ [])
unfolding Fifo.push
queue_evt-waiting slot opcode bs n fw v room fits =
    let short : ltb 488 n ≡ false = ground (arith, fits) in
    let r =
      queue_frame_refines evt 2 Channel.ble_conn slot Msg.evt opcode 0 Status.ok (some bs) n fw.tx v
        (λ e. cc) in
    ap (waiting evt) (queue_frame-tx Channel.ble_conn slot opcode (some bs) n fw _ refl)
    ∙ rw (short, length-waiting evt fw.tx, lt→ltb fw.tx.evt_q.count 4 room) at (ap (λ q. q.1) r)

-- A report whose payload has a header of `fixed` bytes and the first `n` bytes of the value.
pub record Fits (slot opcode fixed n : ℕ) (payload : List ℕ) (fw fw' : Firmware) : Type 0 where
  pub sized : length payload ≡ fixed + n
  pub fits : fixed + n ≤ 488
  pub queued :
      waiting evt fw'.tx
      ≡ waiting evt fw.tx
        ++ (frame_bytes (event_header slot opcode (some payload) (fixed + n) fw.tx) (some payload)
            ∷ [])

module _ (slot handle : ℕ) (bs : List ℕ) (len : ℕ) (fw : Firmware) (v : IsTx fw.tx)
    (room : fw.tx.evt_q.count < 4) where
  sized-Fits :
      (opcode fixed : ℕ) (payload : List ℕ) (n : ℕ)
      → length payload ≡ fixed + n
      → fixed + n ≤ 488
      → Fits slot opcode fixed n payload fw
          (queue_evt Channel.ble_conn slot opcode (some payload) (u16 (fixed + n)) fw).1
  sized-Fits opcode fixed payload n sized fits =
      let e : u16 (fixed + n) ≡ fixed + n = omega arith in
      rw e (record {
        sized = sized;
        fits = fits;
        queued = queue_evt-waiting slot opcode payload (fixed + n) fw v room fits;
      })

  -- On well-formed transmit queues with room for an event, the report of a notified or indicated
  -- value and the report of a read value are queued whatever the length of the value is: each is a
  -- header that announces the number of bytes and then the first bytes of the value, at most 484 and
  -- 482 of them, so that the payload never exceeds the 488 bytes of a frame.
  pub reports_fit :
      (opcode status : ℕ)
      → let n = min len 484 in
        let m = min len 482 in
        Fits slot opcode 4 n
          (handle % 256 ∷ handle / 256 % 256 ∷ n % 256 ∷ n / 256 % 256 ∷ read_bytes bs 0 n)
          fw
          (report_value_event slot opcode handle (some bs) len fw)
        × Fits slot BleOp.evt_read_result 6 m
            (handle % 256
              ∷ handle / 256 % 256
              ∷ status % 256
              ∷ status / 256 % 256
              ∷ m % 256
              ∷ m / 256 % 256
              ∷ read_bytes bs 0 m)
            fw
            (report_read_result slot handle status (some bs) len fw)
  unfolding report_value_event report_read_result
  reports_fit opcode status =
      let n : copy_len (payload_size - 4) len ≡ min len 484 = ground arith in
      let m : copy_len (payload_size - 6) len ≡ min len 482 = ground arith in
      (
        rw (report_value_event, n)
            (sized-Fits opcode 4 _ (min len 484)
              (omega (arith, length-read_bytes bs 0 (min len 484))) (omega arith)),
        rw (report_read_result, m)
            (sized-Fits BleOp.evt_read_result 6 _ (min len 482)
              (omega (arith, length-read_bytes bs 0 (min len 482))) (omega arith)),
      )
