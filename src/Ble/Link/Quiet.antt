-- ===== src/Ble/Link/Quiet.antt =====
-- A request to a link queues no response and no data; only `write_cmd` queues an event.
use ch32v20x_usb_mux_uart_bl.Prelude.{
  ℕ, ◌≡◌, refl, sym, ap, subst, ◌∙◌, not, ◌==◌, if-cases, Bool, true, false, List, arith, Ptr,
}
use ch32v20x_usb_mux_uart_bl.Proto.{Status}
use ch32v20x_usb_mux_uart_bl.Proto.Msg
use ch32v20x_usb_mux_uart_bl.Proto.Codec.{encode_header}
use ch32v20x_usb_mux_uart_bl.Hal.{Call, WriteReq, gatt_write_no_rsp, gatt_bm_free}
use ch32v20x_usb_mux_uart_bl.Firmware.{Firmware, emit}
use ch32v20x_usb_mux_uart_bl.Usb.Tx.{TxCtx, Lane, evt}
use ch32v20x_usb_mux_uart_bl.Usb.Tx
use ch32v20x_usb_mux_uart_bl.Usb.Sched
use ch32v20x_usb_mux_uart_bl.Usb.Sched.{queue_evt}
use ch32v20x_usb_mux_uart_bl.Usb.Sched.Replies.{Quiet, Quiet-tx, Quiet-trans, sched_queue_frame-tx}
use ch32v20x_usb_mux_uart_bl.Usb.Tx.Invariant.{IsTx, queue_frame-IsTx}
use ch32v20x_usb_mux_uart_bl.Proto.BleOp
use ch32v20x_usb_mux_uart_bl.Ble.Status.{success, att_write_req, map_ble_status}
use ch32v20x_usb_mux_uart_bl.Ble.Types.{LinkCtx, Proc}
use ch32v20x_usb_mux_uart_bl.Ble.Report.{report_write_result}
use ch32v20x_usb_mux_uart_bl.Ble.Link.Require.{require-cases}
use ch32v20x_usb_mux_uart_bl.Ble.Link.Outcome.{
  Start, discovers_services, discovers_chars, discovers_descs, reads, subscribes, unsubscribes,
  exchanges_mtu, writes, start,
}
use ch32v20x_usb_mux_uart_bl.Ble.Link.{
  require, submit, submit_write, alloc_write_req, send_write_cmd, start_discover_services,
  start_discover_chars, start_discover_descs, read, write_req, write_cmd, subscribe, unsubscribe,
  exchange_mtu, link_at, invoke,
}

-- `USBTX_QueueFrame` on the queue of events leaves the others.
queue_frame-evt :
    (bit ch slot msg opcode ref : ℕ) (s : Status) (p : Ptr) (n : ℕ) (c : TxCtx)
    → let c' = (Tx.queue_frame evt bit ch slot msg opcode ref s p n c).1 in
      (c'.rsp_q ≡ c.rsp_q) × (c'.data_q ≡ c.data_q)
unfolding Tx.queue_frame Tx.store_frame Tx.update_pending_bitmap encode_header
queue_frame-evt bit ch slot msg opcode ref s p n c = ground arith

queue_frame-evt-Quiet :
    (bit ch slot msg opcode ref : ℕ) (s : Status) (p : Ptr) (n : ℕ) (fw : Firmware)
    → Quiet fw (Sched.queue_frame evt bit ch slot msg opcode ref s p n fw).1
queue_frame-evt-Quiet bit ch slot msg opcode ref s p n fw =
    let e = queue_frame-evt bit ch slot msg opcode ref s p n fw.tx in
    let t = sched_queue_frame-tx evt bit ch slot msg opcode ref s p n fw in
    record {
      rsp_same = ap (λ c. c.rsp_q) t ∙ e.0;
      data_same = ap (λ c. c.data_q) t ∙ e.1;
      kept =
          λ v. subst IsTx (sym t) (queue_frame-IsTx evt bit ch slot msg opcode ref s p n fw.tx v);
    }

pub queue_evt-Quiet :
    (ch slot opcode : ℕ) (p : Ptr) (n : ℕ) (fw : Firmware)
    → Quiet fw (queue_evt ch slot opcode p n fw).1
unfolding Sched.queue_evt
queue_evt-Quiet ch slot opcode p n fw =
    queue_frame-evt-Quiet 2 ch slot Msg.evt opcode 0 Status.ok p n fw

require-Quiet :
    (slot : ℕ) (valid : Bool) (go : LinkCtx → Firmware → Status × Firmware) (fw : Firmware)
    → ((ctx : LinkCtx) → Quiet fw (go ctx fw).1)
    → Quiet fw (require slot valid go fw).1
require-Quiet slot valid go fw h =
    require-cases (λ r. Quiet fw r.1) slot valid go fw (λ s _. Quiet-tx fw fw refl)
      (λ _ _ _. h (link_at slot fw))

module _ (ret : List Call → ℕ) (fw : Firmware) where
  submit-tx :
      (slot : ℕ) (ctx : LinkCtx) (c : Call) (frees : Bool) (begin : LinkCtx → LinkCtx)
      → (submit ret slot ctx c frees begin fw).1.tx ≡ fw.tx
  unfolding submit
  submit-tx slot ctx c frees begin = ground arith

  alloc_write_req-tx :
      (conn opcode attr : ℕ) (buf : Ptr) (len : ℕ) (cmd : Bool)
      → (alloc_write_req ret conn opcode attr buf len cmd fw).2.tx ≡ fw.tx
  unfolding alloc_write_req
  alloc_write_req-tx conn opcode attr buf len cmd = ground arith

  submit_write-tx :
      (slot : ℕ) (ctx : LinkCtx) (c : WriteReq → Call) (proc : Proc) (attr : ℕ) (buf : Ptr)
      (len : ℕ)
      → (submit_write ret slot ctx c proc attr buf len fw).1.tx ≡ fw.tx
  unfolding submit_write submit alloc_write_req
  submit_write-tx slot ctx c proc attr buf len = ground arith

  by_submit :
      (slot : ℕ) (valid : Bool) (c : LinkCtx → Firmware → Call) (frees : Bool)
      (begin : LinkCtx → LinkCtx)
      → Quiet fw
          (require slot valid (λ ctx fw'. submit ret slot ctx (c ctx fw') frees begin fw') fw).1
  by_submit slot valid c frees begin =
      require-Quiet slot valid _ fw
        (λ ctx. Quiet-tx fw _ (submit-tx slot ctx (c ctx fw) frees begin))

  by_write :
      (slot : ℕ) (valid : Bool) (c : LinkCtx → Firmware → WriteReq → Call) (proc : Proc) (attr : ℕ)
      (buf : Ptr) (len : ℕ)
      → Quiet fw
          (require slot valid
            (λ ctx fw'. submit_write ret slot ctx (c ctx fw') proc attr buf len fw')
            fw).1
  by_write slot valid c proc attr buf len =
      require-Quiet slot valid _ fw
        (λ ctx. Quiet-tx fw _ (submit_write-tx slot ctx (c ctx fw) proc attr buf len))

  send_write_cmd-Quiet :
      (slot attr : ℕ) (buf : Ptr) (len : ℕ) (ctx : LinkCtx)
      → Quiet fw (send_write_cmd ret slot attr buf len ctx fw).1
  unfolding send_write_cmd report_write_result invoke emit
  send_write_cmd-Quiet slot attr buf len ctx =
      let a = alloc_write_req ret ctx.conn_handle att_write_req attr buf len true fw in
      let w : Quiet fw a.2 =
        Quiet-tx fw a.2 (alloc_write_req-tx ctx.conn_handle att_write_req attr buf len true) in
      let r = invoke ret (gatt_write_no_rsp ctx.conn_handle a.1) a.2 in
      let w' : Quiet fw r.1 = Quiet-trans fw a.2 r.1 w (Quiet-tx a.2 r.1 refl) in
      let freed : Firmware = emit (gatt_bm_free att_write_req) r.1 in
      if-cases (λ (r : Status × Firmware). Quiet fw r.1) (not (a.0 == success))
        (map_ble_status a.0, a.2) _ (λ _. w)
        λ _.
          if-cases (λ (r : Status × Firmware). Quiet fw r.1) (not (r.0 == success))
            (map_ble_status r.0, freed)
            (Status.ok, report_write_result slot attr success BleOp.write_cmd r.1)
            (λ _. Quiet-trans fw r.1 freed w' (Quiet-tx r.1 freed refl))
            (λ _. Quiet-trans fw r.1 _ w' (queue_evt-Quiet _ slot _ _ 6 r.1))

  -- The requests that begin a procedure leave the transmit queues as they are.
  pub start-Quiet : (slot : ℕ) (s : Start) → Quiet fw (start ret s slot fw).1
  unfolding start_discover_services start_discover_chars start_discover_descs read exchange_mtu
      write_req subscribe unsubscribe
  start-Quiet slot discovers_services = by_submit slot true _ false _
  start-Quiet slot (discovers_chars a b) = by_submit slot _ _ false _
  start-Quiet slot (discovers_descs a b) = by_submit slot _ _ false _
  start-Quiet slot (reads h) = by_submit slot _ _ false _
  start-Quiet slot (exchanges_mtu mtu) = by_submit slot _ _ false _
  start-Quiet slot (writes h buf len) = by_write slot _ _ _ h buf len
  start-Quiet slot (subscribes h) = by_write slot _ _ _ h _ 2
  start-Quiet slot (unsubscribes h) = by_write slot _ _ _ h _ 2

  pub write_cmd-Quiet :
      (slot handle : ℕ) (buf : Ptr) (len : ℕ) → Quiet fw (write_cmd ret slot handle buf len fw).1
  unfolding write_cmd
  write_cmd-Quiet slot handle buf len =
      require-Quiet slot _ _ fw (send_write_cmd-Quiet slot handle buf len)
