-- ===== src/App/Sound/Link.antt =====
-- The requests to the BLE links, and the management requests, of ble_link_fsm.c and
-- ble_host_manager.c.
use ch32v20x_usb_mux_uart_bl.Prelude.{
  ℕ, Bool, true, false, none, some, not, ◌==◌, ◌||◌, ltb, get_or, if-cases, arith, List, Ptr, leb,
}
use ch32v20x_usb_mux_uart_bl.Proto.{Hdr, Status}
use ch32v20x_usb_mux_uart_bl.Proto.BleOp
use ch32v20x_usb_mux_uart_bl.Hal.{Call, WriteReq, gatt_write_no_rsp, gatt_bm_free}
use ch32v20x_usb_mux_uart_bl.Firmware.{Firmware, emit}
use ch32v20x_usb_mux_uart_bl.Ble.Types.{LinkCtx, Proc}
use ch32v20x_usb_mux_uart_bl.Ble.Report.{report_write_result}
use ch32v20x_usb_mux_uart_bl.Ble.Status.{success, max_links, att_write_req, map_ble_status}
use ch32v20x_usb_mux_uart_bl.Ble.AttCache
use ch32v20x_usb_mux_uart_bl.Ble.Link.Require.{require-cases}
use ch32v20x_usb_mux_uart_bl.Ble.Link.Outcome.{
  Start, discovers_services, discovers_chars, discovers_descs, reads, subscribes, unsubscribes,
  exchanges_mtu, writes, start,
}
use ch32v20x_usb_mux_uart_bl.Ble.Link.{
  require, submit, submit_write, alloc_write_req, send_write_cmd, start_discover_services,
  start_discover_chars, start_discover_descs, read, write_req, write_cmd, subscribe, unsubscribe,
  exchange_mtu, link_at, reset, invoke,
}
use ch32v20x_usb_mux_uart_bl.Ble.Mgmt.{
  for_handle, scan_param_request, set_scan_param, scan_start, scan_stop, connect, connect_slot,
  handle_mgmt,
}
use ch32v20x_usb_mux_uart_bl.Ble.Mgmt.Cases.{handle_mgmt_case}
use ch32v20x_usb_mux_uart_bl.Ble.Host.{update_state, is_idle, slot_at}
use ch32v20x_usb_mux_uart_bl.App.Sound.{IsSound, elsewhere, queue_rsp-IsSound}
use ch32v20x_usb_mux_uart_bl.App.Sound.Report.{report_write_result-IsSound}

require-IsSound :
    (slot : ℕ) (valid : Bool) (go : LinkCtx → Firmware → Status × Firmware) (fw : Firmware)
    → IsSound fw
    → ((ctx : LinkCtx) → IsSound (go ctx fw).1)
    → IsSound (require slot valid go fw).1
require-IsSound slot valid go fw v h =
    require-cases (λ r. IsSound r.1) slot valid go fw (λ s _. v) (λ _ _ _. h (link_at slot fw))

pub reset-IsSound : (slot : ℕ) (fw : Firmware) → IsSound fw → IsSound (reset slot fw)
unfolding reset
reset-IsSound slot fw v = elsewhere fw (reset slot fw) (ground arith) (ground arith) v

module _ (ret : List Call → ℕ) (fw : Firmware) (v : IsSound fw) where
  submit-IsSound :
      (slot : ℕ) (ctx : LinkCtx) (c : Call) (frees : Bool) (begin : LinkCtx → LinkCtx)
      → IsSound (submit ret slot ctx c frees begin fw).1
  unfolding submit
  submit-IsSound slot ctx c frees begin =
      elsewhere fw (submit ret slot ctx c frees begin fw).1 (ground arith) (ground arith) v

  submit_write-IsSound :
      (slot : ℕ) (ctx : LinkCtx) (c : WriteReq → Call) (proc : Proc) (attr : ℕ) (buf : Ptr)
      (len : ℕ)
      → IsSound (submit_write ret slot ctx c proc attr buf len fw).1
  unfolding submit_write submit alloc_write_req
  submit_write-IsSound slot ctx c proc attr buf len =
      elsewhere fw (submit_write ret slot ctx c proc attr buf len fw).1 (ground arith)
        (ground arith) v

  by_submit :
      (slot : ℕ) (valid : Bool) (c : LinkCtx → Firmware → Call) (frees : Bool)
      (begin : LinkCtx → LinkCtx)
      → IsSound
          (require slot valid (λ ctx fw'. submit ret slot ctx (c ctx fw') frees begin fw') fw).1
  by_submit slot valid c frees begin =
      require-IsSound slot valid _ fw v (λ ctx. submit-IsSound slot ctx (c ctx fw) frees begin)

  by_write :
      (slot : ℕ) (valid : Bool) (c : LinkCtx → Firmware → WriteReq → Call) (proc : Proc) (attr : ℕ)
      (buf : Ptr) (len : ℕ)
      → IsSound
          (require slot valid
            (λ ctx fw'. submit_write ret slot ctx (c ctx fw') proc attr buf len fw')
            fw).1
  by_write slot valid c proc attr buf len =
      require-IsSound slot valid _ fw v
        (λ ctx. submit_write-IsSound slot ctx (c ctx fw) proc attr buf len)

  start-IsSound : (s : Start) (slot : ℕ) → IsSound (start ret s slot fw).1
  unfolding start_discover_services start_discover_chars start_discover_descs read exchange_mtu
      write_req subscribe unsubscribe
  start-IsSound discovers_services slot = by_submit slot true _ false _
  start-IsSound (discovers_chars a b) slot = by_submit slot _ _ false _
  start-IsSound (discovers_descs a b) slot = by_submit slot _ _ false _
  start-IsSound (reads h) slot = by_submit slot _ _ false _
  start-IsSound (exchanges_mtu mtu) slot = by_submit slot _ _ false _
  start-IsSound (writes h buf len) slot = by_write slot _ _ _ h buf len
  start-IsSound (subscribes h) slot = by_write slot _ _ _ h _ 2
  start-IsSound (unsubscribes h) slot = by_write slot _ _ _ h _ 2

  alloc_write_req-IsSound :
      (conn opcode attr : ℕ) (buf : Ptr) (len : ℕ) (cmd : Bool)
      → IsSound (alloc_write_req ret conn opcode attr buf len cmd fw).2
  unfolding alloc_write_req
  alloc_write_req-IsSound conn opcode attr buf len cmd =
      elsewhere fw (alloc_write_req ret conn opcode attr buf len cmd fw).2 (ground arith)
        (ground arith) v

  send_write_cmd-IsSound :
      (slot attr : ℕ) (buf : Ptr) (len : ℕ) (ctx : LinkCtx)
      → IsSound (send_write_cmd ret slot attr buf len ctx fw).1
  unfolding send_write_cmd invoke emit
  send_write_cmd-IsSound slot attr buf len ctx =
      let a = alloc_write_req ret ctx.conn_handle att_write_req attr buf len true fw in
      let w = alloc_write_req-IsSound ctx.conn_handle att_write_req attr buf len true in
      let r = invoke ret (gatt_write_no_rsp ctx.conn_handle a.1) a.2 in
      if-cases (λ (r : Status × Firmware). IsSound r.1) (not (a.0 == success))
        (map_ble_status a.0, a.2) _ (λ _. w)
        (λ _.
          if-cases (λ (r : Status × Firmware). IsSound r.1) (not (r.0 == success))
            (map_ble_status r.0, emit (gatt_bm_free att_write_req) r.1)
            (Status.ok, report_write_result slot attr success BleOp.write_cmd r.1) (λ _. w)
            (λ _. report_write_result-IsSound slot r.1 w attr success BleOp.write_cmd))

  write_cmd-IsSound :
      (slot handle : ℕ) (buf : Ptr) (len : ℕ) → IsSound (write_cmd ret slot handle buf len fw).1
  unfolding write_cmd
  write_cmd-IsSound slot handle buf len =
      require-IsSound slot _ _ fw v (send_write_cmd-IsSound slot handle buf len)

  for_handle-IsSound : (c : ℕ → Call) (slot : ℕ) → IsSound (for_handle ret c slot fw).1
  unfolding for_handle emit invoke
  for_handle-IsSound c slot = v

  scans-IsSound : IsSound (scan_start ret fw).1 × IsSound (scan_stop ret fw).1
  unfolding scan_start scan_stop
  scans-IsSound = (
    elsewhere fw (scan_start ret fw).1 (ground arith) (ground arith) v,
    elsewhere fw (scan_stop ret fw).1 (ground arith) (ground arith) v,
  )

  params-IsSound : (p : Ptr) (n : ℕ) → IsSound (scan_param_request ret p n fw).1
  unfolding set_scan_param
  params-IsSound none n = v
  params-IsSound (some bs) n =
      elsewhere fw (scan_param_request ret (some bs) n fw).1 (ground arith) (ground arith) v

  cleared-IsSound : (slot : ℕ) → IsSound (reset slot (AttCache.reset_slot slot fw))
  unfolding AttCache.reset_slot
  cleared-IsSound slot =
      reset-IsSound slot (AttCache.reset_slot slot fw)
        (elsewhere fw (AttCache.reset_slot slot fw) (ground arith) (ground arith) v)

  connect_slot-IsSound : (slot : ℕ) (bs : List ℕ) → IsSound (connect_slot ret slot bs fw).1
  unfolding connect_slot invoke emit update_state
  connect_slot-IsSound slot bs =
      if-cases (λ (r : Status × Firmware). IsSound r.1) (not (_ == success)) _ _
        (λ _. cleared-IsSound slot) (λ _. cleared-IsSound slot)

  connect-IsSound : (p : Ptr) (n : ℕ) → IsSound (connect ret p n fw).1
  unfolding connect
  connect-IsSound none n = v
  connect-IsSound (some bs) n =
      if-cases (λ (r : Status × Firmware). IsSound r.1) (ltb n 8) _ _ (λ _. v)
        (λ _.
          if-cases (λ (r : Status × Firmware). IsSound r.1) (leb max_links (get_or bs 0 0)) _ _
            (λ _. v)
            (λ _.
              if-cases (λ (r : Status × Firmware). IsSound r.1)
                (ltb fw.ble.mgr.pending_connect_slot max_links
                  || not (is_idle (slot_at (get_or bs 0 0) fw).state))
                _ _ (λ _. v) (λ _. connect_slot-IsSound (get_or bs 0 0) bs)))

pub handle_mgmt-IsSound :
    (ret : List Call → ℕ) (hdr : Hdr) (p : Ptr) (n : ℕ) (fw : Firmware)
    → IsSound fw
    → IsSound (handle_mgmt ret hdr p n fw)
handle_mgmt-IsSound ret hdr p n fw v =
    handle_mgmt_case hdr fw IsSound IsSound (λ s p' n' fw' _ _. queue_rsp-IsSound hdr s p' n' fw')
      ret p n
      (record {
        still = v;
        starts = start-IsSound ret fw v;
        write_cmds = write_cmd-IsSound ret fw v;
        calls = for_handle-IsSound ret fw v;
        params = params-IsSound ret fw v p n;
        scan_starts = (scans-IsSound ret fw v).0;
        scan_stops = (scans-IsSound ret fw v).1;
        connects = connect-IsSound ret fw v p n;
      })
