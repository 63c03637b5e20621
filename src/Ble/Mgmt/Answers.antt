-- ===== src/Ble/Mgmt/Answers.antt =====
-- Every management request gets one response.
use ch32v20x_usb_mux_uart_bl.Prelude.{ℕ, ◌≡◌, refl, none, some, List, arith, get_or, Ptr}
use ch32v20x_usb_mux_uart_bl.Proto.{Hdr}
use ch32v20x_usb_mux_uart_bl.Hal.{Call}
use ch32v20x_usb_mux_uart_bl.Firmware.{Firmware}
use ch32v20x_usb_mux_uart_bl.Usb.Sched.Replies.{
  Quiet, Quiet-tx, RspAfter, RspAfter-Quiet, queue_rsp-RspCall,
}
use ch32v20x_usb_mux_uart_bl.Ble.AttCache
use ch32v20x_usb_mux_uart_bl.Ble.Link
use ch32v20x_usb_mux_uart_bl.Ble.Link.{get_ctx}
use ch32v20x_usb_mux_uart_bl.Ble.Link.Quiet.{start-Quiet, write_cmd-Quiet}
use ch32v20x_usb_mux_uart_bl.Ble.Mgmt.Cases.{Works, handle_mgmt_case}
use ch32v20x_usb_mux_uart_bl.Ble.Mgmt.{
  set_scan_param, scan_start, scan_stop, connect_slot, connect, for_handle, scan_param_request,
  handle_mgmt,
}

scan_param_request-tx :
    (ret : List Call → ℕ) (p : Ptr) (n : ℕ) (fw : Firmware)
    → (scan_param_request ret p n fw).1.tx ≡ fw.tx
unfolding set_scan_param
scan_param_request-tx ret none n fw = refl
scan_param_request-tx ret (some bytes) n fw = ground arith

module _ (ret : List Call → ℕ) (fw : Firmware) where
  scans-tx : ((scan_start ret fw).1.tx ≡ fw.tx) × ((scan_stop ret fw).1.tx ≡ fw.tx)
  unfolding scan_start scan_stop
  scans-tx = (ground arith, ground arith)

  for_handle-Quiet : (c : ℕ → Call) (slot : ℕ) → Quiet fw (for_handle ret c slot fw).1
  unfolding for_handle
  for_handle-Quiet c slot = Quiet-tx fw _ refl

  connect_slot-tx : (slot : ℕ) (bs : List ℕ) → (connect_slot ret slot bs fw).1.tx ≡ fw.tx
  unfolding connect_slot Link.reset AttCache.reset_slot
  connect_slot-tx slot bs = ground arith

  connect-tx : (p : Ptr) (n : ℕ) → (connect ret p n fw).1.tx ≡ fw.tx
  unfolding connect
  connect-tx none n = refl
  connect-tx (some bs) n = ground (arith, connect_slot-tx (get_or bs 0 0) bs)

  Works-Quiet : (p : Ptr) (n : ℕ) → Works ret p n (Quiet fw) fw
  Works-Quiet p n = record {
    still = Quiet-tx fw fw refl;
    starts = λ s slot. start-Quiet ret fw slot s;
    write_cmds = λ slot h buf len. write_cmd-Quiet ret fw slot h buf len;
    calls = for_handle-Quiet;
    params = Quiet-tx fw _ (scan_param_request-tx ret p n fw);
    scan_starts = Quiet-tx fw _ scans-tx.0;
    scan_stops = Quiet-tx fw _ scans-tx.1;
    connects = Quiet-tx fw _ (connect-tx p n);
  }

-- `BleHostMgr_HandleMgmt` answers every request with one response, on all of its branches and
-- whatever the BLE library returns.
pub handle_mgmt-RspAfter :
    (ret : List Call → ℕ) (hdr : Hdr) (p : Ptr) (n : ℕ) (fw : Firmware)
    → RspAfter hdr fw (handle_mgmt ret hdr p n fw)
handle_mgmt-RspAfter ret hdr p n fw =
    handle_mgmt_case hdr fw (Quiet fw) (RspAfter hdr fw)
      (λ s p' n' fw' fits nonull q.
        RspAfter-Quiet hdr fw fw' _ q (queue_rsp-RspCall hdr s p' n' fw' fits nonull))
      ret p n (Works-Quiet ret fw p n)
