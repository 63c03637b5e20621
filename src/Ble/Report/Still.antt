-- ===== src/Ble/Report/Still.antt =====
-- A report to the host changes no BLE state.
use ch32v20x_usb_mux_uart_bl.Prelude.{ℕ, ◌≡◌, arith, Ptr}
use ch32v20x_usb_mux_uart_bl.Firmware.{Firmware, kick_usb_tx}
use ch32v20x_usb_mux_uart_bl.Proto.{Hdr, Status}
use ch32v20x_usb_mux_uart_bl.Usb.Tx.{Lane}
use ch32v20x_usb_mux_uart_bl.Usb.Sched
use ch32v20x_usb_mux_uart_bl.Ble.Report.{
  report_service_found, report_char_found, report_desc_found, report_read_result,
  report_write_result, report_value_event,
}

queue_frame-ble :
    (l : Lane) (bit ch slot msg opcode ref : ℕ) (s : Status) (p : Ptr) (n : ℕ) (fw : Firmware)
    → (Sched.queue_frame l bit ch slot msg opcode ref s p n fw).1.ble ≡ fw.ble
unfolding Sched.queue_frame kick_usb_tx
queue_frame-ble l bit ch slot msg opcode ref s p n fw = ground arith

pub queue_evt-ble :
    (ch slot opcode : ℕ) (p : Ptr) (n : ℕ) (fw : Firmware)
    → (Sched.queue_evt ch slot opcode p n fw).1.ble ≡ fw.ble
unfolding Sched.queue_evt
queue_evt-ble ch slot opcode p n fw = queue_frame-ble _ _ ch slot _ opcode 0 _ p n fw

pub queue_rsp-ble :
    (hdr : Hdr) (s : Status) (p : Ptr) (n : ℕ) (fw : Firmware)
    → (Sched.queue_rsp hdr s p n fw).1.ble ≡ fw.ble
unfolding Sched.queue_rsp
queue_rsp-ble hdr s p n fw = queue_frame-ble _ _ hdr.ch_type hdr.ch_id _ hdr.opcode hdr.seq s p n fw

module _ (slot : ℕ) (fw : Firmware) where
  pub report_service_found-ble :
      (a b s : ℕ) (p : Ptr) (n : ℕ) → (report_service_found slot a b s p n fw).ble ≡ fw.ble
  unfolding report_service_found
  report_service_found-ble a b s p n = queue_evt-ble _ slot _ _ 24 fw

  pub report_char_found-ble :
      (a b s c : ℕ) (p : Ptr) (n : ℕ) → (report_char_found slot a b s c p n fw).ble ≡ fw.ble
  unfolding report_char_found
  report_char_found-ble a b s c p n = queue_evt-ble _ slot _ _ 24 fw

  pub report_desc_found-ble :
      (a s : ℕ) (p : Ptr) (n : ℕ) → (report_desc_found slot a s p n fw).ble ≡ fw.ble
  unfolding report_desc_found
  report_desc_found-ble a s p n = queue_evt-ble _ slot _ _ 22 fw

  pub report_read_result-ble :
      (a s : ℕ) (p : Ptr) (n : ℕ) → (report_read_result slot a s p n fw).ble ≡ fw.ble
  unfolding report_read_result
  report_read_result-ble a s p n = queue_evt-ble _ slot _ _ _ fw

  pub report_write_result-ble : (a s op : ℕ) → (report_write_result slot a s op fw).ble ≡ fw.ble
  unfolding report_write_result
  report_write_result-ble a s op = queue_evt-ble _ slot _ _ 6 fw

  pub report_value_event-ble :
      (op a : ℕ) (p : Ptr) (n : ℕ) → (report_value_event slot op a p n fw).ble ≡ fw.ble
  unfolding report_value_event
  report_value_event-ble op a p n = queue_evt-ble _ slot op _ _ fw
