-- ===== src/App/Sound/Report.antt =====
-- The events of ble_link_fsm.c for the host.
use ch32v20x_usb_mux_uart_bl.Prelude.{ℕ, Ptr}
use ch32v20x_usb_mux_uart_bl.Firmware.{Firmware}
use ch32v20x_usb_mux_uart_bl.Ble.Report.{
  report_service_found, report_char_found, report_desc_found, report_read_result,
  report_write_result, report_value_event,
}
use ch32v20x_usb_mux_uart_bl.App.Sound.{IsSound, queue_evt-IsSound}

module _ (slot : ℕ) (fw : Firmware) (v : IsSound fw) where
  pub report_service_found-IsSound :
      (a b s : ℕ) (p : Ptr) (n : ℕ) → IsSound (report_service_found slot a b s p n fw)
  unfolding report_service_found
  report_service_found-IsSound a b s p n = queue_evt-IsSound _ slot _ _ 24 fw v

  pub report_char_found-IsSound :
      (a b s c : ℕ) (p : Ptr) (n : ℕ) → IsSound (report_char_found slot a b s c p n fw)
  unfolding report_char_found
  report_char_found-IsSound a b s c p n = queue_evt-IsSound _ slot _ _ 24 fw v

  pub report_desc_found-IsSound :
      (a s : ℕ) (p : Ptr) (n : ℕ) → IsSound (report_desc_found slot a s p n fw)
  unfolding report_desc_found
  report_desc_found-IsSound a s p n = queue_evt-IsSound _ slot _ _ 22 fw v

  pub report_read_result-IsSound :
      (a s : ℕ) (p : Ptr) (n : ℕ) → IsSound (report_read_result slot a s p n fw)
  unfolding report_read_result
  report_read_result-IsSound a s p n = queue_evt-IsSound _ slot _ _ _ fw v

  pub report_write_result-IsSound : (a s op : ℕ) → IsSound (report_write_result slot a s op fw)
  unfolding report_write_result
  report_write_result-IsSound a s op = queue_evt-IsSound _ slot _ _ 6 fw v

  pub report_value_event-IsSound :
      (op a : ℕ) (p : Ptr) (n : ℕ) → IsSound (report_value_event slot op a p n fw)
  unfolding report_value_event
  report_value_event-IsSound op a p n = queue_evt-IsSound _ slot op _ _ fw v
