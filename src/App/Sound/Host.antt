-- ===== src/App/Sound/Host.antt =====
-- The events and messages that the BLE library gives to ble_host_manager.c.
use ch32v20x_usb_mux_uart_bl.Prelude.{
  ℕ, none, some, not, ◌==◌, ◌&&◌, ltb, bit_and, if-cases, List, [], ◌∷◌, Option, arith,
}
use ch32v20x_usb_mux_uart_bl.Hal.{Call}
use ch32v20x_usb_mux_uart_bl.Firmware.{Firmware, emit}
use ch32v20x_usb_mux_uart_bl.Ble.Types
use ch32v20x_usb_mux_uart_bl.Ble.Types.{
  GapEvent, GattMsg, device_init_done, device_info, ext_adv_device_info, device_discovery,
  link_established, link_terminated, other_event,
}
use ch32v20x_usb_mux_uart_bl.Ble.Status.{success, max_links}
use ch32v20x_usb_mux_uart_bl.Ble.AttCache
use ch32v20x_usb_mux_uart_bl.Ble.Link
use ch32v20x_usb_mux_uart_bl.Ble.Gatt.{handle_gatt_msg}
use ch32v20x_usb_mux_uart_bl.Ble.Host.{
  update_state, find_slot_by_conn_handle, report_conn_state, report_scan_result, report_rssi_result,
  rssi_cb, link_down, connect_failed, connect_done, process_gatt_msg, link_up, event_cb,
  receive_msgs, process_event,
}
use ch32v20x_usb_mux_uart_bl.App.Sound.{IsSound, elsewhere, queue_evt-IsSound}
use ch32v20x_usb_mux_uart_bl.App.Sound.Link.{reset-IsSound}
use ch32v20x_usb_mux_uart_bl.App.Sound.Gatt.{handle_gatt_msg-IsSound}

module _ (fw : Firmware) (v : IsSound fw) where
  scan_result-IsSound : (r : Types.AdvReport) → IsSound (report_scan_result r fw)
  unfolding report_scan_result
  scan_result-IsSound r = queue_evt-IsSound _ 0 _ _ 16 fw v

  rssi_result-IsSound : (slot handle rssi : ℕ) → IsSound (report_rssi_result slot handle rssi fw)
  unfolding report_rssi_result
  rssi_result-IsSound slot handle rssi = queue_evt-IsSound _ slot _ _ 4 fw v

  pub rssi_cb-IsSound : (handle rssi : ℕ) → IsSound (rssi_cb handle rssi fw)
  unfolding rssi_cb
  rssi_cb-IsSound handle rssi = of (find_slot_by_conn_handle handle fw)
    where
      of :
          (o : Option ℕ)
          → IsSound (elim o as (λ _. Firmware) [
            | none ↦ fw
            | some slot ↦ report_rssi_result slot handle rssi fw
          ])
      of none = v
      of (some slot) = rssi_result-IsSound slot handle rssi

  attach-IsSound :
      (ret : List Call → ℕ) (slot handle : ℕ) → IsSound (Link.attach ret slot handle fw)
  unfolding Link.attach
  attach-IsSound ret slot handle =
      elsewhere fw (Link.attach ret slot handle fw) (ground arith) (ground arith) v

  cache-IsSound : (slot : ℕ) → IsSound (AttCache.reset_slot slot fw)
  unfolding AttCache.reset_slot
  cache-IsSound slot = elsewhere fw (AttCache.reset_slot slot fw) (ground arith) (ground arith) v

module _ (fw : Firmware) (v : IsSound fw) where
  link_down-IsSound : (slot handle reason : ℕ) → IsSound (link_down slot handle reason fw)
  unfolding link_down update_state report_conn_state
  link_down-IsSound slot handle reason =
      let w = reset-IsSound slot (AttCache.reset_slot slot fw) (cache-IsSound fw v slot) in
      queue_evt-IsSound _ slot _ _ 14 (Link.reset slot (AttCache.reset_slot slot fw)) w

  connect_failed-IsSound : (slot status : ℕ) → IsSound (connect_failed slot status fw)
  unfolding connect_failed report_conn_state
  connect_failed-IsSound slot status = queue_evt-IsSound _ slot _ _ 14 _ (reset-IsSound slot _ v)

  connect_done-IsSound : IsSound (connect_done fw)
  unfolding connect_done update_state
  connect_done-IsSound = v

module _ (ret : List Call → ℕ) (fw : Firmware) (v : IsSound fw) where
  link_up-IsSound :
      (slot status handle kind : ℕ) (addr : List ℕ)
      → IsSound (link_up ret slot status handle kind addr fw)
  unfolding link_up report_conn_state
  link_up-IsSound slot status handle kind addr =
      queue_evt-IsSound _ slot _ _ 14 _ (attach-IsSound _ v ret slot handle)

  process_gatt_msg-IsSound : (g : GattMsg) → IsSound (process_gatt_msg ret g fw)
  unfolding process_gatt_msg
  process_gatt_msg-IsSound g = of (find_slot_by_conn_handle g.conn_handle fw)
    where
      of :
          (o : Option ℕ)
          → IsSound
              (elim o as (λ _. Firmware) [ none ↦ fw | some slot ↦ handle_gatt_msg ret slot g fw ])
      of none = v
      of (some slot) = handle_gatt_msg-IsSound ret slot g fw v

  terminated-IsSound :
      (handle reason : ℕ) (o : Option ℕ)
      → IsSound
          (elim o as (λ _. Firmware) [ none ↦ fw | some slot ↦ link_down slot handle reason fw ])
  terminated-IsSound handle reason none = v
  terminated-IsSound handle reason (some slot) = link_down-IsSound fw v slot handle reason

  pub event_cb-IsSound : (e : GapEvent) → IsSound (event_cb ret e fw)
  unfolding event_cb update_state
  event_cb-IsSound device_init_done = v
  event_cb-IsSound (device_info r) = scan_result-IsSound fw v r
  event_cb-IsSound (ext_adv_device_info r) = scan_result-IsSound fw v r
  event_cb-IsSound device_discovery = v
  event_cb-IsSound (link_established status handle kind addr) =
      let slot : ℕ = fw.ble.mgr.pending_connect_slot in
      if-cases IsSound ((status == success) && ltb slot max_links) _ _
        (λ _.
          connect_done-IsSound (link_up ret slot status handle kind addr fw)
            (link_up-IsSound slot status handle kind addr))
        (λ _.
          if-cases IsSound (ltb slot max_links) _ _
            (λ _.
              connect_done-IsSound (connect_failed slot status fw)
                (connect_failed-IsSound fw v slot status))
            (λ _. connect_done-IsSound fw v))
  event_cb-IsSound (link_terminated handle reason) =
      terminated-IsSound handle reason (find_slot_by_conn_handle handle fw)
  event_cb-IsSound (other_event opcode) = v

receive_msgs-IsSound :
    (ret : List Call → ℕ) (ms : List (Option GattMsg)) (fw : Firmware)
    → IsSound fw
    → IsSound (receive_msgs ret ms fw)
unfolding receive_msgs emit
receive_msgs-IsSound ret [] fw v = v
receive_msgs-IsSound ret (none ∷ ms) fw v = receive_msgs-IsSound ret ms _ v
receive_msgs-IsSound ret (some g ∷ ms) fw v =
    receive_msgs-IsSound ret ms _ (process_gatt_msg-IsSound ret fw v g)

pub process_event-IsSound :
    (ret : List Call → ℕ) (events : ℕ) (ms : List (Option GattMsg)) (fw : Firmware)
    → IsSound fw
    → IsSound (process_event ret events ms fw).1
unfolding process_event
process_event-IsSound ret events ms fw v =
    if-cases (λ (r : ℕ × Firmware). IsSound r.1) (not (bit_and events 0x8000 == 0)) _ _
      (λ _. receive_msgs-IsSound ret ms fw v) (λ _. v)
