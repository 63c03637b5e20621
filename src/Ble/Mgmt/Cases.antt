-- ===== src/Ble/Mgmt/Cases.antt =====
-- The shape of `BleHostMgr_HandleMgmt`: every branch ends with one response, to a state that one of
-- the operations of a request has left.
use ch32v20x_usb_mux_uart_bl.Prelude.{
  ℕ, ◌≤◌, ◌≡◌, refl, arith, ◌-◌, Bool, true, false, none, some, List, leb, ◌==◌, if◌then◌else◌,
  if-cases, drop, bytes_of, u16, Ptr,
}
use ch32v20x_usb_mux_uart_bl.Proto.{Hdr, Status}
use ch32v20x_usb_mux_uart_bl.Proto.BleOp
use ch32v20x_usb_mux_uart_bl.Proto.Codec.{read_le16}
use ch32v20x_usb_mux_uart_bl.Hal.{
  Call, gap_role_terminate_link, gap_role_read_rssi, gap_role_update_link,
}
use ch32v20x_usb_mux_uart_bl.Firmware.{Firmware}
use ch32v20x_usb_mux_uart_bl.Usb.Sched.{queue_rsp}
use ch32v20x_usb_mux_uart_bl.Ble.Link
use ch32v20x_usb_mux_uart_bl.Ble.Link.Outcome.{
  Start, discovers_services, discovers_chars, discovers_descs, reads, subscribes, unsubscribes,
  exchanges_mtu, writes, start,
}
use ch32v20x_usb_mux_uart_bl.Ble.Mgmt.{
  queue_status_rsp, reply_cap, reply_conn_state, Checked, refused, accepted, validate_slot_payload,
  validate_connected_slot, answer, on_connected, with_len, scan_start, scan_stop, connect,
  for_handle, handle_link, scan_param_request, get_conn_state, handle_mgmt,
}

-- What the operations of the requests make of a state, for a predicate `W` of the state after them.
pub record Works (ret : List Call → ℕ) (p : Ptr) (n : ℕ) (W : Firmware → Type 0) (fw : Firmware)
    : Type 0 where
  pub still : W fw
  pub starts : (s : Start) (slot : ℕ) → W (start ret s slot fw).1
  pub write_cmds : (slot h : ℕ) (buf : Ptr) (len : ℕ) → W (Link.write_cmd ret slot h buf len fw).1
  pub calls : (c : ℕ → Call) (slot : ℕ) → W (for_handle ret c slot fw).1
  pub params : W (scan_param_request ret p n fw).1
  pub scan_starts : W (scan_start ret fw).1
  pub scan_stops : W (scan_stop ret fw).1
  pub connects : W (connect ret p n fw).1

-- `P` holds after the response of a request if `W` holds before it.
module _ (hdr : Hdr) (fw : Firmware) (W P : Firmware → Type 0)
    (reply : (s : Status) (p : Ptr) (n : ℕ) (fw' : Firmware)
      → n ≤ 488
      → (p ≡ none → n ≡ 0)
      → W fw'
      → P (queue_rsp hdr s p n fw').1) where
  status_case : W fw → (s : Status) → P (queue_status_rsp hdr s fw)
  unfolding queue_status_rsp
  status_case w s = reply s none 0 fw (omega arith) (λ _. refl) w

  answer_case : (work : Firmware → Status × Firmware) → W (work fw).1 → P (answer hdr work fw)
  unfolding answer queue_status_rsp
  answer_case work w = reply (work fw).0 none 0 (work fw).1 (omega arith) (λ _. refl) w

  checked_case :
      (c : Checked) (work : ℕ → Firmware → Status × Firmware)
      → W fw
      → ((slot : ℕ) → W (work slot fw).1)
      → P (elim c [
        | refused status ↦ queue_status_rsp hdr status fw
        | accepted slot ↦ answer hdr (work slot) fw
      ])
  checked_case (refused status) work w q = status_case w status
  checked_case (accepted slot) work w q = answer_case (work slot) (q slot)

  on_connected_case :
      (p : Ptr) (n : ℕ) (work : ℕ → Firmware → Status × Firmware)
      → W fw
      → ((slot : ℕ) → W (work slot fw).1)
      → P (on_connected hdr p n work fw)
  unfolding on_connected
  on_connected_case p n work = checked_case (validate_connected_slot p n fw) work

  sized_case :
      (p : Ptr) (n least : ℕ) (work : ℕ → Firmware → Status × Firmware)
      → W fw
      → ((slot : ℕ) → W (work slot fw).1)
      → P (on_connected hdr p n (with_len n least work) fw)
  sized_case p n least work w q =
      on_connected_case p n (with_len n least work) w
        λ slot. if-cases (λ (r : Status × Firmware). W r.1) (leb least n) _ _ (λ _. q slot) (λ _. w)

  reply_cap_case : W fw → P (reply_cap hdr fw)
  unfolding reply_cap
  reply_cap_case w = reply Status.ok _ 8 fw (omega arith) (λ e. cc) w

  conn_state_case : W fw → (slot : ℕ) → P (reply_conn_state hdr slot fw)
  unfolding reply_conn_state
  conn_state_case w slot = reply Status.ok _ 14 fw (omega arith) (λ e. cc) w

  checked_state_case :
      (c : Checked)
      → W fw
      → P (elim c [
        | refused status ↦ queue_status_rsp hdr status fw
        | accepted slot ↦ reply_conn_state hdr slot fw
      ])
  checked_state_case (refused status) w = status_case w status
  checked_state_case (accepted slot) w = conn_state_case w slot

  get_conn_state_case :
      (ret : List Call → ℕ) (p : Ptr) (n : ℕ) → W fw → P (get_conn_state ret hdr p n fw)
  unfolding get_conn_state
  get_conn_state_case ret p n = checked_state_case (validate_slot_payload p n)

  -- A choice of handler.
  choice :
      (b : Bool) (f g : Firmware → Firmware) → P (f fw) → P (g fw) → P ((if b then f else g) fw)
  choice true f g r s = r
  choice false f g r s = s

  handle_link_case :
      (ret : List Call → ℕ) (p : Ptr) (n : ℕ) → Works ret p n W fw → P (handle_link ret hdr p n fw)
  unfolding handle_link
  handle_link_case ret p n w =
      let bytes : List ℕ = bytes_of p in
      let handle : ℕ = read_le16 bytes 1 in
      let second : ℕ = read_le16 bytes 3 in
      let value : Ptr = some (drop 3 bytes) in
      let update : ℕ → Call =
        λ h. gap_role_update_link h handle second (read_le16 bytes 5) (read_le16 bytes 7) in
      let started : (least : ℕ) (s : Start)
          → P (on_connected hdr p n (with_len n least (start ret s)) fw) =
        λ least s. sized_case p n least (start ret s) w.still (w.starts s) in
      choice (hdr.opcode == BleOp.discover_services) _ _
        (on_connected_case p n (Link.start_discover_services ret) w.still
          (w.starts discovers_services))
        (choice (hdr.opcode == BleOp.discover_characteristics) _ _
          (started 5 (discovers_chars handle second))
          (choice (hdr.opcode == BleOp.discover_descriptors) _ _
            (started 5 (discovers_descs handle second))
            (choice (hdr.opcode == BleOp.read) _ _ (started 3 (reads handle)) (
              choice (hdr.opcode == BleOp.write_req) _ _
                (started 3 (writes handle value (u16 (n - 3))))
                (choice (hdr.opcode == BleOp.write_cmd) _ _
                  (sized_case p n 3 (λ slot. Link.write_cmd ret slot handle value (u16 (n - 3)))
                    w.still (λ slot. w.write_cmds slot handle value (u16 (n - 3))))
                  (choice (hdr.opcode == BleOp.subscribe) _ _ (started 3 (subscribes handle)) (
                    choice (hdr.opcode == BleOp.unsubscribe) _ _ (started 3 (unsubscribes handle)) (
                      choice (hdr.opcode == BleOp.exchange_mtu) _ _
                        (started 3 (exchanges_mtu handle))
                        (choice (hdr.opcode == BleOp.read_rssi) _ _
                          (on_connected_case p n (for_handle ret gap_role_read_rssi) w.still
                            (w.calls gap_role_read_rssi))
                          (choice (hdr.opcode == BleOp.update_conn_param) _ _
                            (sized_case p n 9 (for_handle ret update) w.still (w.calls update))
                            (status_case w.still Status.err_unsupported_opcode)))))))))))

  pub handle_mgmt_case :
      (ret : List Call → ℕ) (p : Ptr) (n : ℕ) → Works ret p n W fw → P (handle_mgmt ret hdr p n fw)
  unfolding handle_mgmt
  handle_mgmt_case ret p n w = choice (hdr.opcode == BleOp.get_cap) _ _ (reply_cap_case w.still) (
      choice (hdr.opcode == BleOp.set_scan_param) _ _
        (answer_case (scan_param_request ret p n) w.params)
        (choice (hdr.opcode == BleOp.scan_start) _ _ (answer_case (scan_start ret) w.scan_starts) (
          choice (hdr.opcode == BleOp.scan_stop) _ _ (answer_case (scan_stop ret) w.scan_stops) (
            choice (hdr.opcode == BleOp.connect) _ _ (answer_case (connect ret p n) w.connects) (
              choice (hdr.opcode == BleOp.disconnect) _ _
                (on_connected_case p n (for_handle ret gap_role_terminate_link) w.still
                  (w.calls gap_role_terminate_link))
                (choice (hdr.opcode == BleOp.get_conn_state) _ _
                  (get_conn_state_case ret p n w.still) (handle_link_case ret p n w)))))))
