-- ===== src/Ble/Mgmt.antt =====
-- The requests of the host to App/usb_mux_dev/ble/ble_host_manager.c: `BleHostMgr_HandleMgmt`. The
-- header is not null.
pub mod Cases
pub mod Answers
pub mod Invariant
use ch32v20x_usb_mux_uart_bl.Prelude.{
  ℕ, ◌-◌, Bool, true, false, none, some, List, [], ◌∷◌, ◌++◌, not, ltb, leb, ◌==◌, ◌||◌,
  if◌then◌else◌, get_or, drop, read_bytes, bytes_of, u16, Ptr,
}
use ch32v20x_usb_mux_uart_bl.Proto.{Hdr, Status}
use ch32v20x_usb_mux_uart_bl.Proto.BleOp
use ch32v20x_usb_mux_uart_bl.Proto.Codec.{lo, hi, read_le16}
use ch32v20x_usb_mux_uart_bl.Hal.{
  Call, gap_set_param_value, gap_role_central_start_discovery, gap_role_central_cancel_discovery,
  gap_role_central_establish_link, gap_role_terminate_link, gap_role_read_rssi,
  gap_role_update_link,
}
use ch32v20x_usb_mux_uart_bl.Firmware.{Firmware, emit}
use ch32v20x_usb_mux_uart_bl.Usb.Sched.{queue_rsp}
use ch32v20x_usb_mux_uart_bl.Ble.Types.{Slot, slot_idle, slot_connecting, slot_state_code, HostMgr}
use ch32v20x_usb_mux_uart_bl.Ble.Status.{
  max_links, success, b_addr_len, tgap_disc_scan, tgap_disc_scan_int, tgap_disc_scan_wind,
  map_ble_status,
}
use ch32v20x_usb_mux_uart_bl.Ble.AttCache
use ch32v20x_usb_mux_uart_bl.Ble.Link
use ch32v20x_usb_mux_uart_bl.Ble.Link.{invoke}
use ch32v20x_usb_mux_uart_bl.Ble.Host.{
  set_mgr, slot_at, set_slot, is_connected, is_idle, update_state, conn_payload,
}

-- `BleHostMgr_QueueStatusRsp`
unfoldable pub queue_status_rsp : Hdr → Status → Firmware → Firmware
queue_status_rsp hdr status fw = (queue_rsp hdr status none 0 fw).1

-- `BleHostMgr_ReplyCap`
unfoldable pub reply_cap : Hdr → Firmware → Firmware
reply_cap hdr fw =
    let m : HostMgr = fw.ble.mgr in
    (queue_rsp hdr Status.ok
      (some (
        max_links
        ∷ 1
        ∷ 1
        ∷ 1
        ∷ lo m.scan_interval
        ∷ hi m.scan_interval
        ∷ lo m.scan_window
        ∷ hi m.scan_window
        ∷ []))
      8 fw).1

-- `BleHostMgr_ReplyConnState`
unfoldable pub reply_conn_state : Hdr → ℕ → Firmware → Firmware
reply_conn_state hdr slot fw =
    let s : Slot = slot_at slot fw in
    (queue_rsp hdr Status.ok
      (some (conn_payload slot s.conn_handle (slot_state_code s.state) 0 s.addr s.addr_type fw)) 14
      fw).1

-- A status other than VP_STATUS_OK, or the slot that goes through `slot`.
pub data Checked : Type 0 where
  refused : Status → Checked
  accepted : ℕ → Checked

-- `BleHostMgr_ValidateSlotPayload`
unfoldable pub validate_slot_payload : Ptr → ℕ → Checked
validate_slot_payload none payload_len = refused Status.err_invalid_param
validate_slot_payload (some payload) payload_len =
    if ltb payload_len 1
    then refused Status.err_invalid_param
    else (if leb max_links (get_or payload 0 0)
        then refused Status.err_ble_slot_invalid
        else accepted (get_or payload 0 0))

-- `BleHostMgr_ValidateConnectedSlot`
unfoldable pub validate_connected_slot : Ptr → ℕ → Firmware → Checked
unfolding validate_slot_payload
validate_connected_slot payload payload_len fw = elim (validate_slot_payload payload payload_len) [
  | refused status ↦ refused status
  | accepted slot ↦
      (if not (is_connected (slot_at slot fw).state)
        then refused Status.err_ble_not_connected
        else accepted slot)
]

-- A request whose work ends with a status: the status is the response.
unfoldable pub answer : Hdr → (Firmware → Status × Firmware) → Firmware → Firmware
answer hdr work fw = let (status, fw') = work fw in queue_status_rsp hdr status fw'

-- A request for a connected slot.
unfoldable pub on_connected :
    Hdr → Ptr → ℕ → (ℕ → Firmware → Status × Firmware) → Firmware → Firmware
on_connected hdr payload payload_len work fw =
    elim (validate_connected_slot payload payload_len fw) [
      | refused status ↦ queue_status_rsp hdr status fw
      | accepted slot ↦ answer hdr (work slot) fw
    ]

-- The test of the length of the payload that follows.
abbrev pub with_len : ℕ → ℕ → (ℕ → Firmware → Status × Firmware) → ℕ → Firmware → Status × Firmware
with_len payload_len least work slot fw =
    if leb least payload_len then work slot fw else (Status.err_invalid_param, fw)

-- VP_BLE_SET_SCAN_PARAM behind the test of the payload.
unfoldable pub set_scan_param : List ℕ → ℕ → Firmware → Status × Firmware
unfolding emit
set_scan_param payload payload_len fw =
    let m : HostMgr = record (fw.ble.mgr) {
      scan_interval = read_le16 payload 0;
      scan_window = read_le16 payload 2;
      scan_duration = read_le16 payload 4;
      scan_mode = get_or payload 6 0;
      scan_active = get_or payload 7 0;
      scan_white_list = if leb 9 payload_len then get_or payload 8 0 else 0;
    } in
    (
      Status.ok,
      emit (gap_set_param_value tgap_disc_scan m.scan_duration) (
          emit (gap_set_param_value tgap_disc_scan_wind m.scan_window)
            (emit (gap_set_param_value tgap_disc_scan_int m.scan_interval) (set_mgr m fw))),
    )

module _ (ret : List Call → ℕ) where
  -- VP_BLE_SCAN_START
  unfoldable pub scan_start : Firmware → Status × Firmware
  unfolding invoke update_state
  scan_start fw =
      let m : HostMgr = fw.ble.mgr in
      if m.active_scan
      then (Status.err_busy, fw)
      else (let (status, fw') =
            invoke ret
              (gap_role_central_start_discovery m.scan_mode m.scan_active m.scan_white_list) fw in
          if not (status == success) then (Status.err_busy, fw') else (
            Status.ok,
            update_state (set_mgr (record (fw'.ble.mgr) { active_scan = true }) fw'),
          ))

  -- VP_BLE_SCAN_STOP
  unfoldable pub scan_stop : Firmware → Status × Firmware
  unfolding invoke update_state
  scan_stop fw =
      let (status, fw') = invoke ret gap_role_central_cancel_discovery fw in
      if not (status == success)
      then (Status.err_invalid_state, fw')
      else (Status.ok, update_state (set_mgr (record (fw'.ble.mgr) { active_scan = false }) fw'))

  -- VP_BLE_CONNECT behind the tests: the slot waits for the link before the library is asked for it.
  unfoldable pub connect_slot : ℕ → List ℕ → Firmware → Status × Firmware
  unfolding invoke update_state
  connect_slot slot payload fw =
      let cleared = Link.reset slot (AttCache.reset_slot slot fw) in
      let pending = set_mgr (record (cleared.ble.mgr) { pending_connect_slot = slot }) cleared in
      let s : Slot = record (slot_at slot pending) {
        state = slot_connecting;
        addr_type = get_or payload 1 0;
        addr = read_bytes payload 2 b_addr_len;
      } in
      let (status, fw') =
        invoke ret (gap_role_central_establish_link (get_or payload 1 0) s.addr)
          (set_slot slot s pending) in
      if not (status == success)
      then (let free = set_mgr (record (fw'.ble.mgr) { pending_connect_slot = 0xff }) fw' in
          (Status.err_busy, set_slot slot (record (slot_at slot free) { state = slot_idle }) free))
      else (Status.ok, update_state fw')

  -- VP_BLE_CONNECT
  unfoldable pub connect : Ptr → ℕ → Firmware → Status × Firmware
  unfolding connect_slot
  connect none payload_len fw = (Status.err_invalid_param, fw)
  connect (some payload) payload_len fw =
      let slot : ℕ = get_or payload 0 0 in
      if ltb payload_len 8
      then (Status.err_invalid_param, fw)
      else (if leb max_links slot
          then (Status.err_ble_slot_invalid, fw)
          else (if ltb fw.ble.mgr.pending_connect_slot max_links
                || not (is_idle (slot_at slot fw).state)
              then (Status.err_busy, fw)
              else connect_slot slot payload fw))

  -- A request that ends with the status of one call for the connection of the slot.
  unfoldable pub for_handle : (ℕ → Call) → ℕ → Firmware → Status × Firmware
  unfolding invoke
  for_handle c slot fw =
      let (status, fw') = invoke ret (c (slot_at slot fw).conn_handle) fw in
      (map_ble_status status, fw')

  -- The requests of `BleHostMgr_HandleMgmt` to a link.
  unfoldable pub handle_link : Hdr → Ptr → ℕ → Firmware → Firmware
  handle_link hdr payload len =
      let bytes = bytes_of payload in
      let at_slot = on_connected hdr payload len in
      let handle : ℕ = read_le16 bytes 1 in
      let second : ℕ = read_le16 bytes 3 in
      if hdr.opcode == BleOp.discover_services
      then at_slot (Link.start_discover_services ret)
      else (if hdr.opcode == BleOp.discover_characteristics
          then at_slot (with_len len 5 (λ slot. Link.start_discover_chars ret slot handle second))
          else (if hdr.opcode == BleOp.discover_descriptors
              then at_slot
                  (with_len len 5 (λ slot. Link.start_discover_descs ret slot handle second))
              else (if hdr.opcode == BleOp.read
                  then at_slot (with_len len 3 (λ slot. Link.read ret slot handle))
                  else (if hdr.opcode == BleOp.write_req
                      then (at_slot (
                          with_len len 3 (λ slot.
                            Link.write_req ret slot handle (some (drop 3 bytes)) (u16 (len - 3)))))
                      else (if hdr.opcode == BleOp.write_cmd
                          then (at_slot (
                              with_len len 3 (λ slot.
                                Link.write_cmd ret slot handle (some (drop 3 bytes))
                                  (u16 (len - 3)))))
                          else (if hdr.opcode == BleOp.subscribe
                              then at_slot (with_len len 3 (λ slot. Link.subscribe ret slot handle))
                              else (if hdr.opcode == BleOp.unsubscribe
                                  then at_slot
                                      (with_len len 3 (λ slot. Link.unsubscribe ret slot handle))
                                  else (if hdr.opcode == BleOp.exchange_mtu
                                      then at_slot (
                                          with_len len 3
                                            (λ slot. Link.exchange_mtu ret slot handle))
                                      else (if hdr.opcode == BleOp.read_rssi
                                          then at_slot (for_handle gap_role_read_rssi)
                                          else (if hdr.opcode == BleOp.update_conn_param
                                              then (at_slot (
                                                  with_len len 9 (
                                                    for_handle (λ h.
                                                      gap_role_update_link h handle second
                                                        (read_le16 bytes 5) (read_le16 bytes 7)))))
                                              else queue_status_rsp hdr
                                                  Status.err_unsupported_opcode))))))))))

  -- VP_BLE_SET_SCAN_PARAM
  abbrev pub scan_param_request : Ptr → ℕ → Firmware → Status × Firmware
  scan_param_request none len fw = (Status.err_invalid_param, fw)
  scan_param_request (some payload) len fw =
      if ltb len 8 then (Status.err_invalid_param, fw) else set_scan_param payload len fw

  -- VP_BLE_GET_CONN_STATE
  unfoldable pub get_conn_state : Hdr → Ptr → ℕ → Firmware → Firmware
  get_conn_state hdr payload len fw = elim (validate_slot_payload payload len) [
    | refused status ↦ queue_status_rsp hdr status fw
    | accepted slot ↦ reply_conn_state hdr slot fw
  ]

  -- `BleHostMgr_HandleMgmt`
  unfoldable pub handle_mgmt : Hdr → Ptr → ℕ → Firmware → Firmware
  unfolding reply_cap answer set_scan_param scan_start scan_stop connect on_connected get_conn_state
      handle_link for_handle
  handle_mgmt hdr payload len =
      if hdr.opcode == BleOp.get_cap
      then reply_cap hdr
      else (if hdr.opcode == BleOp.set_scan_param
          then answer hdr (scan_param_request payload len)
          else (if hdr.opcode == BleOp.scan_start
              then answer hdr scan_start
              else (if hdr.opcode == BleOp.scan_stop
                  then answer hdr scan_stop
                  else (if hdr.opcode == BleOp.connect
                      then answer hdr (connect payload len)
                      else (if hdr.opcode == BleOp.disconnect
                          then on_connected hdr payload len (for_handle gap_role_terminate_link)
                          else (if hdr.opcode == BleOp.get_conn_state
                              then get_conn_state hdr payload len
                              else handle_link hdr payload len))))))
