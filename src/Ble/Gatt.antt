-- ===== src/Ble/Gatt.antt =====
-- App/usb_mux_dev/ble/ble_link_fsm.c: what a message of the GATT client does to a link. The message
-- and the context are not null.
pub mod Invariant
pub mod Finish
use ch32v20x_usb_mux_uart_bl.Prelude.{
  ℕ, zero, suc, ◌+◌, ◌-◌, Bool, true, false, none, some, List, [], ◌∷◌, not, ltb, leb, ◌==◌, ◌||◌,
  ◌&&◌, if◌then◌else◌, get_or, drop, u16, Ptr,
}
use ch32v20x_usb_mux_uart_bl.Proto.BleOp
use ch32v20x_usb_mux_uart_bl.Proto.Codec.{read_le16}
use ch32v20x_usb_mux_uart_bl.Hal.{
  Call, gatt_disc_all_chars, gatt_disc_all_char_descs, att_handle_value_cfm,
}
use ch32v20x_usb_mux_uart_bl.Firmware.{Firmware, emit}
use ch32v20x_usb_mux_uart_bl.Ble.Types
use ch32v20x_usb_mux_uart_bl.Ble.Types.{
  LinkState, Proc, LinkCtx, proc_none, proc_disc_service, proc_disc_char, proc_disc_desc, proc_read,
  proc_write_req, proc_subscribe, proc_unsubscribe, proc_exchange_mtu, GattMsg, AttMsg, error_rsp,
  exchange_mtu_rsp, mtu_updated, read_by_grp_type_rsp, read_by_type_rsp, find_info_rsp, read_rsp,
  write_rsp, handle_value_noti, handle_value_ind, other_method,
}
use ch32v20x_usb_mux_uart_bl.Ble.Status.{
  success, ble_timeout, ble_procedure_complete, att_exchange_mtu_req, att_find_info_req,
  att_read_by_type_req, att_read_req, att_read_by_grp_type_req, att_write_req,
}
use ch32v20x_usb_mux_uart_bl.Ble.Report.{
  report_service_found, report_char_found, report_desc_found, report_read_result,
  report_write_result, report_value_event,
}
use ch32v20x_usb_mux_uart_bl.Ble.Link.{
  link_at, set_link, get_ctx, end_proc, invoke, map_proc_to_opcode,
}

-- `BleLink_EndProc(ctx, BLE_L_READY)`
unfoldable pub finish : ℕ → LinkCtx → Firmware → Firmware
unfolding end_proc
finish slot ctx fw = set_link slot (end_proc Types.ready ctx) fw

-- The size of the UUID behind the `fixed` bytes of an entry.
abbrev pub uuid_len : ℕ → ℕ → ℕ
uuid_len pair_len fixed = if ltb fixed pair_len then u16 (pair_len - fixed) else 0

-- The last message of a procedure that the library runs.
abbrev pub is_last : ℕ → Bool
is_last status = status == ble_procedure_complete || status == ble_timeout

-- The loop of `BleLink_HandleDiscoverServices`, with the entries left and the offset of `data`.
unfoldable pub report_services : ℕ → ℕ → ℕ → List ℕ → ℕ → ℕ → Firmware → Firmware
unfolding report_service_found
report_services zero pair_len i bytes slot status fw = fw
report_services (suc left) pair_len i bytes slot status fw =
    report_services left pair_len (i + pair_len) bytes slot status (
      report_service_found slot (read_le16 bytes i) (read_le16 bytes (i + 2)) status
        (some (drop (i + 4) bytes)) (uuid_len pair_len 4) fw)

-- `BleLink_HandleDiscoverServices`
unfoldable pub handle_discover_services : ℕ → LinkCtx → ℕ → AttMsg → Firmware → Firmware
handle_discover_services slot ctx status (read_by_grp_type_rsp num_grps len bytes) fw =
    if not (num_grps == 0) && leb 4 len
    then (let fw' = report_services num_grps len 0 bytes ctx.slot_id status fw in
        if is_last status then finish slot ctx fw' else fw')
    else fw
handle_discover_services slot ctx status (error_rsp req_opcode handle err_code) fw =
    if req_opcode == att_read_by_grp_type_req
    then finish slot ctx (report_service_found ctx.slot_id 0 0 err_code none 0 fw)
    else fw
handle_discover_services slot ctx status _ fw = fw

-- The loop of `BleLink_HandleDiscoverChars`, and `last_value_handle` after it.
unfoldable pub report_chars : ℕ → ℕ → ℕ → List ℕ → ℕ → ℕ → ℕ → Firmware → ℕ × Firmware
unfolding report_char_found
report_chars zero pair_len i bytes slot status last fw = (last, fw)
report_chars (suc left) pair_len i bytes slot status last fw =
    let value_handle : ℕ = read_le16 bytes (i + 3) in
    report_chars left pair_len (i + pair_len) bytes slot status value_handle (
      report_char_found slot (read_le16 bytes i) value_handle status (get_or bytes (i + 2) 0)
        (some (drop (i + 5) bytes)) (uuid_len pair_len 5) fw)

-- The loop of `BleLink_HandleDiscoverDescs`, and `last_handle` after it.
unfoldable pub report_descs : ℕ → ℕ → ℕ → List ℕ → ℕ → ℕ → ℕ → Firmware → ℕ × Firmware
unfolding report_desc_found
report_descs zero pair_len i bytes slot status last fw = (last, fw)
report_descs (suc left) pair_len i bytes slot status last fw =
    let last' : ℕ = read_le16 bytes i in
    report_descs left pair_len (i + pair_len) bytes slot status last'
      (report_desc_found slot last' status (some (drop (i + 2) bytes)) (u16 (pair_len - 2)) fw)

-- `BleLink_HandleReadProc`
unfoldable pub handle_read_proc : ℕ → LinkCtx → ℕ → AttMsg → Firmware → Firmware
handle_read_proc slot ctx status (read_rsp value len) fw =
    finish slot ctx (report_read_result ctx.slot_id ctx.proc_handle status value len fw)
handle_read_proc slot ctx status (error_rsp req_opcode handle err_code) fw =
    if req_opcode == att_read_req
    then finish slot ctx (report_read_result ctx.slot_id handle err_code none 0 fw)
    else fw
handle_read_proc slot ctx status _ fw = fw

-- `BleLink_HandleWriteProc`
unfoldable pub handle_write_proc : ℕ → LinkCtx → ℕ → AttMsg → Firmware → Firmware
handle_write_proc slot ctx status write_rsp fw =
    finish slot ctx
      (report_write_result ctx.slot_id ctx.proc_handle status (map_proc_to_opcode ctx.proc) fw)
handle_write_proc slot ctx status (error_rsp req_opcode handle err_code) fw =
    if req_opcode == att_write_req
    then (finish slot ctx
        (report_write_result ctx.slot_id handle err_code (map_proc_to_opcode ctx.proc) fw))
    else fw
handle_write_proc slot ctx status _ fw = fw

-- `BleLink_HandleMtuProc`
unfoldable pub handle_mtu_proc : ℕ → LinkCtx → AttMsg → Firmware → Firmware
handle_mtu_proc slot ctx (exchange_mtu_rsp server_rx_mtu) fw =
    finish slot (record ctx { mtu = server_rx_mtu }) fw
handle_mtu_proc slot ctx (error_rsp req_opcode handle err_code) fw =
    if req_opcode == att_exchange_mtu_req then finish slot ctx fw else fw
handle_mtu_proc slot ctx _ fw = fw

module _ (ret : List Call → ℕ) where
  -- What follows the entries of a range: the library is asked for those behind the last one, with the
  -- call `more`, or the procedure ends.
  unfoldable pub next_range : ℕ → LinkCtx → ℕ → (ℕ → ℕ → ℕ → ℕ → Call) → ℕ × Firmware → Firmware
  next_range slot ctx status more (last, fw) =
      if (status == success) && (not (last == 0) && ltb last ctx.range_end)
      then (let (ble_status, fw') =
            invoke ret (more ctx.conn_handle (u16 (last + 1)) ctx.range_end fw.ble.link_task_id)
              fw in
          if not (ble_status == success) then finish slot ctx fw' else fw')
      else (if is_last status || leb ctx.range_end last then finish slot ctx fw else fw)

  -- `BleLink_HandleDiscoverChars`
  unfoldable pub handle_discover_chars : ℕ → LinkCtx → ℕ → AttMsg → Firmware → Firmware
  handle_discover_chars slot ctx status (read_by_type_rsp num_pairs len bytes) fw =
      if not (num_pairs == 0) && leb 5 len
      then (next_range slot ctx status gatt_disc_all_chars
          (report_chars num_pairs len 0 bytes ctx.slot_id status 0 fw))
      else fw
  handle_discover_chars slot ctx status (error_rsp req_opcode handle err_code) fw =
      if req_opcode == att_read_by_type_req
      then finish slot ctx (report_char_found ctx.slot_id 0 0 err_code 0 none 0 fw)
      else fw
  handle_discover_chars slot ctx status _ fw = fw

  -- `BleLink_HandleDiscoverDescs`
  unfoldable pub handle_discover_descs : ℕ → LinkCtx → ℕ → AttMsg → Firmware → Firmware
  handle_discover_descs slot ctx status (find_info_rsp num_info format info) fw =
      if not (num_info == 0)
      then (if format == 1
          then (next_range slot ctx status gatt_disc_all_char_descs
              (report_descs num_info 4 0 info ctx.slot_id status 0 fw))
          else (if format == 2
              then (next_range slot ctx status gatt_disc_all_char_descs
                  (report_descs num_info 18 0 info ctx.slot_id status 0 fw))
              else finish slot ctx fw))
      else fw
  handle_discover_descs slot ctx status (error_rsp req_opcode handle err_code) fw =
      if req_opcode == att_find_info_req
      then finish slot ctx (report_desc_found ctx.slot_id 0 err_code none 0 fw)
      else fw
  handle_discover_descs slot ctx status _ fw = fw

  -- The `switch` of `BleLink_HandleGattMsg`
  unfoldable pub handle_proc : Proc → ℕ → LinkCtx → ℕ → AttMsg → Firmware → Firmware
  handle_proc proc_disc_service slot ctx status m = handle_discover_services slot ctx status m
  handle_proc proc_disc_char slot ctx status m = handle_discover_chars slot ctx status m
  handle_proc proc_disc_desc slot ctx status m = handle_discover_descs slot ctx status m
  handle_proc proc_read slot ctx status m = handle_read_proc slot ctx status m
  handle_proc proc_write_req slot ctx status m = handle_write_proc slot ctx status m
  handle_proc proc_subscribe slot ctx status m = handle_write_proc slot ctx status m
  handle_proc proc_unsubscribe slot ctx status m = handle_write_proc slot ctx status m
  handle_proc proc_exchange_mtu slot ctx status m = handle_mtu_proc slot ctx m
  handle_proc proc_none slot ctx status m = λ fw. fw

  -- The part of `BleLink_HandleGattMsg` behind the test of the context.
  unfoldable pub handle_msg : ℕ → LinkCtx → GattMsg → AttMsg → Firmware → Firmware
  unfolding handle_proc report_value_event emit
  handle_msg slot ctx g (mtu_updated mtu) fw = set_link slot (record ctx { mtu = mtu }) fw
  handle_msg slot ctx g (handle_value_noti handle value len) fw =
      report_value_event slot BleOp.evt_notify_data handle value len fw
  handle_msg slot ctx g (handle_value_ind handle value len) fw =
      emit (att_handle_value_cfm g.conn_handle)
        (report_value_event slot BleOp.evt_indicate_data handle value len fw)
  handle_msg slot ctx g m fw =
      if not ctx.proc_busy then fw else handle_proc ctx.proc slot ctx g.status m fw

  -- `BleLink_HandleGattMsg`
  unfoldable pub handle_gatt_msg : ℕ → GattMsg → Firmware → Firmware
  unfolding get_ctx handle_msg
  handle_gatt_msg slot g fw = elim (get_ctx slot fw) [
    | none ↦ fw
    | some ctx ↦ handle_msg slot ctx g g.msg fw
  ]
