-- ===== src/App/Sound/Gatt.antt =====
-- The messages of ble_link_fsm.c that carry a GATT procedure on and end it.
use ch32v20x_usb_mux_uart_bl.Prelude.{
  ℕ, zero, suc, ◌+◌, ◌-◌, Bool, none, some, not, ◌==◌, if-cases, List, ltb, leb, ◌&&◌, ◌||◌, get_or,
  drop, u16, Option, if◌then◌else◌,
}
use ch32v20x_usb_mux_uart_bl.Proto.BleOp
use ch32v20x_usb_mux_uart_bl.Proto.Codec.{read_le16}
use ch32v20x_usb_mux_uart_bl.Hal.{Call, gatt_disc_all_chars, gatt_disc_all_char_descs}
use ch32v20x_usb_mux_uart_bl.Firmware.{Firmware, emit}
use ch32v20x_usb_mux_uart_bl.Ble.Types.{
  LinkCtx, Proc, proc_none, proc_disc_service, proc_disc_char, proc_disc_desc, proc_read,
  proc_write_req, proc_subscribe, proc_unsubscribe, proc_exchange_mtu, GattMsg, AttMsg, error_rsp,
  exchange_mtu_rsp, mtu_updated, read_by_grp_type_rsp, read_by_type_rsp, find_info_rsp, read_rsp,
  write_rsp, handle_value_noti, handle_value_ind,
}
use ch32v20x_usb_mux_uart_bl.Ble.Status.{
  success, att_read_by_grp_type_req, att_read_by_type_req, att_find_info_req, att_read_req,
  att_write_req, att_exchange_mtu_req,
}
use ch32v20x_usb_mux_uart_bl.Ble.Link.{get_ctx, map_proc_to_opcode, invoke}
use ch32v20x_usb_mux_uart_bl.Ble.Gatt.{
  finish, is_last, uuid_len, report_services, report_chars, report_descs, handle_discover_services,
  handle_discover_chars, handle_discover_descs, next_range, handle_read_proc, handle_write_proc,
  handle_mtu_proc, handle_proc, handle_msg, handle_gatt_msg,
}
use ch32v20x_usb_mux_uart_bl.App.Sound.{IsSound}
use ch32v20x_usb_mux_uart_bl.App.Sound.Report.{
  report_service_found-IsSound, report_char_found-IsSound, report_desc_found-IsSound,
  report_read_result-IsSound, report_write_result-IsSound, report_value_event-IsSound,
}

finish-IsSound :
    (slot : ℕ) (ctx : LinkCtx) (fw : Firmware) → IsSound fw → IsSound (finish slot ctx fw)
unfolding finish
finish-IsSound slot ctx fw v = v

report_services-IsSound :
    (left len i : ℕ) (bs : List ℕ) (slot status : ℕ) (fw : Firmware)
    → IsSound fw
    → IsSound (report_services left len i bs slot status fw)
unfolding report_services
report_services-IsSound zero len i bs slot status fw v = v
report_services-IsSound (suc left) len i bs slot status fw v =
    report_services-IsSound left len (i + len) bs slot status _ (
      report_service_found-IsSound slot fw v (read_le16 bs i) (read_le16 bs (i + 2)) status
        (some (drop (i + 4) bs)) (uuid_len len 4))

report_chars-IsSound :
    (left len i : ℕ) (bs : List ℕ) (slot status last : ℕ) (fw : Firmware)
    → IsSound fw
    → IsSound (report_chars left len i bs slot status last fw).1
unfolding report_chars
report_chars-IsSound zero len i bs slot status last fw v = v
report_chars-IsSound (suc left) len i bs slot status last fw v =
    report_chars-IsSound left len (i + len) bs slot status (read_le16 bs (i + 3)) _ (
      report_char_found-IsSound slot fw v (read_le16 bs i) (read_le16 bs (i + 3)) status
        (get_or bs (i + 2) 0) (some (drop (i + 5) bs)) (uuid_len len 5))

report_descs-IsSound :
    (left len i : ℕ) (bs : List ℕ) (slot status last : ℕ) (fw : Firmware)
    → IsSound fw
    → IsSound (report_descs left len i bs slot status last fw).1
unfolding report_descs
report_descs-IsSound zero len i bs slot status last fw v = v
report_descs-IsSound (suc left) len i bs slot status last fw v =
    report_descs-IsSound left len (i + len) bs slot status (read_le16 bs i) _ (
      report_desc_found-IsSound slot fw v (read_le16 bs i) status (some (drop (i + 2) bs))
        (u16 (len - 2)))

module _ (slot : ℕ) (ctx : LinkCtx) (status : ℕ) (fw : Firmware) (v : IsSound fw) where
  -- The branches that end the procedure or leave the state as it is.
  either :
      (b : Bool) (fw' : Firmware) → IsSound fw' → IsSound (if b then finish slot ctx fw' else fw)
  either b fw' w = if-cases IsSound b _ _ (λ _. finish-IsSound slot ctx fw' w) (λ _. v)

  services-IsSound : (m : AttMsg) → IsSound (handle_discover_services slot ctx status m fw)
  unfolding handle_discover_services
  services-IsSound (read_by_grp_type_rsp num_grps len bytes) =
      let w = report_services-IsSound num_grps len 0 bytes ctx.slot_id status fw v in
      if-cases IsSound (not (num_grps == 0) && leb 4 len) _ _
        (λ _. if-cases IsSound (is_last status) _ _ (λ _. finish-IsSound slot ctx _ w) (λ _. w))
        (λ _. v)
  services-IsSound (error_rsp req handle err_code) =
      either (req == att_read_by_grp_type_req) _
        (report_service_found-IsSound ctx.slot_id fw v 0 0 err_code none 0)
  services-IsSound _ = v

  read_proc-IsSound : (m : AttMsg) → IsSound (handle_read_proc slot ctx status m fw)
  unfolding handle_read_proc
  read_proc-IsSound (read_rsp value len) =
      finish-IsSound slot ctx _
        (report_read_result-IsSound ctx.slot_id fw v ctx.proc_handle status value len)
  read_proc-IsSound (error_rsp req h code) =
      either (req == att_read_req) _ (report_read_result-IsSound ctx.slot_id fw v h code none 0)
  read_proc-IsSound _ = v

  write_proc-IsSound : (m : AttMsg) → IsSound (handle_write_proc slot ctx status m fw)
  unfolding handle_write_proc
  write_proc-IsSound write_rsp = finish-IsSound slot ctx _ (
      report_write_result-IsSound ctx.slot_id fw v ctx.proc_handle status
        (map_proc_to_opcode ctx.proc))
  write_proc-IsSound (error_rsp req h code) =
      either (req == att_write_req) _
        (report_write_result-IsSound ctx.slot_id fw v h code (map_proc_to_opcode ctx.proc))
  write_proc-IsSound _ = v

  mtu_proc-IsSound : (m : AttMsg) → IsSound (handle_mtu_proc slot ctx m fw)
  unfolding handle_mtu_proc
  mtu_proc-IsSound (exchange_mtu_rsp mtu) = finish-IsSound slot (record ctx { mtu = mtu }) fw v
  mtu_proc-IsSound (error_rsp req h code) = either (req == att_exchange_mtu_req) fw v
  mtu_proc-IsSound _ = v

module _ (ret : List Call → ℕ) where
  next_range-IsSound :
      (slot : ℕ) (ctx : LinkCtx) (status : ℕ) (more : ℕ → ℕ → ℕ → ℕ → Call) (r : ℕ × Firmware)
      → IsSound r.1
      → IsSound (next_range ret slot ctx status more r)
  unfolding next_range invoke emit
  next_range-IsSound slot ctx status more (last, fw) v =
      let r =
        invoke ret (more ctx.conn_handle (u16 (last + 1)) ctx.range_end fw.ble.link_task_id) fw in
      if-cases IsSound ((status == success) && (not (last == 0) && ltb last ctx.range_end)) _ _
        (λ _.
          if-cases IsSound (not (r.0 == success)) (finish slot ctx r.1) r.1
            (λ _. finish-IsSound slot ctx r.1 v) (λ _. v))
        (λ _.
          if-cases IsSound (is_last status || leb ctx.range_end last) _ _
            (λ _. finish-IsSound slot ctx fw v) (λ _. v))

  module _ (slot : ℕ) (ctx : LinkCtx) (status : ℕ) (fw : Firmware) (v : IsSound fw) where
    chars-IsSound : (m : AttMsg) → IsSound (handle_discover_chars ret slot ctx status m fw)
    unfolding handle_discover_chars
    chars-IsSound (read_by_type_rsp num_pairs len bytes) =
        if-cases IsSound (not (num_pairs == 0) && leb 5 len) _ _
          (λ _.
            next_range-IsSound slot ctx status gatt_disc_all_chars
              (report_chars num_pairs len 0 bytes ctx.slot_id status 0 fw)
              (report_chars-IsSound num_pairs len 0 bytes ctx.slot_id status 0 fw v))
          (λ _. v)
    chars-IsSound (error_rsp req h code) =
        either slot ctx status fw v (req == att_read_by_type_req) _
          (report_char_found-IsSound ctx.slot_id fw v 0 0 code 0 none 0)
    chars-IsSound _ = v

    infos-IsSound :
        (n len : ℕ) (info : List ℕ)
        → IsSound (
            next_range ret slot ctx status gatt_disc_all_char_descs
              (report_descs n len 0 info ctx.slot_id status 0 fw))
    infos-IsSound n len info =
        next_range-IsSound slot ctx status gatt_disc_all_char_descs
          (report_descs n len 0 info ctx.slot_id status 0 fw)
          (report_descs-IsSound n len 0 info ctx.slot_id status 0 fw v)

    descs-IsSound : (m : AttMsg) → IsSound (handle_discover_descs ret slot ctx status m fw)
    unfolding handle_discover_descs
    descs-IsSound (find_info_rsp n format info) =
        if-cases IsSound (not (n == 0)) _ _
          (λ _.
            if-cases IsSound (format == 1) _ _ (λ _. infos-IsSound n 4 info)
              (λ _.
                if-cases IsSound (format == 2) _ _ (λ _. infos-IsSound n 18 info)
                  (λ _. finish-IsSound slot ctx fw v)))
          (λ _. v)
    descs-IsSound (error_rsp req h code) =
        either slot ctx status fw v (req == att_find_info_req) _
          (report_desc_found-IsSound ctx.slot_id fw v 0 code none 0)
    descs-IsSound _ = v

    proc-IsSound : (p : Proc) (m : AttMsg) → IsSound (handle_proc ret p slot ctx status m fw)
    unfolding handle_proc
    proc-IsSound proc_disc_service m = services-IsSound slot ctx status fw v m
    proc-IsSound proc_disc_char m = chars-IsSound m
    proc-IsSound proc_disc_desc m = descs-IsSound m
    proc-IsSound proc_read m = read_proc-IsSound slot ctx status fw v m
    proc-IsSound proc_write_req m = write_proc-IsSound slot ctx status fw v m
    proc-IsSound proc_subscribe m = write_proc-IsSound slot ctx status fw v m
    proc-IsSound proc_unsubscribe m = write_proc-IsSound slot ctx status fw v m
    proc-IsSound proc_exchange_mtu m = mtu_proc-IsSound slot ctx status fw v m
    proc-IsSound proc_none m = v

  handle_msg-IsSound :
      (slot : ℕ) (ctx : LinkCtx) (g : GattMsg) (m : AttMsg) (fw : Firmware)
      → IsSound fw
      → IsSound (handle_msg ret slot ctx g m fw)
  unfolding handle_msg emit
  handle_msg-IsSound slot ctx g (mtu_updated mtu) fw v = v
  handle_msg-IsSound slot ctx g (handle_value_noti h value len) fw v =
      report_value_event-IsSound slot fw v BleOp.evt_notify_data h value len
  handle_msg-IsSound slot ctx g (handle_value_ind h value len) fw v =
      report_value_event-IsSound slot fw v BleOp.evt_indicate_data h value len
  handle_msg-IsSound slot ctx g m fw v =
      if-cases IsSound (not ctx.proc_busy) _ _ (λ _. v)
        (λ _. proc-IsSound slot ctx g.status fw v ctx.proc m)

  pub handle_gatt_msg-IsSound :
      (slot : ℕ) (g : GattMsg) (fw : Firmware)
      → IsSound fw
      → IsSound (handle_gatt_msg ret slot g fw)
  unfolding handle_gatt_msg
  handle_gatt_msg-IsSound slot g fw v = of (get_ctx slot fw)
    where
      of :
          (o : Option LinkCtx)
          → IsSound (elim o as (λ _. Firmware) [
            | none ↦ fw
            | some ctx ↦ handle_msg ret slot ctx g g.msg fw
          ])
      of none = v
      of (some ctx) = handle_msg-IsSound slot ctx g g.msg fw v
