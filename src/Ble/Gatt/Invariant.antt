-- ===== src/Ble/Gatt/Invariant.antt =====
-- What a message of the GATT client does to the BLE state: at most the context of its link changes,
-- and it keeps its invariant.
use ch32v20x_usb_mux_uart_bl.Prelude.{
  ℕ, zero, suc, ◌+◌, ◌-◌, ◌<◌, ◌≡◌, ◌≢◌, inl, inr, refl, sym, ap, ◌∙◌, subst, Bool, true, false,
  not, ltb, leb, ◌==◌, ◌&&◌, ◌||◌, ◌∷◌, if◌then◌else◌, if-cases, Bool-cases, List, length, get_or,
  drop, none, some, arith, u16,
}
use ch32v20x_usb_mux_uart_bl.Proto.Codec.{read_le16}
use ch32v20x_usb_mux_uart_bl.Hal.{Call, gatt_disc_all_chars, gatt_disc_all_char_descs}
use ch32v20x_usb_mux_uart_bl.Firmware.{Firmware, emit}
use ch32v20x_usb_mux_uart_bl.Ble.Types
use ch32v20x_usb_mux_uart_bl.Ble.Types.{
  LinkCtx, Ble, Proc, proc_none, proc_disc_service, proc_disc_char, proc_disc_desc, proc_read,
  proc_write_req, proc_subscribe, proc_unsubscribe, proc_exchange_mtu, GattMsg, AttMsg, error_rsp,
  exchange_mtu_rsp, mtu_updated, read_by_grp_type_rsp, read_by_type_rsp, find_info_rsp, read_rsp,
  write_rsp, handle_value_noti, handle_value_ind, other_method,
}
use ch32v20x_usb_mux_uart_bl.Ble.Status.{
  success, att_exchange_mtu_req, att_find_info_req, att_read_by_type_req, att_read_req,
  att_read_by_grp_type_req, att_write_req,
}
use ch32v20x_usb_mux_uart_bl.Ble.Report.Still.{
  report_service_found-ble, report_char_found-ble, report_desc_found-ble, report_read_result-ble,
  report_write_result-ble, report_value_event-ble,
}
use ch32v20x_usb_mux_uart_bl.Ble.Report.{report_read_result, report_write_result}
use ch32v20x_usb_mux_uart_bl.Ble.Link.Invariant.{
  IsPhase, resting, waiting, at_ready, IsLink, LinksKept, LinksKept-same, with_link-LinksKept,
  map_op_to_state-idle,
}
use ch32v20x_usb_mux_uart_bl.Ble.Link.{link_at, get_ctx, end_proc, invoke, map_proc_to_opcode}
use ch32v20x_usb_mux_uart_bl.Ble.Link.Outcome.{with_link}
use ch32v20x_usb_mux_uart_bl.Ble.Gatt.{
  finish, is_last, uuid_len, report_services, report_chars, report_descs, handle_discover_services,
  handle_read_proc, handle_write_proc, handle_mtu_proc, next_range, handle_discover_chars,
  handle_discover_descs, handle_proc, handle_msg, handle_gatt_msg,
}

-- A message to a link that waits for a procedure: it goes on waiting, or it is done, perhaps with
-- another MTU.
pub data Progress (slot : ℕ) (l : LinkCtx) (b b' : Ble) : Type 0 where
  goes_on : b' ≡ b → Progress slot l b b'
  ends :
      (mtu : ℕ)
      → b' ≡ with_link slot (end_proc Types.ready (record l { mtu = mtu })) b
      → Progress slot l b b'

pub report_services-ble :
    (left len i : ℕ) (bs : List ℕ) (slot status : ℕ) (fw : Firmware)
    → (report_services left len i bs slot status fw).ble ≡ fw.ble
unfolding report_services
report_services-ble zero len i bs slot status fw = refl
report_services-ble (suc left) len i bs slot status fw =
    report_services-ble left len (i + len) bs slot status _
    ∙ report_service_found-ble slot fw (read_le16 bs i) (read_le16 bs (i + 2)) status
        (some (drop (i + 4) bs)) (uuid_len len 4)

pub report_chars-ble :
    (left len i : ℕ) (bs : List ℕ) (slot status last : ℕ) (fw : Firmware)
    → (report_chars left len i bs slot status last fw).1.ble ≡ fw.ble
unfolding report_chars
report_chars-ble zero len i bs slot status last fw = refl
report_chars-ble (suc left) len i bs slot status last fw =
    report_chars-ble left len (i + len) bs slot status (read_le16 bs (i + 3)) _
    ∙ report_char_found-ble slot fw (read_le16 bs i) (read_le16 bs (i + 3)) status
        (get_or bs (i + 2) 0) (some (drop (i + 5) bs)) (uuid_len len 5)

pub report_descs-ble :
    (left len i : ℕ) (bs : List ℕ) (slot status last : ℕ) (fw : Firmware)
    → (report_descs left len i bs slot status last fw).1.ble ≡ fw.ble
unfolding report_descs
report_descs-ble zero len i bs slot status last fw = refl
report_descs-ble (suc left) len i bs slot status last fw =
    report_descs-ble left len (i + len) bs slot status (read_le16 bs i) _
    ∙ report_desc_found-ble slot fw (read_le16 bs i) status (some (drop (i + 2) bs)) (u16 (len - 2))

module _ (slot : ℕ) (l : LinkCtx) (fw : Firmware) where
  ends_after : (fw' : Firmware) → fw'.ble ≡ fw.ble → Progress slot l fw.ble (finish slot l fw').ble
  unfolding finish
  ends_after fw' same = ends l.mtu (ap (with_link slot (end_proc Types.ready l)) same)

  ends_if :
      (b : Bool) (fw' fw'' : Firmware)
      → fw'.ble ≡ fw.ble
      → fw''.ble ≡ fw.ble
      → Progress slot l fw.ble (if b then finish slot l fw' else fw'').ble
  ends_if true fw' fw'' same same' = ends_after fw' same
  ends_if false fw' fw'' same same' = goes_on same'

  services :
      (status : ℕ) (m : AttMsg)
      → Progress slot l fw.ble (handle_discover_services slot l status m fw).ble
  unfolding handle_discover_services
  services status (read_by_grp_type_rsp n len bs) =
      let fw' = report_services n len 0 bs l.slot_id status fw in
      let same = report_services-ble n len 0 bs l.slot_id status fw in
      if-cases (λ (f : Firmware). Progress slot l fw.ble f.ble) (not (n == 0) && leb 4 len) _ _
        (λ _. ends_if (is_last status) fw' fw' same same) (λ _. goes_on refl)
  services status (error_rsp op h code) =
      ends_if (op == att_read_by_grp_type_req) _ fw
        (report_service_found-ble l.slot_id fw 0 0 code none 0) refl
  services status _ = goes_on refl

  read_proc :
      (status : ℕ) (m : AttMsg) → Progress slot l fw.ble (handle_read_proc slot l status m fw).ble
  unfolding handle_read_proc
  read_proc status (read_rsp value len) =
      ends_after (report_read_result l.slot_id l.proc_handle status value len fw)
        (report_read_result-ble l.slot_id fw l.proc_handle status value len)
  read_proc status (error_rsp op h code) =
      ends_if (op == att_read_req) _ fw (report_read_result-ble l.slot_id fw h code none 0) refl
  read_proc status _ = goes_on refl

  write_proc :
      (status : ℕ) (m : AttMsg) → Progress slot l fw.ble (handle_write_proc slot l status m fw).ble
  unfolding handle_write_proc
  write_proc status write_rsp =
      ends_after (report_write_result l.slot_id l.proc_handle status (map_proc_to_opcode l.proc) fw)
        (report_write_result-ble l.slot_id fw l.proc_handle status (map_proc_to_opcode l.proc))
  write_proc status (error_rsp op h code) =
      ends_if (op == att_write_req) _ fw
        (report_write_result-ble l.slot_id fw h code (map_proc_to_opcode l.proc)) refl
  write_proc status _ = goes_on refl

  mtu_proc : (m : AttMsg) → Progress slot l fw.ble (handle_mtu_proc slot l m fw).ble
  unfolding handle_mtu_proc finish
  mtu_proc (exchange_mtu_rsp mtu) = ends mtu refl
  mtu_proc (error_rsp op h code) = ends_if (op == att_exchange_mtu_req) fw fw refl refl
  mtu_proc _ = goes_on refl

  module _ (ret : List Call → ℕ) where
    range :
        (status : ℕ) (more : ℕ → ℕ → ℕ → ℕ → Call) (last : ℕ) (fw' : Firmware)
        → fw'.ble ≡ fw.ble
        → Progress slot l fw.ble (next_range ret slot l status more (last, fw')).ble
    unfolding next_range invoke emit
    range status more last fw' same =
        if-cases (λ (f : Firmware). Progress slot l fw.ble f.ble)
          ((status == success) && (not (last == 0) && ltb last l.range_end)) _ _
          (λ _.
            ends_if
              (not (
                ret
                  (more l.conn_handle (u16 (last + 1)) l.range_end fw'.ble.link_task_id ∷ fw'.calls)
                == success))
              _ _ same same)
          (λ _. ends_if (is_last status || leb l.range_end last) fw' fw' same same)

    chars :
        (status : ℕ) (m : AttMsg)
        → Progress slot l fw.ble (handle_discover_chars ret slot l status m fw).ble
    unfolding handle_discover_chars
    chars status (read_by_type_rsp n len bs) =
        if-cases (λ (f : Firmware). Progress slot l fw.ble f.ble) (not (n == 0) && leb 5 len) _ _
          (λ _.
            range status gatt_disc_all_chars _ _
              (report_chars-ble n len 0 bs l.slot_id status 0 fw))
          (λ _. goes_on refl)
    chars status (error_rsp op h code) =
        ends_if (op == att_read_by_type_req) _ fw
          (report_char_found-ble l.slot_id fw 0 0 code 0 none 0) refl
    chars status _ = goes_on refl

    descs_sized :
        (status n len : ℕ) (bs : List ℕ)
        → Progress slot l fw.ble
            (next_range ret slot l status gatt_disc_all_char_descs
              (report_descs n len 0 bs l.slot_id status 0 fw)).ble
    descs_sized status n len bs =
        range status gatt_disc_all_char_descs _ _
          (report_descs-ble n len 0 bs l.slot_id status 0 fw)

    descs :
        (status : ℕ) (m : AttMsg)
        → Progress slot l fw.ble (handle_discover_descs ret slot l status m fw).ble
    unfolding handle_discover_descs
    descs status (find_info_rsp n format bs) =
        if-cases (λ (f : Firmware). Progress slot l fw.ble f.ble) (not (n == 0)) _ _
          (λ _.
            if-cases (λ (f : Firmware). Progress slot l fw.ble f.ble) (format == 1) _ _
              (λ _. descs_sized status n 4 bs)
              λ _.
                if-cases (λ (f : Firmware). Progress slot l fw.ble f.ble) (format == 2) _ _
                  (λ _. descs_sized status n 18 bs) (λ _. ends_after fw refl))
          (λ _. goes_on refl)
    descs status (error_rsp op h code) =
        ends_if (op == att_find_info_req) _ fw (report_desc_found-ble l.slot_id fw 0 code none 0)
          refl
    descs status _ = goes_on refl

    handle_proc-Progress :
        (p : Proc) (status : ℕ) (m : AttMsg)
        → Progress slot l fw.ble (handle_proc ret p slot l status m fw).ble
    unfolding handle_proc
    handle_proc-Progress proc_disc_service status m = services status m
    handle_proc-Progress proc_disc_char status m = chars status m
    handle_proc-Progress proc_disc_desc status m = descs status m
    handle_proc-Progress proc_read status m = read_proc status m
    handle_proc-Progress proc_write_req status m = write_proc status m
    handle_proc-Progress proc_subscribe status m = write_proc status m
    handle_proc-Progress proc_unsubscribe status m = write_proc status m
    handle_proc-Progress proc_exchange_mtu status m = mtu_proc m
    handle_proc-Progress proc_none status m = goes_on refl

with_mtu-IsPhase : (l : LinkCtx) (mtu : ℕ) → IsPhase l → IsPhase (record l { mtu = mtu })
with_mtu-IsPhase l mtu (resting a b c) = resting a b c
with_mtu-IsPhase l mtu (waiting a b c) = waiting a b c

with_mtu-IsLink :
    (slot : ℕ) (l : LinkCtx) (mtu : ℕ) → IsLink slot l → IsLink slot (record l { mtu = mtu })
with_mtu-IsLink slot l mtu k = record {
  own = k.own;
  phase = with_mtu-IsPhase l mtu k.phase;
  idle_down = k.idle_down;
  down_idle = k.down_idle;
}

busy-not_idle : (l : LinkCtx) → IsPhase l → l.proc_busy ≡ true → l.state ≢ Types.idle
busy-not_idle l (resting a b c) busy e = cc
busy-not_idle l (waiting a b c) busy e = map_op_to_state-idle l.proc (sym c ∙ e)

-- A link that has ended its procedure is ready.
pub ended-IsLink :
    (slot : ℕ) (l : LinkCtx) (mtu : ℕ)
    → l.proc_busy ≡ true
    → IsLink slot l
    → IsLink slot (end_proc Types.ready (record l { mtu = mtu }))
unfolding end_proc
ended-IsLink slot l mtu busy k = record {
  own = k.own;
  phase = resting refl refl at_ready;
  idle_down = λ e. cc;
  down_idle = λ e. absurd (busy-not_idle l k.phase busy (k.down_idle e));
}

module _ (ret : List Call → ℕ) (slot : ℕ) (fw : Firmware) (small : slot < length fw.ble.links) where
  Progress-LinksKept :
      (b : Ble)
      → (link_at slot fw).proc_busy ≡ true
      → Progress slot (link_at slot fw) fw.ble b
      → LinksKept fw.ble b
  unfolding end_proc
  Progress-LinksKept b busy (goes_on same) = LinksKept-same fw.ble b same
  Progress-LinksKept b busy (ends mtu same) = subst (LinksKept fw.ble) (sym same) (
      with_link-LinksKept fw.ble slot
        (end_proc Types.ready (record (link_at slot fw) { mtu = mtu })) small refl
        (ended-IsLink slot (link_at slot fw) mtu busy))

  if_busy :
      (g : GattMsg) (m : AttMsg)
      → LinksKept fw.ble
          (if not (link_at slot fw).proc_busy
            then fw
            else handle_proc ret (link_at slot fw).proc slot (link_at slot fw) g.status m fw).ble
  if_busy g m =
      if-cases (λ (f : Firmware). LinksKept fw.ble f.ble) (not (link_at slot fw).proc_busy) _ _
        (λ _. LinksKept-same fw.ble fw.ble refl)
        (λ busy.
          Progress-LinksKept _ (ground (arith, busy))
            (handle_proc-Progress slot (link_at slot fw) fw ret (link_at slot fw).proc g.status m))

  handle_msg-LinksKept :
      (g : GattMsg) (m : AttMsg)
      → LinksKept fw.ble (handle_msg ret slot (link_at slot fw) g m fw).ble
  unfolding handle_msg emit
  handle_msg-LinksKept g (mtu_updated mtu) =
      with_link-LinksKept fw.ble slot (record (link_at slot fw) { mtu = mtu }) small refl
        (with_mtu-IsLink slot (link_at slot fw) mtu)
  handle_msg-LinksKept g (handle_value_noti h value len) =
      LinksKept-same fw.ble _ (report_value_event-ble slot fw _ h value len)
  handle_msg-LinksKept g (handle_value_ind h value len) =
      LinksKept-same fw.ble _ (report_value_event-ble slot fw _ h value len)
  handle_msg-LinksKept g m = if_busy g m

-- A message of the GATT client changes no connection, and keeps the invariant of every link.
pub handle_gatt_msg-LinksKept :
    (ret : List Call → ℕ) (slot : ℕ) (g : GattMsg) (fw : Firmware)
    → length fw.ble.links ≡ 3
    → LinksKept fw.ble (handle_gatt_msg ret slot g fw).ble
unfolding handle_gatt_msg get_ctx
handle_gatt_msg-LinksKept ret slot g fw three = elim (Bool-cases (leb 3 slot)) [
  | inl out ↦ rw (handle_gatt_msg, get_ctx, out) (LinksKept-same fw.ble fw.ble refl)
  | inr inside ↦
      rw (handle_gatt_msg, get_ctx, inside)
        (handle_msg-LinksKept ret slot fw (ground (arith, three, inside)) g g.msg)
]
