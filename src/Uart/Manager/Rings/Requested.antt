-- ===== src/Uart/Manager/Rings/Requested.antt =====
-- The control requests and the rings of the ports.
use ch32v20x_usb_mux_uart_bl.Prelude.{ℕ, refl, if-cases, none, not, ◌==◌, leb, Ptr, if◌then◌else◌}
use ch32v20x_usb_mux_uart_bl.Proto.{Hdr, Status}
use ch32v20x_usb_mux_uart_bl.Proto.UartOp
use ch32v20x_usb_mux_uart_bl.Firmware.{Firmware}
use ch32v20x_usb_mux_uart_bl.Usb.Sched.{queue_rsp}
use ch32v20x_usb_mux_uart_bl.RingBuffer.Invariant.{reset-IsValid}
use ch32v20x_usb_mux_uart_bl.Uart.Types.{UartPort, opened, opening, error, closed}
use ch32v20x_usb_mux_uart_bl.Uart.Port.{port_open, port_close}
use ch32v20x_usb_mux_uart_bl.Uart.Manager.{port_at, set_port, is_open, is_disabled}
use ch32v20x_usb_mux_uart_bl.Uart.Manager.Coding.{
  LineCoding, Parsed, refused, parsed, parse_line_coding,
}
use ch32v20x_usb_mux_uart_bl.Uart.Manager.Requests.{
  queue_status_rsp, reply_port_cap, reply_port_map, reply_stats, without_payload, open_port,
  can_open, is_ok, with_coding, handle_open, handle_set_line_coding, on_coding, reset_rings,
  handle_close, handle_flush_rx, handle_flush_tx, dispatch_ctrl, handle_ctrl,
}
use ch32v20x_usb_mux_uart_bl.Uart.Manager.Requests.Table.{
  port_open-uart, port_close-uart, queue_rsp-uart,
}
use ch32v20x_usb_mux_uart_bl.Uart.Manager.Rings.{
  IsPort, IsPorts, port_at-IsPort, same-IsPorts, set_port-IsPorts,
}

status-IsPorts :
    (hdr : Hdr) (s : Status) (fw : Firmware) → IsPorts fw → IsPorts (queue_status_rsp hdr s fw)
unfolding queue_status_rsp
status-IsPorts hdr s fw v =
    same-IsPorts fw v (queue_rsp hdr s none 0 fw).1 (queue_rsp-uart hdr s none 0 fw)

module _ (hdr : Hdr) (i : ℕ) (fw : Firmware) (v : IsPorts fw) where
  abbrev p : UartPort
  p = port_at i fw

  p_ok : IsPort p
  p_ok = port_at-IsPort fw v i

  answered : (s : Status) → IsPorts (queue_status_rsp hdr s fw)
  answered s = status-IsPorts hdr s fw v

  open_port-IsPorts : (c : LineCoding) → IsPorts (open_port i c fw).1
  unfolding open_port
  open_port-IsPorts c =
      let q : UartPort = record p { state = opening } in
      let fw' : Firmware = set_port i q fw in
      let q_ok : IsPort q = record { rx_valid = p_ok.rx_valid; tx_valid = p_ok.tx_valid } in
      let v' : IsPorts fw' = set_port-IsPorts fw v i q fw refl q_ok in
      let r = port_open q.logic_port c.baudrate c.data_bits c.parity c.stop_bits fw' in
      let e = port_open-uart q.logic_port c.baudrate c.data_bits c.parity c.stop_bits fw' in
      if-cases (λ (s : Status × Firmware). IsPorts s.1) (is_ok r.0) _ _
        (λ _.
          set_port-IsPorts fw' v' i (record (with_coding c q) { state = opened }) r.1 e
            (record { rx_valid = p_ok.rx_valid; tx_valid = p_ok.tx_valid }))
        (λ _.
          set_port-IsPorts fw' v' i (record q { state = error }) r.1 e
            (record { rx_valid = p_ok.rx_valid; tx_valid = p_ok.tx_valid }))

  handle_open-IsPorts : (c : LineCoding) → IsPorts (handle_open hdr i c fw)
  unfolding handle_open
  handle_open-IsPorts c =
      if-cases IsPorts (not (can_open p.state)) _ _ (λ _. answered Status.err_invalid_state)
        (λ _. status-IsPorts hdr (open_port i c fw).0 (open_port i c fw).1 (open_port-IsPorts c))

  handle_set_line_coding-IsPorts : (c : LineCoding) → IsPorts (handle_set_line_coding hdr i c fw)
  unfolding handle_set_line_coding
  handle_set_line_coding-IsPorts c =
      let r = port_open p.logic_port c.baudrate c.data_bits c.parity c.stop_bits fw in
      let e = port_open-uart p.logic_port c.baudrate c.data_bits c.parity c.stop_bits fw in
      if-cases IsPorts (not (is_open p.state)) _ _ (λ _. answered Status.err_uart_not_open)
        (λ _. status-IsPorts hdr r.0 (if is_ok r.0 then set_port i (with_coding c p) r.1 else r.1) (
          if-cases IsPorts (is_ok r.0) _ _
            (λ _.
              set_port-IsPorts fw v i (with_coding c p) r.1 e
                (record { rx_valid = p_ok.rx_valid; tx_valid = p_ok.tx_valid }))
            (λ _. same-IsPorts fw v r.1 e)))

  handle_close-IsPorts : IsPorts (handle_close hdr i fw)
  unfolding handle_close
  handle_close-IsPorts =
      let fw' : Firmware = port_close p.logic_port fw in
      let e = port_close-uart p.logic_port fw in
      let q : UartPort = port_at i fw' in
      let q_ok : IsPort q = port_at-IsPort fw' (same-IsPorts fw v fw' e) i in
      status-IsPorts hdr Status.ok (set_port i (record (reset_rings q) { state = closed }) fw') (
        set_port-IsPorts fw v i (record (reset_rings q) { state = closed }) fw' e
          (record {
            rx_valid = reset-IsValid q_ok.rx_valid;
            tx_valid = reset-IsValid q_ok.tx_valid;
          }))

  flushes-IsPorts : IsPorts (handle_flush_rx hdr i fw) × IsPorts (handle_flush_tx hdr i fw)
  unfolding handle_flush_rx handle_flush_tx
  flushes-IsPorts = (
    status-IsPorts hdr Status.ok _ (
        set_port-IsPorts fw v i _ fw refl
          (record { rx_valid = reset-IsValid p_ok.rx_valid; tx_valid = p_ok.tx_valid })),
    status-IsPorts hdr Status.ok _ (
        set_port-IsPorts fw v i _ fw refl
          (record { rx_valid = p_ok.rx_valid; tx_valid = reset-IsValid p_ok.tx_valid })),
  )

  replies-IsPorts :
      IsPorts (reply_port_cap hdr p fw)
      × IsPorts (reply_port_map hdr p fw)
      × IsPorts (reply_stats hdr p fw)
  unfolding reply_port_cap reply_port_map reply_stats
  replies-IsPorts = (
    same-IsPorts fw v (reply_port_cap hdr p fw) (queue_rsp-uart hdr Status.ok _ 12 fw),
    same-IsPorts fw v (reply_port_map hdr p fw) (queue_rsp-uart hdr Status.ok _ 12 fw),
    same-IsPorts fw v (reply_stats hdr p fw) (queue_rsp-uart hdr Status.ok _ 20 fw),
  )

  without_payload-IsPorts :
      (n : ℕ) (answer : Firmware → Firmware)
      → IsPorts (answer fw)
      → IsPorts (without_payload hdr n answer fw)
  without_payload-IsPorts n answer w =
      if-cases IsPorts (not (n == 0)) _ _ (λ _. answered Status.err_invalid_param) (λ _. w)

  on_coding-IsPorts :
      (c : Parsed) (answer : LineCoding → Firmware → Firmware)
      → ((l : LineCoding) → IsPorts (answer l fw))
      → IsPorts (on_coding hdr c answer fw)
  on_coding-IsPorts (refused s) answer w = answered s
  on_coding-IsPorts (parsed l) answer w = w l

  dispatch_ctrl-IsPorts : (b : Ptr) (n : ℕ) → IsPorts (dispatch_ctrl hdr i b n fw)
  unfolding dispatch_ctrl
  dispatch_ctrl-IsPorts b n =
      let r = replies-IsPorts in
      let c : Parsed = parse_line_coding b n in
      if-cases IsPorts (hdr.opcode == UartOp.get_port_cap) _ _
        (λ _. without_payload-IsPorts n (reply_port_cap hdr p) r.0)
        (λ _.
          if-cases IsPorts (hdr.opcode == UartOp.get_port_map) _ _
            (λ _. without_payload-IsPorts n (reply_port_map hdr p) r.1)
            (λ _.
              if-cases IsPorts (hdr.opcode == UartOp.open_port) _ _
                (λ _. on_coding-IsPorts c (handle_open hdr i) handle_open-IsPorts)
                (λ _.
                  if-cases IsPorts (hdr.opcode == UartOp.close_port) _ _ (λ _. handle_close-IsPorts)
                    (λ _.
                      if-cases IsPorts (hdr.opcode == UartOp.set_line_coding) _ _
                        (λ _.
                          on_coding-IsPorts c (handle_set_line_coding hdr i)
                            handle_set_line_coding-IsPorts)
                        (λ _.
                          if-cases IsPorts (hdr.opcode == UartOp.get_stats) _ _
                            (λ _. without_payload-IsPorts n (reply_stats hdr p) r.2)
                            (λ _.
                              if-cases IsPorts (hdr.opcode == UartOp.flush_rx) _ _
                                (λ _. flushes-IsPorts.0)
                                (λ _.
                                  if-cases IsPorts (hdr.opcode == UartOp.flush_tx) _ _
                                    (λ _. flushes-IsPorts.1)
                                    (λ _. answered Status.err_unsupported_opcode))))))))

pub handle_ctrl-IsPorts :
    (hdr : Hdr) (b : Ptr) (n : ℕ) (fw : Firmware) → IsPorts fw → IsPorts (handle_ctrl hdr b n fw)
unfolding handle_ctrl
handle_ctrl-IsPorts hdr b n fw v =
    if-cases IsPorts (leb 4 hdr.ch_id) _ _ (λ _. status-IsPorts hdr Status.err_invalid_param fw v)
      (λ _.
        if-cases IsPorts (is_disabled (port_at hdr.ch_id fw).state) _ _
          (λ _. status-IsPorts hdr Status.err_uart_map_invalid fw v)
          (λ _. dispatch_ctrl-IsPorts hdr hdr.ch_id fw v b n))
