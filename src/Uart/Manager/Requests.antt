-- ===== src/Uart/Manager/Requests.antt =====
-- `UartMgr_HandleCtrl`: the control requests of the host, and the replies.
pub mod Lifecycle
pub mod Table
pub mod States
use ch32v20x_usb_mux_uart_bl.Prelude.{
  ℕ, ◌+◌, ◌-◌, Bool, Option, none, some, List, [], ◌∷◌, ◌++◌, ◌||◌, ◌&&◌, not, ltb, leb, ◌==◌,
  if◌then◌else◌, Ptr,
}
use ch32v20x_usb_mux_uart_bl.Proto.{Hdr, Status}
use ch32v20x_usb_mux_uart_bl.Proto.UartOp
use ch32v20x_usb_mux_uart_bl.RingBuffer
use ch32v20x_usb_mux_uart_bl.Firmware.{Firmware}
use ch32v20x_usb_mux_uart_bl.Usb.Sched.{queue_rsp}
use ch32v20x_usb_mux_uart_bl.Uart.Types.{
  UartPort, UartState, state_code, disabled, closed, opening, opened, draining, error,
}
use ch32v20x_usb_mux_uart_bl.Uart.MapConfig.{map_cfg, uart_port_count, gpioa, gpiob, gpioc, gpiod}
use ch32v20x_usb_mux_uart_bl.Uart.Port.{port_open, port_close}
use ch32v20x_usb_mux_uart_bl.Uart.Manager.{port_at, set_port, is_open, is_disabled}
use ch32v20x_usb_mux_uart_bl.Uart.Manager.Coding.{
  LineCoding, Parsed, refused, parsed, parse_line_coding, le16, le32,
}

-- `UartMgr_QueueStatusRsp`
unfoldable pub queue_status_rsp : Hdr → Status → Firmware → Firmware
queue_status_rsp hdr status fw = (queue_rsp hdr status none 0 fw).1

-- A reply with a payload; what `USBTX_QueueRsp` returns is not looked at.
abbrev pub reply : Hdr → List ℕ → ℕ → Firmware → Firmware
reply hdr payload len fw = (queue_rsp hdr Status.ok (some payload) len fw).1

-- `UartMgr_PortCode`
unfoldable pub port_code : ℕ → ℕ
port_code gpio =
    if gpio == gpioa
    then 0
    else (if gpio == gpiob
        then 1
        else (if gpio == gpioc then 2 else (if gpio == gpiod then 3 else 0xff)))

-- `UartMgr_ReplyPortCap`: both rings take 255 bytes.
unfoldable pub reply_port_cap : Hdr → UartPort → Firmware → Firmware
reply_port_cap hdr p =
    reply hdr
      (p.logic_port
        ∷ p.phy_uart_id
        ∷ state_code p.state
        ∷ 0
        ∷ (le16 255 ++ le16 255 ++ (1 ∷ 1 ∷ 0 ∷ 0 ∷ [])))
      12

-- `UartMgr_ReplyPortMap`
unfoldable pub reply_port_map : Hdr → UartPort → Firmware → Firmware
unfolding port_code
reply_port_map hdr p =
    let cfg = map_cfg p.logic_port in
    reply hdr
      (cfg.enable
        ∷ cfg.phy_uart_id
        ∷ port_code cfg.tx_port
        ∷ port_code cfg.rx_port
        ∷ (le16 cfg.tx_pin ++ le16 cfg.rx_pin ++ le32 p.baudrate))
      12

-- `UartMgr_ReplyStats`
unfoldable pub reply_stats : Hdr → UartPort → Firmware → Firmware
reply_stats hdr p =
    reply hdr
      (le32 p.rx_bytes
        ++ le32 p.tx_bytes
        ++ le32 p.drop_rx_bytes
        ++ le32 p.drop_tx_bytes
        ++ (state_code p.state ∷ p.data_bits ∷ p.parity ∷ p.stop_bits ∷ []))
      20

-- A request that carries no payload.
abbrev pub without_payload : Hdr → ℕ → (Firmware → Firmware) → Firmware → Firmware
without_payload hdr len answer fw =
    if not (len == 0) then queue_status_rsp hdr Status.err_invalid_param fw else answer fw

abbrev pub with_coding : LineCoding → UartPort → UartPort
with_coding c p = record p {
  baudrate = c.baudrate;
  data_bits = c.data_bits;
  parity = c.parity;
  stop_bits = c.stop_bits;
}

-- `UARTPort_Open` returns VP_STATUS_OK.
abbrev pub is_ok : Status → Bool
is_ok Status.ok = Bool.true
is_ok _ = Bool.false

-- `UartMgr_Open`; the state passes through UART_OPENING.
unfoldable pub open_port : ℕ → LineCoding → Firmware → Status × Firmware
open_port i c fw =
    let p : UartPort = record (port_at i fw) { state = opening } in
    let (status, fw') =
      port_open p.logic_port c.baudrate c.data_bits c.parity c.stop_bits (set_port i p fw) in
    if is_ok status
    then (status, set_port i (record (with_coding c p) { state = opened }) fw')
    else (status, set_port i (record p { state = error }) fw')

abbrev pub can_open : UartState → Bool
can_open closed = Bool.true
can_open error = Bool.true
can_open _ = Bool.false

-- The case VP_UART_OPEN behind the parsing of its payload.
unfoldable pub handle_open : Hdr → ℕ → LineCoding → Firmware → Firmware
unfolding queue_status_rsp open_port
handle_open hdr i c fw =
    if not (can_open (port_at i fw).state)
    then queue_status_rsp hdr Status.err_invalid_state fw
    else (let (status, fw') = open_port i c fw in queue_status_rsp hdr status fw')

-- The case VP_UART_SET_LINE_CODING behind the parsing of its payload.
unfoldable pub handle_set_line_coding : Hdr → ℕ → LineCoding → Firmware → Firmware
unfolding queue_status_rsp
handle_set_line_coding hdr i c fw =
    let p : UartPort = port_at i fw in
    if not (is_open p.state)
    then queue_status_rsp hdr Status.err_uart_not_open fw
    else (let (status, fw') =
          port_open p.logic_port c.baudrate c.data_bits c.parity c.stop_bits fw in
        queue_status_rsp hdr status
          (if is_ok status then set_port i (with_coding c p) fw' else fw'))

-- Runs a case on the coding in the payload, or replies with the status of a bad one.
abbrev pub on_coding : Hdr → Parsed → (LineCoding → Firmware → Firmware) → Firmware → Firmware
on_coding hdr (refused status) answer fw = queue_status_rsp hdr status fw
on_coding hdr (parsed c) answer fw = answer c fw

abbrev pub reset_rings : UartPort → UartPort
reset_rings p = record p { rx_rb = RingBuffer.reset p.rx_rb; tx_rb = RingBuffer.reset p.tx_rb }

-- The case VP_UART_CLOSE.
unfoldable pub handle_close : Hdr → ℕ → Firmware → Firmware
unfolding queue_status_rsp
handle_close hdr i fw =
    let fw' : Firmware = port_close (port_at i fw).logic_port fw in
    queue_status_rsp hdr Status.ok
      (set_port i (record (reset_rings (port_at i fw')) { state = closed }) fw')

unfoldable pub handle_flush_rx : Hdr → ℕ → Firmware → Firmware
unfolding queue_status_rsp
handle_flush_rx hdr i fw =
    let p : UartPort = port_at i fw in
    queue_status_rsp hdr Status.ok (set_port i (record p { rx_rb = RingBuffer.reset p.rx_rb }) fw)

unfoldable pub handle_flush_tx : Hdr → ℕ → Firmware → Firmware
unfolding queue_status_rsp
handle_flush_tx hdr i fw =
    let p : UartPort = port_at i fw in
    queue_status_rsp hdr Status.ok (set_port i (record p { tx_rb = RingBuffer.reset p.tx_rb }) fw)

-- The `switch` of `UartMgr_HandleCtrl`, for a port that exists.
unfoldable pub dispatch_ctrl : Hdr → ℕ → Ptr → ℕ → Firmware → Firmware
unfolding reply_port_cap reply_port_map reply_stats handle_open handle_set_line_coding handle_close
    handle_flush_rx handle_flush_tx queue_status_rsp
dispatch_ctrl hdr i payload len fw =
    let p : UartPort = port_at i fw in
    if hdr.opcode == UartOp.get_port_cap
    then without_payload hdr len (reply_port_cap hdr p) fw
    else (if hdr.opcode == UartOp.get_port_map
        then without_payload hdr len (reply_port_map hdr p) fw
        else (if hdr.opcode == UartOp.open_port
            then on_coding hdr (parse_line_coding payload len) (handle_open hdr i) fw
            else (if hdr.opcode == UartOp.close_port
                then handle_close hdr i fw
                else (if hdr.opcode == UartOp.set_line_coding
                    then on_coding hdr (parse_line_coding payload len)
                        (handle_set_line_coding hdr i) fw
                    else (if hdr.opcode == UartOp.get_stats
                        then without_payload hdr len (reply_stats hdr p) fw
                        else (if hdr.opcode == UartOp.flush_rx
                            then handle_flush_rx hdr i fw
                            else (if hdr.opcode == UartOp.flush_tx
                                then handle_flush_tx hdr i fw
                                else queue_status_rsp hdr Status.err_unsupported_opcode fw)))))))

-- `UartMgr_HandleCtrl`, with the tests of `UartMgr_ValidateCtrlPort`.
unfoldable pub handle_ctrl : Hdr → Ptr → ℕ → Firmware → Firmware
unfolding dispatch_ctrl
handle_ctrl hdr payload len fw =
    if leb uart_port_count hdr.ch_id
    then queue_status_rsp hdr Status.err_invalid_param fw
    else (if is_disabled (port_at hdr.ch_id fw).state
        then queue_status_rsp hdr Status.err_uart_map_invalid fw
        else dispatch_ctrl hdr hdr.ch_id payload len fw)
