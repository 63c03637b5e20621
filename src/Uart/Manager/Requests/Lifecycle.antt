-- ===== src/Uart/Manager/Requests/Lifecycle.antt =====
-- The responses to the control requests that uart_manager.c serves.
use ch32v20x_usb_mux_uart_bl.Prelude.{
  ℕ, ◌≡◌, refl, ◌∙◌, Bool, true, false, none, some, Option, not, ◌==◌, leb, if◌then◌else◌, arith,
  Ptr,
}
use ch32v20x_usb_mux_uart_bl.Proto.{Hdr, Status}
use ch32v20x_usb_mux_uart_bl.Proto.UartOp
use ch32v20x_usb_mux_uart_bl.Firmware.{Firmware}
use ch32v20x_usb_mux_uart_bl.Usb.Tx.{TxCtx}
use ch32v20x_usb_mux_uart_bl.Usb.Sched.Replies.{
  RspCall, queue_rsp-RspCall, if-RspCall, RspCall-elsewhere,
}
use ch32v20x_usb_mux_uart_bl.Usb.Tx.Invariant.{IsTx}
use ch32v20x_usb_mux_uart_bl.Usb.Sched.Delivered.{Replied, RspCall-Replied}
use ch32v20x_usb_mux_uart_bl.Uart.Types.{UartPort, opening}
use ch32v20x_usb_mux_uart_bl.Uart.MapConfig.{UartMapCfg, map_cfg, uart_port_count}
use ch32v20x_usb_mux_uart_bl.Uart.Port.{
  enable_gpio_clock, configure, apply_config, get_hw_desc, port_open, port_close,
}
use ch32v20x_usb_mux_uart_bl.Uart.Manager.{port_at, set_port, is_open, is_disabled}
use ch32v20x_usb_mux_uart_bl.Uart.Manager.Coding.{
  LineCoding, Parsed, refused, parsed, parse_line_coding,
}
use ch32v20x_usb_mux_uart_bl.Uart.Manager.Requests.{
  queue_status_rsp, reply_port_cap, reply_port_map, reply_stats, without_payload, open_port,
  can_open, is_ok, with_coding, handle_open, handle_set_line_coding, on_coding, handle_close,
  handle_flush_rx, handle_flush_tx, dispatch_ctrl, handle_ctrl,
}

enable_gpio_clock-tx : (gpio : ℕ) (fw : Firmware) → (enable_gpio_clock gpio fw).tx ≡ fw.tx
unfolding enable_gpio_clock
enable_gpio_clock-tx gpio fw = ground arith

configure-tx :
    (hw : ℕ) (cfg : UartMapCfg) (a b c d : ℕ) (fw : Firmware)
    → (configure hw cfg a b c d fw).tx ≡ fw.tx
unfolding configure
configure-tx hw cfg a b c d fw =
    enable_gpio_clock-tx cfg.rx_port _ ∙ enable_gpio_clock-tx cfg.tx_port _

apply_config-tx :
    (hw : Option ℕ) (cfg : UartMapCfg) (a b c d : ℕ) (fw : Firmware)
    → (apply_config hw cfg a b c d fw).1.tx ≡ fw.tx
unfolding apply_config
apply_config-tx none cfg a b c d fw = refl
apply_config-tx (some hw) cfg a b c d fw = ground (arith, configure-tx hw cfg a b c d fw)

port_open-tx : (i a b c d : ℕ) (fw : Firmware) → (port_open i a b c d fw).1.tx ≡ fw.tx
unfolding port_open
port_open-tx i a b c d fw = ground (arith, apply_config-tx (get_hw_desc i) (map_cfg i) a b c d fw)

port_close-tx : (i : ℕ) (fw : Firmware) → (port_close i fw).tx ≡ fw.tx
unfolding port_close
port_close-tx i fw = ground arith

if-tx :
    (b : Bool) (x y : Status × Firmware) (t : TxCtx)
    → x.1.tx ≡ t
    → y.1.tx ≡ t
    → (if b then x else y).1.tx ≡ t
if-tx true x y t d e = d
if-tx false x y t d e = e

if_fw-tx :
    (b : Bool) (x y : Firmware) (t : TxCtx) → x.tx ≡ t → y.tx ≡ t → (if b then x else y).tx ≡ t
if_fw-tx true x y t d e = d
if_fw-tx false x y t d e = e

open_port-tx : (i : ℕ) (c : LineCoding) (fw : Firmware) → (open_port i c fw).1.tx ≡ fw.tx
unfolding open_port
open_port-tx i c fw =
    let p : UartPort = record (port_at i fw) { state = opening } in
    let e =
      port_open-tx p.logic_port c.baudrate c.data_bits c.parity c.stop_bits (set_port i p fw) in
    if-tx
      (is_ok
        (port_open p.logic_port c.baudrate c.data_bits c.parity c.stop_bits (set_port i p fw)).0)
      _ _ fw.tx e e

module _ (hdr : Hdr) (fw : Firmware) where
  status-RspCall : (s : Status) → RspCall hdr fw (queue_status_rsp hdr s fw)
  unfolding queue_status_rsp
  status-RspCall s = queue_rsp-RspCall hdr s none 0 fw (omega arith) (λ _. refl)

-- A status after a change that leaves the transmit queues.
changed-RspCall :
    (hdr : Hdr) (fw fw' : Firmware) (s : Status)
    → fw'.tx ≡ fw.tx
    → RspCall hdr fw (queue_status_rsp hdr s fw')
changed-RspCall hdr fw fw' s e = RspCall-elsewhere hdr fw fw' _ e (status-RspCall hdr fw' s)

module _ (hdr : Hdr) (i : ℕ) (fw : Firmware) where
  handle_open-RspCall : (c : LineCoding) → RspCall hdr fw (handle_open hdr i c fw)
  unfolding handle_open
  handle_open-RspCall c =
      if-RspCall hdr fw (not (can_open (port_at i fw).state)) _ _
        (status-RspCall hdr fw Status.err_invalid_state)
        (changed-RspCall hdr fw (open_port i c fw).1 (open_port i c fw).0 (open_port-tx i c fw))

  handle_set_line_coding-RspCall :
      (c : LineCoding) → RspCall hdr fw (handle_set_line_coding hdr i c fw)
  unfolding handle_set_line_coding
  handle_set_line_coding-RspCall c =
      let p : UartPort = port_at i fw in
      let (status, fw') = port_open p.logic_port c.baudrate c.data_bits c.parity c.stop_bits fw in
      let e = port_open-tx p.logic_port c.baudrate c.data_bits c.parity c.stop_bits fw in
      if-RspCall hdr fw (not (is_open p.state)) _ _ (status-RspCall hdr fw Status.err_uart_not_open)
        (changed-RspCall hdr fw (if is_ok status then set_port i (with_coding c p) fw' else fw')
          status (if_fw-tx (is_ok status) (set_port i (with_coding c p) fw') fw' fw.tx e e))

  on_coding-RspCall :
      (c : Parsed) (answer : LineCoding → Firmware → Firmware)
      → ((l : LineCoding) → RspCall hdr fw (answer l fw))
      → RspCall hdr fw (on_coding hdr c answer fw)
  on_coding-RspCall (refused s) answer r = status-RspCall hdr fw s
  on_coding-RspCall (parsed l) answer r = r l

  handle_close-RspCall : RspCall hdr fw (handle_close hdr i fw)
  unfolding handle_close
  handle_close-RspCall =
      changed-RspCall hdr fw _ Status.ok (port_close-tx (port_at i fw).logic_port fw)

  handle_flush_rx-RspCall : RspCall hdr fw (handle_flush_rx hdr i fw)
  unfolding handle_flush_rx
  handle_flush_rx-RspCall = changed-RspCall hdr fw _ Status.ok refl

  handle_flush_tx-RspCall : RspCall hdr fw (handle_flush_tx hdr i fw)
  unfolding handle_flush_tx
  handle_flush_tx-RspCall = changed-RspCall hdr fw _ Status.ok refl

  without_payload-RspCall :
      (n : ℕ) (answer : Firmware → Firmware)
      → RspCall hdr fw (answer fw)
      → RspCall hdr fw (without_payload hdr n answer fw)
  without_payload-RspCall n answer r =
      if-RspCall hdr fw (not (n == 0)) _ _ (status-RspCall hdr fw Status.err_invalid_param) r

  replies-RspCall :
      (p : UartPort)
      → RspCall hdr fw (reply_port_cap hdr p fw)
        × RspCall hdr fw (reply_port_map hdr p fw)
        × RspCall hdr fw (reply_stats hdr p fw)
  unfolding reply_port_cap reply_port_map reply_stats
  replies-RspCall p = (
    queue_rsp-RspCall hdr Status.ok _ 12 fw (omega arith) (λ e. cc),
    queue_rsp-RspCall hdr Status.ok _ 12 fw (omega arith) (λ e. cc),
    queue_rsp-RspCall hdr Status.ok _ 20 fw (omega arith) (λ e. cc),
  )

  dispatch_ctrl-RspCall : (p : Ptr) (n : ℕ) → RspCall hdr fw (dispatch_ctrl hdr i p n fw)
  unfolding dispatch_ctrl
  dispatch_ctrl-RspCall p n =
      let r = replies-RspCall (port_at i fw) in
      let c : Parsed = parse_line_coding p n in
      if-RspCall hdr fw (hdr.opcode == UartOp.get_port_cap) _ _
        (without_payload-RspCall n (reply_port_cap hdr (port_at i fw)) r.0)
        (if-RspCall hdr fw (hdr.opcode == UartOp.get_port_map) _ _
          (without_payload-RspCall n (reply_port_map hdr (port_at i fw)) r.1)
          (if-RspCall hdr fw (hdr.opcode == UartOp.open_port) _ _
            (on_coding-RspCall c (handle_open hdr i) handle_open-RspCall)
            (if-RspCall hdr fw (hdr.opcode == UartOp.close_port) _ _ handle_close-RspCall (
              if-RspCall hdr fw (hdr.opcode == UartOp.set_line_coding) _ _
                (on_coding-RspCall c (handle_set_line_coding hdr i) handle_set_line_coding-RspCall)
                (if-RspCall hdr fw (hdr.opcode == UartOp.get_stats) _ _
                  (without_payload-RspCall n (reply_stats hdr (port_at i fw)) r.2)
                  (if-RspCall hdr fw (hdr.opcode == UartOp.flush_rx) _ _ handle_flush_rx-RspCall (
                    if-RspCall hdr fw (hdr.opcode == UartOp.flush_tx) _ _ handle_flush_tx-RspCall
                      (status-RspCall hdr fw Status.err_unsupported_opcode))))))))

-- On every branch the transmit queues change by one response that fits a frame.
pub handle_ctrl-RspCall :
    (hdr : Hdr) (p : Ptr) (n : ℕ) (fw : Firmware) → RspCall hdr fw (handle_ctrl hdr p n fw)
unfolding handle_ctrl
handle_ctrl-RspCall hdr p n fw =
    if-RspCall hdr fw (leb uart_port_count hdr.ch_id) _ _
      (status-RspCall hdr fw Status.err_invalid_param)
      (if-RspCall hdr fw (is_disabled (port_at hdr.ch_id fw).state) _ _
        (status-RspCall hdr fw Status.err_uart_map_invalid)
        (dispatch_ctrl-RspCall hdr hdr.ch_id fw p n))

-- Every control request gets exactly one response: with well-formed transmit queues, whatever the
-- request, `UartMgr_HandleCtrl` appends one frame to the queue of responses, of the type RSP, with
-- the channel, the port, the opcode and the sequence number of the request and a payload of at most
-- 488 bytes; if four responses wait already they are kept, the frame is not stored, and the loss of
-- a response is noted in the dropped bitmap for the next hint. The events and the data frames that
-- wait are as they were.
pub handle_ctrl-Replied :
    (hdr : Hdr) (p : Ptr) (n : ℕ) (fw : Firmware)
    → IsTx fw.tx
    → Replied hdr fw.tx (handle_ctrl hdr p n fw).tx
handle_ctrl-Replied hdr p n fw v =
    RspCall-Replied hdr fw (handle_ctrl hdr p n fw) v (handle_ctrl-RspCall hdr p n fw)
