-- ===== src/Router/Replies.antt =====
-- The responses to the commands that `VendorRouter_Dispatch` of proto/vendor_router.c serves.
use ch32v20x_usb_mux_uart_bl.Prelude.{
  List, refl, ℕ_discrete, false, ◌≢◌, ℕ, ◌≤◌, ◌≡◌, true, none, some, not, ◌==◌, ◌||◌, arith, Ptr,
}
use ch32v20x_usb_mux_uart_bl.Proto.{Hdr, Status}
use ch32v20x_usb_mux_uart_bl.Proto.Channel
use ch32v20x_usb_mux_uart_bl.Proto.Msg
use ch32v20x_usb_mux_uart_bl.Proto.SysOp
use ch32v20x_usb_mux_uart_bl.Firmware.{Firmware}
use ch32v20x_usb_mux_uart_bl.Usb.Sched.Replies.{
  RspCall, queue_rsp-RspCall, if-RspCall, RspAfter, RspCall-RspAfter,
}
use ch32v20x_usb_mux_uart_bl.Usb.Tx.Invariant.{IsTx}
use ch32v20x_usb_mux_uart_bl.Usb.Sched.Delivered.{Answered, RspAfter-Answered}
use ch32v20x_usb_mux_uart_bl.Hal.{Call}
use ch32v20x_usb_mux_uart_bl.Ble.Mgmt.{handle_mgmt}
use ch32v20x_usb_mux_uart_bl.Ble.Mgmt.Answers.{handle_mgmt-RspAfter}
use ch32v20x_usb_mux_uart_bl.Uart.Manager.Requests.Lifecycle.{handle_ctrl-RspCall}
use ch32v20x_usb_mux_uart_bl.Router.{
  dispatch_sys, dispatch, queue_status_rsp, dev_info_rsp, caps_rsp,
}

dispatch_sys-RspCall :
    (hdr : Hdr) (p : Ptr) (n : ℕ) (fw : Firmware)
    → n ≤ 488
    → (p ≡ none → n ≡ 0)
    → RspCall hdr fw (dispatch_sys hdr p n fw)
unfolding dispatch_sys
dispatch_sys-RspCall hdr p n fw fits nonull =
    let status : (s : Status) → RspCall hdr fw (queue_status_rsp hdr s fw) =
      λ s. queue_rsp-RspCall hdr s none 0 fw (omega arith) (λ _. refl) in
    if-RspCall hdr fw (hdr.opcode == SysOp.get_dev_info) _ _
      (if-RspCall hdr fw (not (n == 0)) _ _ (status Status.err_invalid_param)
        (queue_rsp-RspCall hdr Status.ok (some dev_info_rsp) 8 fw (omega arith) (λ e. cc)))
      (if-RspCall hdr fw (hdr.opcode == SysOp.get_caps) _ _
        (if-RspCall hdr fw (not (n == 0)) _ _ (status Status.err_invalid_param)
          (queue_rsp-RspCall hdr Status.ok (some caps_rsp) 8 fw (omega arith) (λ e. cc)))
        (if-RspCall hdr fw (hdr.opcode == SysOp.heartbeat) _ _
          (queue_rsp-RspCall hdr Status.ok p n fw fits nonull)
          (status Status.err_unsupported_opcode)))

-- A command on any channel but that of the BLE manager changes the transmit queues by one response
-- alone.
dispatch-RspCall :
    (ret : List Call → ℕ) (hdr : Hdr) (p : Ptr) (n : ℕ) (fw : Firmware)
    → hdr.msg_type ≡ Msg.cmd
    → hdr.ch_type ≢ Channel.ble_mgmt
    → n ≤ 488
    → (p ≡ none → n ≡ 0)
    → RspCall hdr fw (dispatch ret hdr p n fw)
unfolding dispatch
dispatch-RspCall ret hdr p n fw cmd other fits nonull =
    let status : (s : Status) → RspCall hdr fw (queue_status_rsp hdr s fw) =
      λ s. queue_rsp-RspCall hdr s none 0 fw (omega arith) (λ _. refl) in
    let param = status Status.err_invalid_param in
    let not_data : not (hdr.msg_type == Msg.data_msg) ≡ true = ground (arith, cmd) in
    let not_ble : (hdr.ch_type == Channel.ble_mgmt) ≡ false = ground (arith, other) in
    if-RspCall hdr fw (hdr.ch_type == Channel.uart_ctrl) _ _
      (if-RspCall hdr fw (not (hdr.msg_type == Msg.cmd)) _ _ param (handle_ctrl-RspCall hdr p n fw))
      (if-RspCall hdr fw (hdr.ch_type == Channel.uart_data) _ _ (rw not_data param) (
        rw not_ble (
          if-RspCall hdr fw (not (hdr.ch_type == Channel.sys) || not (hdr.ch_id == 0)) _ _
            (status Status.err_unsupported_ch)
            (if-RspCall hdr fw (not (hdr.msg_type == Msg.cmd)) _ _ param
              (dispatch_sys-RspCall hdr p n fw fits nonull)))))

dispatch-ble :
    (ret : List Call → ℕ) (hdr : Hdr) (p : Ptr) (n : ℕ) (fw : Firmware)
    → hdr.msg_type ≡ Msg.cmd
    → hdr.ch_type ≡ Channel.ble_mgmt
    → dispatch ret hdr p n fw ≡ handle_mgmt ret hdr p n fw
unfolding dispatch
dispatch-ble ret hdr p n fw cmd ble =
    let not_ctrl : (hdr.ch_type == Channel.uart_ctrl) ≡ false = ground (arith, ble) in
    let not_data : (hdr.ch_type == Channel.uart_data) ≡ false = ground (arith, ble) in
    let is_ble : (hdr.ch_type == Channel.ble_mgmt) ≡ true = ground (arith, ble) in
    let is_cmd : not (hdr.msg_type == Msg.cmd) ≡ false = ground (arith, cmd) in
    rw (dispatch, not_ctrl, not_data, is_ble, is_cmd) refl

dispatch-RspAfter :
    (ret : List Call → ℕ) (hdr : Hdr) (p : Ptr) (n : ℕ) (fw : Firmware)
    → hdr.msg_type ≡ Msg.cmd
    → n ≤ 488
    → (p ≡ none → n ≡ 0)
    → RspAfter hdr fw (dispatch ret hdr p n fw)
dispatch-RspAfter ret hdr p n fw cmd fits nonull = elim (ℕ_discrete hdr.ch_type Channel.ble_mgmt) [
  | yes ble ↦ rw (dispatch-ble ret hdr p n fw cmd ble) (handle_mgmt-RspAfter ret hdr p n fw)
  | no other ↦ RspCall-RspAfter hdr fw _ (dispatch-RspCall ret hdr p n fw cmd other fits nonull)
]

-- A command whose payload fits a frame, and is null only if it is empty, gets exactly one response
-- on any channel: with well-formed transmit queues, `VendorRouter_Dispatch` appends one frame to
-- the queue of responses, of the type RSP, with the channel, the port, the opcode and the sequence
-- number of the command and a payload of at most 488 bytes. If four responses wait already they are
-- kept, the frame is not stored, and the loss of a response is noted in the dropped bitmap for the
-- next hint. The data frames that wait are as they were.
pub dispatch-Answered :
    (ret : List Call → ℕ) (hdr : Hdr) (p : Ptr) (n : ℕ) (fw : Firmware)
    → IsTx fw.tx
    → hdr.msg_type ≡ Msg.cmd
    → n ≤ 488
    → (p ≡ none → n ≡ 0)
    → Answered hdr fw.tx (dispatch ret hdr p n fw).tx
dispatch-Answered ret hdr p n fw v cmd fits nonull =
    RspAfter-Answered hdr fw (dispatch ret hdr p n fw) v
      (dispatch-RspAfter ret hdr p n fw cmd fits nonull)
