-- ===== src/Router.antt =====
-- App/usb_mux_dev/proto/vendor_router.c: who serves a frame. `ret` is what the calls of the BLE
-- library return.
pub mod Replies
use ch32v20x_usb_mux_uart_bl.Prelude.{
  ℕ, Bool, none, some, List, [], ◌∷◌, ◌++◌, ◌||◌, not, ◌==◌, if◌then◌else◌, bit_and, bit_or, Ptr,
}
use ch32v20x_usb_mux_uart_bl.Proto.{Hdr, Status}
use ch32v20x_usb_mux_uart_bl.Proto.Channel
use ch32v20x_usb_mux_uart_bl.Proto.Msg
use ch32v20x_usb_mux_uart_bl.Proto.SysOp
use ch32v20x_usb_mux_uart_bl.Firmware.{Firmware}
use ch32v20x_usb_mux_uart_bl.Hal.{Call}
use ch32v20x_usb_mux_uart_bl.Usb.Sched.{queue_rsp}
use ch32v20x_usb_mux_uart_bl.Ble.Mgmt.{handle_mgmt}
use ch32v20x_usb_mux_uart_bl.Uart.Manager.{write_from_host}
use ch32v20x_usb_mux_uart_bl.Uart.Manager.Coding.{le32}
use ch32v20x_usb_mux_uart_bl.Uart.Manager.Requests.{handle_ctrl}

-- `g_dev_info_rsp` as `VendorRouter_Init` leaves it, byte for byte.
abbrev pub dev_info_rsp : List ℕ
dev_info_rsp = 1 ∷ 0 ∷ 1 ∷ 0 ∷ 4 ∷ 3 ∷ 0 ∷ 0 ∷ []

-- The capabilities: the number of ports in the low bits, BLE scan, discovery and notification, and
-- the reserved network.
abbrev pub caps_bitmap : ℕ
caps_bitmap = bit_or (bit_or (bit_or (bit_or (bit_and 4 0xf) 0x10) 0x20) 0x40) 0x100

-- `g_caps_rsp` as `VendorRouter_Init` leaves it, byte for byte.
abbrev pub caps_rsp : List ℕ
caps_rsp = le32 caps_bitmap ++ (4 ∷ 3 ∷ 1 ∷ 0 ∷ [])

-- `VendorRouter_QueueStatusRsp`
unfoldable pub queue_status_rsp : Hdr → Status → Firmware → Firmware
queue_status_rsp hdr status fw = (queue_rsp hdr status none 0 fw).1

-- The requests of the system channel: the `switch` of `VendorRouter_Dispatch`.
unfoldable pub dispatch_sys : Hdr → Ptr → ℕ → Firmware → Firmware
unfolding queue_status_rsp
dispatch_sys hdr payload len fw =
    if hdr.opcode == SysOp.get_dev_info
    then (if not (len == 0)
        then queue_status_rsp hdr Status.err_invalid_param fw
        else (queue_rsp hdr Status.ok (some dev_info_rsp) 8 fw).1)
    else (if hdr.opcode == SysOp.get_caps
        then (if not (len == 0)
            then queue_status_rsp hdr Status.err_invalid_param fw
            else (queue_rsp hdr Status.ok (some caps_rsp) 8 fw).1)
        else (if hdr.opcode == SysOp.heartbeat
            then (queue_rsp hdr Status.ok payload len fw).1
            else queue_status_rsp hdr Status.err_unsupported_opcode fw))

module _ (ret : List Call → ℕ) where
  -- `VendorRouter_Dispatch`
  unfoldable pub dispatch : Hdr → Ptr → ℕ → Firmware → Firmware
  unfolding queue_status_rsp dispatch_sys
  dispatch hdr payload len fw =
      if hdr.ch_type == Channel.uart_ctrl
      then (if not (hdr.msg_type == Msg.cmd)
          then queue_status_rsp hdr Status.err_invalid_param fw
          else handle_ctrl hdr payload len fw)
      else (if hdr.ch_type == Channel.uart_data
          then (if not (hdr.msg_type == Msg.data_msg)
              then queue_status_rsp hdr Status.err_invalid_param fw
              else (write_from_host hdr.ch_id payload len fw).1)
          else (if hdr.ch_type == Channel.ble_mgmt
              then (if not (hdr.msg_type == Msg.cmd)
                  then queue_status_rsp hdr Status.err_invalid_param fw
                  else handle_mgmt ret hdr payload len fw)
              else (if not (hdr.ch_type == Channel.sys) || not (hdr.ch_id == 0)
                  then queue_status_rsp hdr Status.err_unsupported_ch fw
                  else (if not (hdr.msg_type == Msg.cmd)
                      then queue_status_rsp hdr Status.err_invalid_param fw
                      else dispatch_sys hdr payload len fw))))
