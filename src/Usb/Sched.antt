-- ===== src/Usb/Sched.antt =====
-- The functions of usb_tx_sched.c that other parts call, and what `USBTX_Process` hands to the
-- device.
pub mod Priority
pub mod Hint
pub mod Replies
pub mod Delivered
use ch32v20x_usb_mux_uart_bl.Prelude.{
  ℕ, Bool, true, false, Option, none, some, ◌||◌, not, ◌==◌, if◌then◌else◌, Rc, ok, err, Ptr,
}
use ch32v20x_usb_mux_uart_bl.Proto.{Hdr, IrqHint, Status, vp_irq_hint_version}
use ch32v20x_usb_mux_uart_bl.Proto.Msg
use ch32v20x_usb_mux_uart_bl.Usb.Dev
use ch32v20x_usb_mux_uart_bl.Usb.Dev.{UsbDev}
use ch32v20x_usb_mux_uart_bl.Usb.Tx
use ch32v20x_usb_mux_uart_bl.Usb.Tx.{
  Frame, TxCtx, Lane, rsp, evt, bulk, queue_of, pending_bit, peek_queue, pop_queue,
}
use ch32v20x_usb_mux_uart_bl.Firmware.{Firmware, kick_usb_tx}

-- `USBTX_QueueFrame`, with the event that it sets when the frame is stored.
unfoldable pub queue_frame :
    Lane → ℕ → ℕ → ℕ → ℕ → ℕ → ℕ → Status → Ptr → ℕ → Firmware → Rc × Firmware
queue_frame lane dropped_bit ch_type ch_id msg_type opcode ref_seq status payload payload_len fw =
    let (rc, tx) =
      Tx.queue_frame lane dropped_bit ch_type ch_id msg_type opcode ref_seq status payload
        payload_len fw.tx in
    elim rc [ ok ↦ (ok, kick_usb_tx (record fw { tx = tx })) | err ↦ (err, record fw { tx = tx }) ]

unfoldable pub queue_rsp : Hdr → Status → Ptr → ℕ → Firmware → Rc × Firmware
unfolding queue_frame
queue_rsp req status payload payload_len =
    queue_frame rsp (pending_bit rsp) req.ch_type req.ch_id Msg.rsp req.opcode req.seq status
      payload payload_len

unfoldable pub queue_evt : ℕ → ℕ → ℕ → Ptr → ℕ → Firmware → Rc × Firmware
unfolding queue_frame
queue_evt ch_type ch_id opcode payload payload_len =
    queue_frame evt (pending_bit evt) ch_type ch_id Msg.evt opcode 0 Status.ok payload payload_len

unfoldable pub queue_data : ℕ → ℕ → Ptr → ℕ → Firmware → Rc × Firmware
unfolding queue_frame
queue_data ch_type ch_id payload payload_len =
    queue_frame bulk (pending_bit bulk) ch_type ch_id Msg.data_msg 0 0 Status.ok payload payload_len

-- The hint that `USBTX_SendHintIfNeeded` fills in.
abbrev pub hint_of : TxCtx → IrqHint
hint_of c = record {
  version = vp_irq_hint_version;
  urgent_flags = 0;
  pending_bitmap = c.pending_bitmap;
  dropped_bitmap = c.dropped_bitmap;
  reserved = 0;
}

-- The transmit context after a hint that the device took.
abbrev pub hint_taken : TxCtx → TxCtx
hint_taken c = record c { hint_dirty = 0; dropped_bitmap = 0 }

unfoldable pub send_hint_if_needed : TxCtx → UsbDev → TxCtx × UsbDev
send_hint_if_needed c d =
    if c.hint_dirty == 0 || not (Dev.can_send_hint d)
    then (c, d)
    else (let (rc, d') = Dev.send_hint (hint_of c) d in
        elim rc [ ok ↦ (hint_taken c, d') | err ↦ (c, d') ])

-- Gives the frame at the head of a queue to the device, and takes it off the queue if the device
-- accepts it.
unfoldable pub send_head : Lane → Frame → TxCtx → UsbDev → TxCtx × UsbDev
send_head lane frame c d =
    let (rc, d') = Dev.send_frame (some frame.bytes) frame.len d in
    elim rc [ ok ↦ (pop_queue lane c, d') | err ↦ (c, d') ]

-- The part of `USBTX_SendNextFrame` behind the test of the device: responses come before events,
-- and events before data.
unfoldable pub send_first : TxCtx → UsbDev → TxCtx × UsbDev
unfolding send_head
send_first c d = elim (peek_queue c.rsp_q) [
  | some frame ↦ send_head rsp frame c d
  | none ↦ (elim (peek_queue c.evt_q) [
    | some frame ↦ send_head evt frame c d
    | none ↦ elim (peek_queue c.data_q) [ some frame ↦ send_head bulk frame c d | none ↦ (c, d) ]
  ])
]

unfoldable pub send_next_frame : TxCtx → UsbDev → TxCtx × UsbDev
unfolding send_first
send_next_frame c d = if Dev.can_send_frame d then send_first c d else (c, d)

-- `USBTX_Process`
unfoldable pub process : Firmware → Firmware
unfolding send_hint_if_needed send_next_frame
process fw =
    if not (Dev.is_configured fw.dev)
    then fw
    else (let (c, d) = send_hint_if_needed fw.tx fw.dev in
        let (c', d') = send_next_frame c d in record fw { tx = c'; dev = d' })
