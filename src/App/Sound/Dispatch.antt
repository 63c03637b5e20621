-- ===== src/App/Sound/Dispatch.antt =====
-- The handlers that vendor_router.c calls, the scheduler of usb_tx_sched.c, and the receiver of
-- usb_rx_fsm.c with a handler.
use ch32v20x_usb_mux_uart_bl.Prelude.{
  ℕ, ◌≡◌, sym, subst, arith, if-cases, none, some, not, ◌==◌, ◌||◌, ◌∷◌, [], List, Option, Ptr, Rc,
  ok, err,
}
use ch32v20x_usb_mux_uart_bl.Proto.{Hdr, Status}
use ch32v20x_usb_mux_uart_bl.Proto.Channel
use ch32v20x_usb_mux_uart_bl.Proto.Msg
use ch32v20x_usb_mux_uart_bl.Proto.SysOp
use ch32v20x_usb_mux_uart_bl.Hal.{Call}
use ch32v20x_usb_mux_uart_bl.Firmware.{Firmware, kick_uart}
use ch32v20x_usb_mux_uart_bl.RingBuffer.Invariant.{IsValid}
use ch32v20x_usb_mux_uart_bl.RingBuffer.Refine.{contents}
use ch32v20x_usb_mux_uart_bl.Usb.Dev
use ch32v20x_usb_mux_uart_bl.Usb.Dev.{UsbDev}
use ch32v20x_usb_mux_uart_bl.Usb.Tx.{TxCtx, Lane, Frame, rsp, evt, bulk, peek_queue, pop_queue}
use ch32v20x_usb_mux_uart_bl.Usb.Tx.Invariant.{IsTx, queue_frame-IsTx, pop_queue-IsTx}
use ch32v20x_usb_mux_uart_bl.Usb.Sched
use ch32v20x_usb_mux_uart_bl.Usb.Sched.{
  queue_data, send_hint_if_needed, hint_of, hint_taken, send_head, send_first, send_next_frame,
}
use ch32v20x_usb_mux_uart_bl.Usb.Rx
use ch32v20x_usb_mux_uart_bl.Usb.Rx.{
  RxCtx, RxState, idle, header, payload, dispatching, dropping, process_byte, dispatch_stage,
  accept_byte, begin_frame, drop_byte,
}
use ch32v20x_usb_mux_uart_bl.Usb.Rx.Invariant.{IsRx}
use ch32v20x_usb_mux_uart_bl.Usb.Rx.Safety.{process_byte-IsRx}
use ch32v20x_usb_mux_uart_bl.Usb.Rx.Drain.{feed, process-feed}
use ch32v20x_usb_mux_uart_bl.Uart.Manager.{write_from_host, get_port}
use ch32v20x_usb_mux_uart_bl.Uart.Port.{try_kick_tx}
use ch32v20x_usb_mux_uart_bl.Uart.Manager.Requests.{handle_ctrl}
use ch32v20x_usb_mux_uart_bl.Uart.Manager.Requests.Lifecycle.{handle_ctrl-RspCall}
use ch32v20x_usb_mux_uart_bl.Uart.Manager.Rings.Requested.{handle_ctrl-IsPorts}
use ch32v20x_usb_mux_uart_bl.Uart.Manager.Rings.Traffic.{write_from_host-IsPorts}
use ch32v20x_usb_mux_uart_bl.Router.{queue_status_rsp, dispatch_sys, dispatch}
use ch32v20x_usb_mux_uart_bl.App.Sound.{IsSound, queue_rsp-IsSound}
use ch32v20x_usb_mux_uart_bl.App.Sound.Link.{handle_mgmt-IsSound}

module _ (fw : Firmware) (v : IsSound fw) where
  ctrl-IsSound : (hdr : Hdr) (p : Ptr) (n : ℕ) → IsSound (handle_ctrl hdr p n fw)
  ctrl-IsSound hdr p n =
      let r = handle_ctrl-RspCall hdr p n fw in
      (
        subst IsTx (sym r.same) (
            queue_frame-IsTx rsp 1 hdr.ch_type hdr.ch_id Msg.rsp hdr.opcode hdr.seq r.status
              r.payload r.len fw.tx v.0),
        handle_ctrl-IsPorts hdr p n fw v.1,
      )

  write_from_host-tx : (i : ℕ) (p : Ptr) (n : ℕ) → (write_from_host i p n fw).1.tx ≡ fw.tx
  unfolding write_from_host kick_uart try_kick_tx get_port
  write_from_host-tx i p n = ground arith

  host_data-IsSound : (i : ℕ) (p : Ptr) (n : ℕ) → IsSound (write_from_host i p n fw).1
  host_data-IsSound i p n =
      (subst IsTx (sym (write_from_host-tx i p n)) v.0, write_from_host-IsPorts fw v.1 i p n)

  status-IsSound : (hdr : Hdr) (s : Status) → IsSound (queue_status_rsp hdr s fw)
  unfolding queue_status_rsp
  status-IsSound hdr s = queue_rsp-IsSound hdr s none 0 fw v

  dispatch_sys-IsSound : (hdr : Hdr) (p : Ptr) (n : ℕ) → IsSound (dispatch_sys hdr p n fw)
  unfolding dispatch_sys
  dispatch_sys-IsSound hdr p n =
      if-cases IsSound (hdr.opcode == SysOp.get_dev_info) _ _
        (λ _.
          if-cases IsSound (not (n == 0)) _ _ (λ _. status-IsSound hdr Status.err_invalid_param)
            (λ _. queue_rsp-IsSound hdr Status.ok _ 8 fw v))
        (λ _.
          if-cases IsSound (hdr.opcode == SysOp.get_caps) _ _
            (λ _.
              if-cases IsSound (not (n == 0)) _ _ (λ _. status-IsSound hdr Status.err_invalid_param)
                (λ _. queue_rsp-IsSound hdr Status.ok _ 8 fw v))
            (λ _.
              if-cases IsSound (hdr.opcode == SysOp.heartbeat) _ _
                (λ _. queue_rsp-IsSound hdr Status.ok p n fw v)
                (λ _. status-IsSound hdr Status.err_unsupported_opcode)))

pub dispatch-IsSound :
    (ret : List Call → ℕ) (hdr : Hdr) (p : Ptr) (n : ℕ) (fw : Firmware)
    → IsSound fw
    → IsSound (dispatch ret hdr p n fw)
unfolding dispatch
dispatch-IsSound ret hdr p n fw v =
    let bad : (s : Status) → IsSound (queue_status_rsp hdr s fw) = status-IsSound fw v hdr in
    if-cases IsSound (hdr.ch_type == Channel.uart_ctrl) _ _
      (λ _.
        if-cases IsSound (not (hdr.msg_type == Msg.cmd)) _ _ (λ _. bad Status.err_invalid_param)
          (λ _. ctrl-IsSound fw v hdr p n))
      (λ _.
        if-cases IsSound (hdr.ch_type == Channel.uart_data) _ _
          (λ _.
            if-cases IsSound (not (hdr.msg_type == Msg.data_msg)) _ _
              (λ _. bad Status.err_invalid_param) (λ _. host_data-IsSound fw v hdr.ch_id p n))
          (λ _.
            if-cases IsSound (hdr.ch_type == Channel.ble_mgmt) _ _
              (λ _.
                if-cases IsSound (not (hdr.msg_type == Msg.cmd)) _ _
                  (λ _. bad Status.err_invalid_param) (λ _. handle_mgmt-IsSound ret hdr p n fw v))
              (λ _.
                if-cases IsSound (not (hdr.ch_type == Channel.sys) || not (hdr.ch_id == 0)) _ _
                  (λ _. bad Status.err_unsupported_ch)
                  (λ _.
                    if-cases IsSound (not (hdr.msg_type == Msg.cmd)) _ _
                      (λ _. bad Status.err_invalid_param)
                      (λ _. dispatch_sys-IsSound fw v hdr p n)))))

-- The scheduler: only a frame that the device takes leaves its queue.
module _ (c : TxCtx) (d : UsbDev) (v : IsTx c) where
  send_head-IsTx : (l : Lane) (f : Frame) → IsTx (send_head l f c d).0
  unfolding send_head
  send_head-IsTx l f = of (Dev.send_frame (some f.bytes) f.len d)
    where
      of :
          (r : Rc × UsbDev)
          → IsTx
              (elim r.0 as (λ _. TxCtx × UsbDev) [ ok ↦ (pop_queue l c, r.1) | err ↦ (c, r.1) ]).0
      of (ok, d') = pop_queue-IsTx l c v
      of (err, d') = v

  first-IsTx : IsTx (send_first c d).0
  unfolding send_first
  first-IsTx = of (peek_queue c.rsp_q) (peek_queue c.evt_q) (peek_queue c.data_q)
    where
      of :
          (p q r : Option Frame)
          → IsTx
              (elim p as (λ _. TxCtx × UsbDev) [
                | some f ↦ send_head rsp f c d
                | none ↦ (elim q as (λ _. TxCtx × UsbDev) [
                  | some f ↦ send_head evt f c d
                  | none ↦ elim r as (λ _. TxCtx × UsbDev) [
                    | some f ↦ send_head bulk f c d
                    | none ↦ (c, d)
                  ]
                ])
              ]).0
      of (some f) q r = send_head-IsTx rsp f
      of none (some f) r = send_head-IsTx evt f
      of none none (some f) = send_head-IsTx bulk f
      of none none none = v

  hint-IsTx : IsTx (send_hint_if_needed c d).0
  unfolding send_hint_if_needed
  hint-IsTx =
      if-cases (λ (r : TxCtx × UsbDev). IsTx r.0) (c.hint_dirty == 0 || not (Dev.can_send_hint d)) _
        _ (λ _. v) (λ _. of (Dev.send_hint (hint_of c) d))
    where
      taken : IsTx (hint_taken c)
      taken = record {
        rsp_ok = v.rsp_ok;
        evt_ok = v.evt_ok;
        data_ok = v.data_ok;
        seq_in = v.seq_in;
        pending_ok = v.pending_ok;
      }

      of :
          (r : Rc × UsbDev)
          → IsTx (elim r.0 as (λ _. TxCtx × UsbDev) [ ok ↦ (hint_taken c, r.1) | err ↦ (c, r.1) ]).0
      of (ok, d') = taken
      of (err, d') = v

  send_next_frame-IsTx : IsTx (send_next_frame c d).0
  unfolding send_next_frame
  send_next_frame-IsTx =
      if-cases (λ (r : TxCtx × UsbDev). IsTx r.0) (Dev.can_send_frame d) _ _ (λ _. first-IsTx)
        (λ _. v)

pub sched-IsSound : (fw : Firmware) → IsSound fw → IsSound (Sched.process fw)
unfolding Sched.process
sched-IsSound fw v =
    if-cases IsSound (not (Dev.is_configured fw.dev)) _ _ (λ _. v)
      (λ _. (send_next_frame-IsTx _ _ (hint-IsTx fw.tx fw.dev v.0), v.1))

module _ {W : Type 0} (handler : Hdr → Ptr → ℕ → W → W) (P : W → Type 0)
    (kept : (hdr : Hdr) (p : Ptr) (n : ℕ) (w : W) → P w → P (handler hdr p n w)) where
  dispatch_stage-kept :
      (s : RxState) (c : RxCtx) (w : W)
      → P w
      → P (dispatch_stage handler (record c { state = s }) w).1
  unfolding dispatch_stage
  dispatch_stage-kept idle c w q = q
  dispatch_stage-kept header c w q = q
  dispatch_stage-kept payload c w q = q
  dispatch_stage-kept dispatching c w q = kept c.hdr _ c.hdr.payload_len w q
  dispatch_stage-kept dropping c w q = q

  process_byte-kept : (x : ℕ) (c : RxCtx) (w : W) → P w → P (process_byte handler x c w).1
  unfolding process_byte
  process_byte-kept x c w q = of (begin_frame c).state
    where
      of :
          (s : RxState)
          → P
              (elim s as (λ _. RxCtx × W) [
                | dropping ↦ (drop_byte (begin_frame c), w)
                | _ ↦ dispatch_stage handler (accept_byte x c) w
              ]).1
      of idle = dispatch_stage-kept (accept_byte x c).state (accept_byte x c) w q
      of header = dispatch_stage-kept (accept_byte x c).state (accept_byte x c) w q
      of payload = dispatch_stage-kept (accept_byte x c).state (accept_byte x c) w q
      of dispatching = dispatch_stage-kept (accept_byte x c).state (accept_byte x c) w q
      of dropping = q

  feed-kept :
      (xs : List ℕ) (c : RxCtx) (w : W)
      → IsRx c
      → P w
      → (let (c', w') = feed handler xs c w in IsRx c' × P w')
  unfolding feed
  feed-kept [] c w v q = (v, q)
  feed-kept (x ∷ xs) c w v q =
      feed-kept xs _ _ (process_byte-IsRx handler x c w v) (process_byte-kept x c w q)

  pub process-kept :
      (c : RxCtx) (w : W)
      → IsRx c
      → IsValid c.raw_rb
      → P w
      → (let (c', w') = Rx.process handler c w in IsRx c' × IsValid c'.raw_rb × P w')
  process-kept c w v valid q =
      let (_, valid', same, out) = process-feed handler c w valid in
      let (rx, p) = feed-kept (contents c.raw_rb) c w v q in
      let d : RxCtx = (feed handler (contents c.raw_rb) c w).0 in
      let rx' : IsRx (record d { raw_rb = c.raw_rb }) = record {
        sized = rx.sized;
        progress = rx.progress;
      } in
      let rx'' = subst IsRx (sym same) rx' in
      (record { sized = rx''.sized; progress = rx''.progress }, valid', subst P (sym out) p)
