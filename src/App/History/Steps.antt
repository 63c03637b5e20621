-- ===== src/App/History/Steps.antt =====
-- What each input leaves of the invariants that the parts share.
use ch32v20x_usb_mux_uart_bl.Prelude.{
  ℕ, sym, subst, if-cases, not, ◌==◌, ◌&&◌, arith, List, Bool, Option, some, none, bit_and, length,
  if◌then◌else◌,
}
use ch32v20x_usb_mux_uart_bl.Hal.{Call}
use ch32v20x_usb_mux_uart_bl.Heartbeat
use ch32v20x_usb_mux_uart_bl.Firmware.{
  evt_heartbeat, evt_usb_rx, evt_usb_tx, evt_uart, evt_poll, invalid_task_id, Firmware, emit,
  kick_usb_rx, kick_usb_tx,
}
use ch32v20x_usb_mux_uart_bl.RingBuffer.Invariant.{IsValid}
use ch32v20x_usb_mux_uart_bl.RingBuffer.Transfer.{write_lem}
use ch32v20x_usb_mux_uart_bl.Usb.Dev.{UsbDev, ep1_in_done, ep2_in_done, reset_data_endpoints}
use ch32v20x_usb_mux_uart_bl.Usb.Dev.Control.{handle_ep0_setup, handle_ep0_in, ep0_out_done}
use ch32v20x_usb_mux_uart_bl.Usb.Rx
use ch32v20x_usb_mux_uart_bl.Usb.Rx.{RxCtx}
use ch32v20x_usb_mux_uart_bl.Usb.Rx.Invariant.{IsRx}
use ch32v20x_usb_mux_uart_bl.Uart.Manager
use ch32v20x_usb_mux_uart_bl.Uart.Manager.Queued.{process-IsTx, common_irq-tx}
use ch32v20x_usb_mux_uart_bl.Uart.Manager.Rings.Traffic.{process-IsPorts, common_irq-IsPorts}
use ch32v20x_usb_mux_uart_bl.Uart.Irq.{common_irq}
use ch32v20x_usb_mux_uart_bl.Usb.Tx.Invariant.{IsTx}
use ch32v20x_usb_mux_uart_bl.Router.{dispatch}
use ch32v20x_usb_mux_uart_bl.AppLog
use ch32v20x_usb_mux_uart_bl.AppLog.Bounds.{IsLog, process-waiting}
use ch32v20x_usb_mux_uart_bl.AppLog.Print.{printf-IsLog}
use ch32v20x_usb_mux_uart_bl.AppLog.Task
use ch32v20x_usb_mux_uart_bl.AppLog.Task.{LogTask}
use ch32v20x_usb_mux_uart_bl.App.{
  App, process_event, run_io, run_heartbeat, restart, usb_rx_push_bytes, has_bit, sys_event_msg,
}
use ch32v20x_usb_mux_uart_bl.App.Interrupts.{
  usb_irq, handle_transfer, by_token, on_dev, ep3_out_done, ep3_len, ep2_in,
}
use ch32v20x_usb_mux_uart_bl.App.Start.{hal_process_event}
use ch32v20x_usb_mux_uart_bl.App.Sound.{IsSound, elsewhere}
use ch32v20x_usb_mux_uart_bl.App.Sound.Dispatch.{dispatch-IsSound, sched-IsSound, process-kept}

-- The receiver and its ring, the transmit queues, and the rings of the ports.
pub record IsApp (a : App) : Type 0 where
  pub rx : IsRx a.rx
  pub raw : IsValid a.rx.raw_rb
  pub sound : IsSound a.fw

-- A change of the shared state alone.
pub with_fw-IsApp : (a : App) (fw : Firmware) → IsApp a → IsSound fw → IsApp (record a { fw = fw })
with_fw-IsApp a fw v w = record { rx = v.rx; raw = v.raw; sound = w }

kick_usb_rx-IsSound : (fw : Firmware) → IsSound fw → IsSound (kick_usb_rx fw)
unfolding kick_usb_rx
kick_usb_rx-IsSound fw v = elsewhere fw (kick_usb_rx fw) (ground arith) (ground arith) v

kick_usb_tx-IsSound : (fw : Firmware) → IsSound fw → IsSound (kick_usb_tx fw)
unfolding kick_usb_tx
kick_usb_tx-IsSound fw v = elsewhere fw (kick_usb_tx fw) (ground arith) (ground arith) v

restart-IsApp : (a : App) (event ms : ℕ) → IsApp a → IsApp (restart event ms a)
unfolding emit
restart-IsApp a event ms v = record { rx = v.rx; raw = v.raw; sound = v.sound }

push-IsRx :
    (bs : List ℕ) (n : ℕ) (c : RxCtx)
    → IsRx c
    → IsValid c.raw_rb
    → IsRx (Rx.push_bytes (some bs) n c).1 × IsValid (Rx.push_bytes (some bs) n c).1.raw_rb
unfolding Rx.push_bytes
push-IsRx bs n c v raw =
    if-cases (λ (r : Bool × RxCtx). IsRx r.1 × IsValid r.1.raw_rb) (n == 0) _ _ (λ _. (v, raw))
      (λ _.
        (let (_, _, w, _) = write_lem c.raw_rb raw bs n in
          (record { sized = v.sized; progress = v.progress }, w)))

module _ (ret : List Call → ℕ) (a : App) (v : IsApp a) where
  run_io-IsApp : IsApp (run_io ret a)
  unfolding run_io
  run_io-IsApp =
      let (rx, raw, w) =
        process-kept (dispatch ret) IsSound (dispatch-IsSound ret) a.rx a.fw v.rx v.raw v.sound in
      let fw : Firmware = (Rx.process (dispatch ret) a.rx a.fw).1 in
      record {
        rx = rx;
        raw = raw;
        sound = sched-IsSound (Manager.process fw) (process-IsTx fw w.0, process-IsPorts fw w.1);
      }

  run_heartbeat-IsApp : (now : ℕ) → IsApp (run_heartbeat now a)
  unfolding run_heartbeat emit
  run_heartbeat-IsApp now = record {
    rx = v.rx;
    raw = v.raw;
    sound = if-cases IsSound (Heartbeat.process now a.beat).0 _ _ (λ _. v.sound) (λ _. v.sound);
  }

  pub process_event-IsApp : (now events : ℕ) → IsApp (process_event ret now events a).1
  unfolding process_event
  process_event-IsApp now events =
      if-cases (λ (r : ℕ × App). IsApp r.1) (has_bit events sys_event_msg) _ _ (λ _. v)
        (λ _.
          if-cases (λ (r : ℕ × App). IsApp r.1) (has_bit events evt_heartbeat) _ _
            (λ _. restart-IsApp (run_heartbeat now a) evt_heartbeat 500 (run_heartbeat-IsApp now))
            (λ _.
              if-cases (λ (r : ℕ × App). IsApp r.1) (has_bit events evt_usb_rx) _ _
                (λ _. run_io-IsApp)
                (λ _.
                  if-cases (λ (r : ℕ × App). IsApp r.1) (has_bit events evt_usb_tx) _ _
                    (λ _. run_io-IsApp)
                    (λ _.
                      if-cases (λ (r : ℕ × App). IsApp r.1) (has_bit events evt_uart) _ _
                        (λ _. run_io-IsApp)
                        (λ _.
                          if-cases (λ (r : ℕ × App). IsApp r.1) (has_bit events evt_poll) _ _
                            (λ _. restart-IsApp (run_io ret a) evt_poll 1 run_io-IsApp)
                            (λ _. v))))))

module _ (a : App) (v : IsApp a) where
  ep3-IsApp : (len : ℕ) → IsApp (ep3_out_done len a)
  unfolding ep3_out_done usb_rx_push_bytes
  ep3-IsApp len =
      let bs : List ℕ = a.fw.dev.ep3_dma in
      let n : ℕ = ep3_len len in
      let p = Rx.push_bytes (some bs) n a.rx in
      let (rx, raw) = push-IsRx bs n a.rx v.rx v.raw in
      let fw : Firmware = if p.0 then kick_usb_rx a.fw else a.fw in
      let w : IsSound fw =
        if-cases IsSound p.0 _ _ (λ _. kick_usb_rx-IsSound a.fw v.sound) (λ _. v.sound) in
      record { rx = rx; raw = raw; sound = kick_usb_rx-IsSound fw w }

  ep2-IsApp : IsApp (ep2_in a)
  unfolding ep2_in
  ep2-IsApp =
      let r = ep2_in_done a.fw.dev in
      let fw : Firmware = record (a.fw) { dev = r.1 } in
      with_fw-IsApp a (if r.0 then kick_usb_tx fw else fw) v
        (if-cases IsSound r.0 _ _ (λ _. kick_usb_tx-IsSound fw v.sound) (λ _. v.sound))

  pub on_dev-IsApp : (f : UsbDev → UsbDev) → IsApp (on_dev f a)
  on_dev-IsApp f = record { rx = v.rx; raw = v.raw; sound = v.sound }

  by_token-IsApp : (token endpoint len : ℕ) → IsApp (by_token token endpoint len a)
  by_token-IsApp token endpoint len =
      if-cases IsApp (token == 0x30) _ _ (λ _. on_dev-IsApp handle_ep0_setup)
        (λ _.
          if-cases IsApp (endpoint == 0 && token == 0x20) _ _ (λ _. on_dev-IsApp handle_ep0_in)
            (λ _.
              if-cases IsApp (endpoint == 0 && token == 0) _ _ (λ _. on_dev-IsApp ep0_out_done)
                (λ _.
                  if-cases IsApp (endpoint == 1 && token == 0x20) _ _
                    (λ _. on_dev-IsApp ep1_in_done)
                    (λ _.
                      if-cases IsApp (endpoint == 3 && token == 0) _ _ (λ _. ep3-IsApp len)
                        (λ _.
                          if-cases IsApp (endpoint == 2 && token == 0x20) _ _ (λ _. ep2-IsApp)
                            (λ _. v))))))

pub usb_irq-IsApp : (flag st len : ℕ) (a : App) → IsApp a → IsApp (usb_irq flag st len a)
unfolding usb_irq handle_transfer
usb_irq-IsApp flag st len a v =
    let b : App = if not (bit_and flag 1 == 0) then on_dev reset_data_endpoints a else a in
    let w : IsApp b =
      if-cases IsApp (not (bit_and flag 1 == 0)) _ _ (λ _. on_dev-IsApp a v reset_data_endpoints)
        (λ _. v) in
    if-cases IsApp (not (bit_and flag 2 == 0)) _ _
      (λ _. by_token-IsApp b w (bit_and st 0x30) (bit_and st 0x0f) len) (λ _. w)

pub print_line-IsLog :
    (text : List ℕ) (t : LogTask) → IsLog t.log → IsLog (Task.print_line text t).log
unfolding Task.print_line Task.kick_task
print_line-IsLog text t v =
    if-cases (λ (t' : LogTask). IsLog t'.log) (length text == 0) _ _ (λ _. v)
      (λ _.
        if-cases (λ (t' : LogTask). IsLog t'.log) (t.task_id == invalid_task_id) _ _
          (λ _. printf-IsLog text t.log v) (λ _. printf-IsLog text t.log v))

pub log_event-IsLog :
    (events : ℕ) (t : LogTask) → IsLog t.log → IsLog (Task.process_event events t).1.log
unfolding Task.process_event Task.flush
log_event-IsLog events t v =
    let (_, w, _, _) = process-waiting t.log v in
    if-cases (λ (r : ℕ × LogTask). IsLog r.1.log) (has_bit events sys_event_msg) _ _ (λ _. v)
      (λ _.
        if-cases (λ (r : ℕ × LogTask). IsLog r.1.log) (has_bit events Task.evt_flush) _ _
          (λ _.
            if-cases (λ (t' : LogTask). IsLog t'.log) (AppLog.has_data (AppLog.process t.log).1) _ _
              (λ _. w) (λ _. w))
          (λ _. v))

pub common_irq-IsSound :
    (usart : ℕ) (rx : Option ℕ) (tx_empty : Bool) (fw : Firmware)
    → IsSound fw
    → IsSound (common_irq usart rx tx_empty fw)
common_irq-IsSound usart rx tx_empty fw v = (
  subst IsTx (sym (common_irq-tx usart rx tx_empty fw)) v.0,
  common_irq-IsPorts usart rx tx_empty fw v.1,
)

pub hal_event-IsSound :
    (events : ℕ) (msg : Option (List ℕ)) (fw : Firmware)
    → IsSound fw
    → IsSound (hal_process_event events msg fw).1
unfolding hal_process_event emit
hal_event-IsSound events none fw v =
    if-cases (λ (r : ℕ × Firmware). IsSound r.1) (has_bit events sys_event_msg) _ _ (λ _. v)
      (λ _. v)
hal_event-IsSound events (some m) fw v =
    if-cases (λ (r : ℕ × Firmware). IsSound r.1) (has_bit events sys_event_msg) _ _ (λ _. v)
      (λ _. v)
