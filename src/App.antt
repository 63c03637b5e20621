-- ===== src/App.antt =====
-- App/usb_mux_dev/app_task.c: the task that runs the parts. The state of the whole firmware is that
-- of the receiver, of the heartbeat and of what the handlers share.
pub mod Interrupts
pub mod Start
pub mod Sound
pub mod History
use ch32v20x_usb_mux_uart_bl.Prelude.{
  List, ℕ, ◌*◌, ◌/◌, Bool, ◌==◌, not, if◌then◌else◌, Ptr, bit_and, bit_or, bit_xor,
}
use ch32v20x_usb_mux_uart_bl.Proto.{Hdr}
use ch32v20x_usb_mux_uart_bl.Hal.{Call, led_write, start_task, set_event}
use ch32v20x_usb_mux_uart_bl.Heartbeat
use ch32v20x_usb_mux_uart_bl.Heartbeat.{HeartbeatCtx}
use ch32v20x_usb_mux_uart_bl.Firmware.{
  Firmware, emit, kick_usb_rx, evt_heartbeat, evt_usb_rx, evt_usb_tx, evt_uart, evt_poll,
}
use ch32v20x_usb_mux_uart_bl.Usb.Rx
use ch32v20x_usb_mux_uart_bl.Usb.Rx.{RxCtx}
use ch32v20x_usb_mux_uart_bl.Usb.Sched
use ch32v20x_usb_mux_uart_bl.Uart.Manager
use ch32v20x_usb_mux_uart_bl.Router.{dispatch}

pub record App : Type 0 where
  pub rx : RxCtx
  pub beat : HeartbeatCtx
  pub fw : Firmware

-- SYS_EVENT_MSG, wchble.h.
abbrev pub sys_event_msg : ℕ
sys_event_msg = 0x8000

-- MS1_TO_SYSTEM_TIME(x), wchble.h: units of 625 us.
abbrev pub ms_to_system_time : ℕ → ℕ
ms_to_system_time x = x * 1000 / 625

-- `USBRX_PushBytes`, with the event that it sets.
unfoldable pub usb_rx_push_bytes : Ptr → ℕ → App → App
usb_rx_push_bytes bytes len a =
    let (kick, rx) = Rx.push_bytes bytes len a.rx in
    record a { rx = rx; fw = if kick then kick_usb_rx a.fw else a.fw }

-- The work of an event, and the task that is started again with it.
abbrev pub restart : ℕ → ℕ → App → App
restart event ms a = record a {
  fw = emit (start_task a.fw.app_task_id event (ms_to_system_time ms)) a.fw;
}

unfoldable pub run_heartbeat : ℕ → App → App
run_heartbeat now a =
    let (toggled, beat) = Heartbeat.process now a.beat in
    record a {
      beat = beat;
      fw = if toggled then emit (led_write (Heartbeat.output_level beat.led_on)) a.fw else a.fw;
    }

-- `AppTask_Init`, with the identifier that TMOS gives the task.
unfoldable pub init_task : ℕ → App → App
init_task task_id a = record a {
  fw =
      emit
        (set_event task_id
          (bit_or (bit_or (bit_or (bit_or evt_heartbeat evt_usb_rx) evt_usb_tx) evt_uart) evt_poll))
        (record (a.fw) { app_task_id = task_id });
}

abbrev pub has_bit : ℕ → ℕ → Bool
has_bit events bit = not (bit_and events bit == 0)

module _ (ret : List Call → ℕ) where
  -- `AppTask_RunIo`
  unfoldable pub run_io : App → App
  run_io a =
      let (rx, fw) = Rx.process (dispatch ret) a.rx a.fw in
      record a { rx = rx; fw = Sched.process (Manager.process fw) }

  -- `AppTask_ProcessEvent` at tick `now`: one event is served, and the events left are returned. The
  -- messages that SYS_EVENT_MSG announces are only freed.
  unfoldable pub process_event : ℕ → ℕ → App → ℕ × App
  unfolding run_io run_heartbeat
  process_event now events a =
      if has_bit events sys_event_msg
      then (bit_xor events sys_event_msg, a)
      else (if has_bit events evt_heartbeat
          then (bit_xor events evt_heartbeat, restart evt_heartbeat 500 (run_heartbeat now a))
          else (if has_bit events evt_usb_rx
              then (bit_xor events evt_usb_rx, run_io a)
              else (if has_bit events evt_usb_tx
                  then (bit_xor events evt_usb_tx, run_io a)
                  else (if has_bit events evt_uart
                      then (bit_xor events evt_uart, run_io a)
                      else (if has_bit events evt_poll
                          then (bit_xor events evt_poll, restart evt_poll 1 (run_io a))
                          else (0, a))))))
