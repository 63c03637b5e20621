-- ===== src/App/Start.antt =====
-- App/usb_mux_dev/app_init.c: `APP_Init` runs the set-up functions of the parts in order. What the BLE
-- library and TMOS return is given by `Boot`; the clock, flash and interrupt registers are left out.
pub mod Ready
use ch32v20x_usb_mux_uart_bl.Prelude.{ℕ, Option, none, some, List, ◌==◌, if◌then◌else◌, bit_xor}
use ch32v20x_usb_mux_uart_bl.Hal.{register_task, msg_deallocate}
use ch32v20x_usb_mux_uart_bl.Heartbeat
use ch32v20x_usb_mux_uart_bl.Firmware.{Firmware, emit, invalid_task_id}
use ch32v20x_usb_mux_uart_bl.Usb.Rx
use ch32v20x_usb_mux_uart_bl.Usb.Tx
use ch32v20x_usb_mux_uart_bl.Usb.Dev
use ch32v20x_usb_mux_uart_bl.Uart.Manager
use ch32v20x_usb_mux_uart_bl.Ble.Host
use ch32v20x_usb_mux_uart_bl.Ble.Status.{success}
use ch32v20x_usb_mux_uart_bl.AppLog
use ch32v20x_usb_mux_uart_bl.AppLog.Task
use ch32v20x_usb_mux_uart_bl.AppLog.Task.{LogTask}
use ch32v20x_usb_mux_uart_bl.App.{App, init_task, has_bit, sys_event_msg}

-- The static variables of the program.
pub record System : Type 0 where
  pub app : App
  pub log : LogTask
  pub hal_task_id : ℕ

-- What `BLE_LibInit` and `TMOS_TimerInit` return, what each `TMOS_ProcessEventRegister` returns, the
-- tick at which the heartbeat starts, and the text of the first log line.
pub record Boot : Type 0 where
  pub ble_status : ℕ
  pub timer_status : ℕ
  pub hal_task : ℕ
  pub log_task : ℕ
  pub ble_task : ℕ
  pub app_task : ℕ
  pub tick : ℕ
  pub banner : List ℕ

abbrev pub with_fw : Firmware → System → System
with_fw fw s = record s { app = record (s.app) { fw = fw } }

-- `HAL_ProcessEvent`: the events left; one message, if there is one, is freed.
unfoldable pub hal_process_event : ℕ → Option (List ℕ) → Firmware → ℕ × Firmware
hal_process_event events msg fw =
    if has_bit events sys_event_msg
    then (bit_xor events sys_event_msg, elim msg [ none ↦ fw | some _ ↦ emit msg_deallocate fw ])
    else (0, fw)

-- `HAL_Init` up to `APP_BleTimeInit`.
unfoldable pub hal_init : ℕ → System → System
hal_init task_id s = with_fw (emit register_task s.app.fw) (record s { hal_task_id = task_id })

-- `Heartbeat_Init` and the level that it gives the LED.
unfoldable pub start_heartbeat : ℕ → System → System
start_heartbeat now s =
    let (beat, call) = Heartbeat.init now s.app.beat in
    record s { app = record (s.app) { beat = beat; fw = emit call s.app.fw } }

-- The calls of `APP_Init` from `AppLog_TaskInit` on.
unfoldable pub init_parts : Boot → System → System
unfolding start_heartbeat
init_parts b s =
    let logged : System = record s { log = Task.init_task b.log_task b.banner s.log } in
    let beating : System = start_heartbeat b.tick logged in
    let fw : Firmware = Host.init b.ble_task beating.app.fw in
    let parts : App = record (beating.app) {
      rx = Rx.init;
      fw = record fw { tx = Tx.init; uart = Manager.init };
    } in
    let app : App = init_task b.app_task parts in
    record beating { app = record app { fw = record (app.fw) { dev = Dev.init } } }

-- `APP_Init`. It does not return if the BLE library or its timer fails to start.
unfoldable pub app_init : Boot → System → Option System
unfolding hal_init init_parts
app_init b s =
    let cleared : System = record s { log = record (s.log) { log = AppLog.init s.log.log } } in
    if b.ble_status == success
    then (if b.timer_status == success
        then some (init_parts b (hal_init b.hal_task cleared))
        else none)
    else none
