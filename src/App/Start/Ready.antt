-- ===== src/App/Start/Ready.antt =====
-- `APP_Init` of App/usb_mux_dev/app_init.c and the invariants of the parts.
use ch32v20x_usb_mux_uart_bl.Prelude.{
  ℕ, ◌≡◌, ◌≢◌, ◌⊎◌, inl, inr, refl, Option, none, some, List, arith, length, ◌==◌, ==_iff,
  ==_false→ne, if-cases, get_or,
}
use ch32v20x_usb_mux_uart_bl.Hal.{set_event, register_task}
use ch32v20x_usb_mux_uart_bl.RingBuffer.Invariant.{IsValid}
use ch32v20x_usb_mux_uart_bl.Uart.Manager.Rings.{IsPorts, init-IsPort, zeros-IsValid}
use ch32v20x_usb_mux_uart_bl.Usb.Rx
use ch32v20x_usb_mux_uart_bl.Usb.Rx.Invariant.{IsRx}
use ch32v20x_usb_mux_uart_bl.Usb.Tx.Invariant.{IsTx, init-IsTx}
use ch32v20x_usb_mux_uart_bl.Ble.Host.Invariant.{IsBle}
use ch32v20x_usb_mux_uart_bl.Ble.History.{init-IsBle}
use ch32v20x_usb_mux_uart_bl.AppLog
use ch32v20x_usb_mux_uart_bl.AppLog.Print.{printf-IsLog, init-IsLog}
use ch32v20x_usb_mux_uart_bl.AppLog.Task
use ch32v20x_usb_mux_uart_bl.AppLog.Task.{LogTask}
use ch32v20x_usb_mux_uart_bl.AppLog.Bounds.{IsLog}
use ch32v20x_usb_mux_uart_bl.App.{init_task}
use ch32v20x_usb_mux_uart_bl.App.Start.{
  Boot, System, app_init, init_parts, hal_init, start_heartbeat,
}
use ch32v20x_usb_mux_uart_bl.Firmware.{emit, invalid_task_id}
use ch32v20x_usb_mux_uart_bl.Usb.Dev
use ch32v20x_usb_mux_uart_bl.Ble.Host
use ch32v20x_usb_mux_uart_bl.Ble.Link
use ch32v20x_usb_mux_uart_bl.Ble.Status.{success}

-- Each task has the identifier that TMOS gave it, the last call sets every event of the application
-- task, and the device is not configured.
pub record IsWoken (b : Boot) (s : System) : Type 0 where
  pub log_id : s.log.task_id ≡ b.log_task
  pub hal_id : s.hal_task_id ≡ b.hal_task
  pub ble_id : s.app.fw.ble.mgr.task_id ≡ b.ble_task
  pub app_id : s.app.fw.app_task_id ≡ b.app_task
  pub woken : get_or s.app.fw.calls 0 register_task ≡ set_event b.app_task 31
  pub unconfigured : s.app.fw.dev.configured ≡ 0

pub record IsSystem (s : System) : Type 0 where
  pub rx : IsRx s.app.rx
  pub raw : IsValid s.app.rx.raw_rb
  pub tx : IsTx s.app.fw.tx
  pub ports : IsPorts s.app.fw
  pub ble : IsBle s.app.fw.ble
  pub log : IsLog s.log.log

init-IsRx : IsRx Rx.init
unfolding Rx.init
init-IsRx = record { sized = refl; progress = tt }

init_raw-IsValid : IsValid Rx.init.raw_rb
unfolding Rx.init
init_raw-IsValid = zeros-IsValid 1024 (omega arith) (omega arith)

init_log-IsLog :
    (id : ℕ) (text : List ℕ) (t : LogTask) → IsLog t.log → IsLog (Task.init_task id text t).log
unfolding Task.init_task Task.print_line Task.kick_task
init_log-IsLog id text t v =
    if-cases (λ (t' : LogTask). IsLog t'.log) (length text == 0) _ _ (λ _. v)
      (λ _.
        if-cases (λ (t' : LogTask). IsLog t'.log) (id == invalid_task_id) _ _
          (λ _. printf-IsLog text t.log v) (λ _. printf-IsLog text t.log v))

init_log-task_id : (id : ℕ) (text : List ℕ) (t : LogTask) → (Task.init_task id text t).task_id ≡ id
unfolding Task.init_task Task.print_line Task.kick_task
init_log-task_id id text t =
    if-cases (λ (t' : LogTask). t'.task_id ≡ id) (length text == 0) _ _ (λ _. refl)
      (λ _.
        if-cases (λ (t' : LogTask). t'.task_id ≡ id) (id == invalid_task_id) _ _ (λ _. refl)
          (λ _. refl))

-- What `APP_Init` comes to: no return, or a system.
unfoldable pub Started : Boot → Option System → Type 0
Started b none = (b.ble_status ≢ 0) ⊎ (b.timer_status ≢ 0)
Started b (some s) = (b.ble_status ≡ 0) × (b.timer_status ≡ 0) × IsSystem s × IsWoken b s

init_parts-IsSystem : (b : Boot) (s : System) → IsLog s.log.log → IsSystem (init_parts b s)
unfolding init_parts init_task start_heartbeat emit
init_parts-IsSystem b s v = record {
  rx = init-IsRx;
  raw = init_raw-IsValid;
  tx = init-IsTx;
  ports = init-IsPort;
  ble = init-IsBle b.ble_task (start_heartbeat b.tick s).app.fw;
  log = init_log-IsLog b.log_task b.banner s.log v;
}

init_parts-IsWoken :
    (b : Boot) (s : System) → s.hal_task_id ≡ b.hal_task → IsWoken b (init_parts b s)
unfolding init_parts init_task start_heartbeat emit Host.init Link.init Dev.init
init_parts-IsWoken b s e = record {
  log_id = init_log-task_id b.log_task b.banner s.log;
  hal_id = e;
  ble_id = refl;
  app_id = refl;
  woken = refl;
  unconfigured = refl;
}

pub app_init-Started :
    (b : Boot) (s : System) → length s.log.log.buf ≡ 2048 → Started b (app_init b s)
unfolding app_init hal_init Started
app_init-Started b s sized =
    let cleared : System = record s { log = record (s.log) { log = AppLog.init s.log.log } } in
    let registered : System = hal_init b.hal_task cleared in
    if-cases (Started b) (b.ble_status == success) _ _
      (λ ble_ok.
        if-cases (Started b) (b.timer_status == success) _ _
          (λ timer_ok. (
            (==_iff b.ble_status 0).0 ble_ok,
            (==_iff b.timer_status 0).0 timer_ok,
            init_parts-IsSystem b registered (init-IsLog s.log.log sized),
            init_parts-IsWoken b registered refl,
          ))
          (λ failed. inr (==_false→ne b.timer_status 0 failed)))
      (λ failed. inl (==_false→ne b.ble_status 0 failed))
