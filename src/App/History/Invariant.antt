-- ===== src/App/History/Invariant.antt =====
-- The invariants of the parts over the whole life of the firmware.
use ch32v20x_usb_mux_uart_bl.Prelude.{ℕ, ◌≡◌, subst, some, List, [], ◌∷◌, length}
use ch32v20x_usb_mux_uart_bl.Hal.{Call}
use ch32v20x_usb_mux_uart_bl.AppLog.Bounds.{IsLog}
use ch32v20x_usb_mux_uart_bl.App.Start.{Boot, System, app_init}
use ch32v20x_usb_mux_uart_bl.App.Start.Ready.{Started, app_init-Started}
use ch32v20x_usb_mux_uart_bl.App.Sound.Host
use ch32v20x_usb_mux_uart_bl.App.History.{
  Input, app_event, log_event, log_line, hal_event, usb_interrupt, usb_controller, uart_interrupt,
  gap_event, rssi, ble_event, step, run,
}
use ch32v20x_usb_mux_uart_bl.App.History.Steps.{
  IsApp, with_fw-IsApp, process_event-IsApp, on_dev-IsApp, usb_irq-IsApp, print_line-IsLog,
  log_event-IsLog, common_irq-IsSound, hal_event-IsSound,
}

pub record IsRunning (s : System) : Type 0 where
  pub app : IsApp s.app
  pub log : IsLog s.log.log

step-IsRunning :
    (ret : List Call → ℕ) (i : Input) (s : System) → IsRunning s → IsRunning (step ret i s)
unfolding step
step-IsRunning ret (app_event now events) s v = record {
  app = process_event-IsApp ret s.app v.app now events;
  log = v.log;
}
step-IsRunning ret (log_event events) s v = record {
  app = v.app;
  log = log_event-IsLog events s.log v.log;
}
step-IsRunning ret (log_line text) s v = record {
  app = v.app;
  log = print_line-IsLog text s.log v.log;
}
step-IsRunning ret (hal_event events msg) s v = record {
  app = with_fw-IsApp s.app _ v.app (hal_event-IsSound events msg s.app.fw v.app.sound);
  log = v.log;
}
step-IsRunning ret (usb_interrupt flag st len) s v = record {
  app = usb_irq-IsApp flag st len s.app v.app;
  log = v.log;
}
step-IsRunning ret (usb_controller f) s v = record { app = on_dev-IsApp s.app v.app f; log = v.log }
step-IsRunning ret (uart_interrupt usart rx tx_empty) s v = record {
  app = with_fw-IsApp s.app _ v.app (common_irq-IsSound usart rx tx_empty s.app.fw v.app.sound);
  log = v.log;
}
step-IsRunning ret (gap_event e) s v = record {
  app = with_fw-IsApp s.app _ v.app (Host.event_cb-IsSound ret s.app.fw v.app.sound e);
  log = v.log;
}
step-IsRunning ret (rssi handle value) s v = record {
  app = with_fw-IsApp s.app _ v.app (Host.rssi_cb-IsSound s.app.fw v.app.sound handle value);
  log = v.log;
}
step-IsRunning ret (ble_event events ms) s v = record {
  app = with_fw-IsApp s.app _ v.app (Host.process_event-IsSound ret events ms s.app.fw v.app.sound);
  log = v.log;
}

run_from-IsRunning :
    (ret : List Call → ℕ) (is : List Input) (s : System) → IsRunning s → IsRunning (run ret is s)
unfolding run
run_from-IsRunning ret [] s v = v
run_from-IsRunning ret (i ∷ is) s v =
    run_from-IsRunning ret is (step ret i s) (step-IsRunning ret i s v)

Started-IsRunning : (b : Boot) (s : System) → Started b (some s) → IsRunning s
unfolding Started
Started-IsRunning b s (_, _, v, _) = record {
  app = record { rx = v.rx; raw = v.raw; sound = (v.tx, v.ports) };
  log = v.log;
}

-- Whenever `APP_Init` returns, on static variables whose log buffer has its 2048 bytes, then whatever
-- task events, log lines, interrupts, BLE events and messages follow, in any order, whatever frames
-- the host sends, whatever the USB controller does to the endpoints and whatever the BLE library
-- returns: the receiver stays in its invariant with a valid ring, the three transmit queues stay well
-- formed, both rings of every UART port stay valid, and the indices of the log ring stay in its
-- buffer.
pub run-IsRunning :
    (ret : List Call → ℕ) (is : List Input) (b : Boot) (s s' : System)
    → length s.log.log.buf ≡ 2048
    → app_init b s ≡ some s'
    → IsRunning (run ret is s')
run-IsRunning ret is b s s' sized up =
    run_from-IsRunning ret is s'
      (Started-IsRunning b s' (subst (Started b) up (app_init-Started b s sized)))
