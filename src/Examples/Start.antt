-- ===== src/Examples/Start.antt =====
-- `APP_Init` on static variables that are all zero, and some inputs after it.
use ch32v20x_usb_mux_uart_bl.Prelude.{
  ℕ, ◌≡◌, refl, true, some, List, [], ◌∷◌, length-replicate, replicate,
}
use ch32v20x_usb_mux_uart_bl.Usb.Rx
use ch32v20x_usb_mux_uart_bl.App.Start.{Boot, System, app_init, init_parts, hal_init}
use ch32v20x_usb_mux_uart_bl.AppLog
use ch32v20x_usb_mux_uart_bl.Ble.Types.{link_established}
use ch32v20x_usb_mux_uart_bl.App.History.{
  Input, app_event, log_event, log_line, usb_interrupt, uart_interrupt, gap_event, run,
}
use ch32v20x_usb_mux_uart_bl.App.History.Invariant.{IsRunning, run-IsRunning}
use ch32v20x_usb_mux_uart_bl.Examples.Requests.{booted, accepts, peer}

abbrev boot : Boot
boot = record {
  ble_status = 0;
  timer_status = 0;
  hal_task = 1;
  log_task = 2;
  ble_task = 3;
  app_task = 4;
  tick = 100;
  banner = 91 ∷ 76 ∷ 79 ∷ 71 ∷ 93 ∷ [];
}

abbrev statics : System
statics = record {
  app = record {
    rx = Rx.init;
    beat = record { initialized = 0; led_on = 0; next_deadline_tick = 0 };
    fw = booted;
  };
  log = record {
    log = record { buf = replicate 2048 0; head = 0; tail = 0; dropped = 0 };
    task_id = 255;
    calls = [];
    written = [];
  };
  hal_task_id = 255;
}

-- The state that `APP_Init` leaves.
abbrev started : System
started = init_parts boot (
    hal_init 1
      (record statics { log = record (statics.log) { log = AppLog.init statics.log.log } }))

statics-started : app_init boot statics ≡ some started
unfolding app_init
statics-started = refl

-- A line is logged, a transfer comes on endpoint 3, the application task is woken by it, a USART
-- has a byte, and a link is reported.
abbrev inputs : List Input
inputs =
    log_line (91 ∷ 93 ∷ [])
    ∷ usb_interrupt 2 3 64
    ∷ app_event 200 2
    ∷ uart_interrupt 2 (some 65) true
    ∷ gap_event (link_established 0 5 0 peer)
    ∷ log_event 1
    ∷ []

run-IsRunning_example : IsRunning (run accepts inputs started)
run-IsRunning_example =
    run-IsRunning accepts inputs boot statics started (length-replicate {A = ℕ} 2048 0)
      statics-started
