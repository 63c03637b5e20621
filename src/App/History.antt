-- ===== src/App/History.antt =====
-- The whole firmware after `APP_Init`: the events of its tasks, the interrupts, the events of the BLE
-- library and what the USB controller does to its registers and buffers, in any order.
pub mod Steps
pub mod Invariant
use ch32v20x_usb_mux_uart_bl.Prelude.{ℕ, Bool, List, [], ◌∷◌, Option, some, none}
use ch32v20x_usb_mux_uart_bl.Hal.{Call}
use ch32v20x_usb_mux_uart_bl.Firmware.{Firmware}
use ch32v20x_usb_mux_uart_bl.Usb.Dev.{UsbDev}
use ch32v20x_usb_mux_uart_bl.Uart.Irq.{common_irq}
use ch32v20x_usb_mux_uart_bl.Ble.Types.{GapEvent, GattMsg}
use ch32v20x_usb_mux_uart_bl.Ble.Host
use ch32v20x_usb_mux_uart_bl.AppLog.Task
use ch32v20x_usb_mux_uart_bl.App
use ch32v20x_usb_mux_uart_bl.App.Interrupts.{usb_irq, on_dev}
use ch32v20x_usb_mux_uart_bl.App.Start.{System, hal_process_event}

-- Task events come with the tick and the event bits; interrupts with the registers that they read.
pub data Input : Type 0 where
  app_event : ℕ → ℕ → Input
  log_event : ℕ → Input
  log_line : List ℕ → Input
  hal_event : ℕ → Option (List ℕ) → Input
  usb_interrupt : ℕ → ℕ → ℕ → Input
  usb_controller : (UsbDev → UsbDev) → Input
  uart_interrupt : ℕ → Option ℕ → Bool → Input
  gap_event : GapEvent → Input
  rssi : ℕ → ℕ → Input
  ble_event : ℕ → List (Option GattMsg) → Input

abbrev on_app : (App.App → App.App) → System → System
on_app f s = record s { app = f s.app }

abbrev on_fw : (Firmware → Firmware) → System → System
on_fw f s = on_app (λ a. record a { fw = f a.fw }) s

unfoldable pub step : (List Call → ℕ) → Input → System → System
step ret (app_event now events) s = on_app (λ a. (App.process_event ret now events a).1) s
step ret (log_event events) s = record s { log = (Task.process_event events s.log).1 }
step ret (log_line text) s = record s { log = Task.print_line text s.log }
step ret (hal_event events msg) s = on_fw (λ fw. (hal_process_event events msg fw).1) s
step ret (usb_interrupt flag st len) s = on_app (usb_irq flag st len) s
step ret (usb_controller f) s = on_app (on_dev f) s
step ret (uart_interrupt usart rx tx_empty) s = on_fw (common_irq usart rx tx_empty) s
step ret (gap_event e) s = on_fw (Host.event_cb ret e) s
step ret (rssi handle value) s = on_fw (Host.rssi_cb handle value) s
step ret (ble_event events ms) s = on_fw (λ fw. (Host.process_event ret events ms fw).1) s

unfoldable pub run : (List Call → ℕ) → List Input → System → System
run ret [] s = s
run ret (i ∷ is) s = run ret is (step ret i s)
