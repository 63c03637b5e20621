-- ===== src/Firmware.antt =====
-- The state that the parts of the firmware share: the device and transmit contexts, the UART ports,
-- the BLE manager, the task to which events go, and the calls of outside code, the latest first.
use ch32v20x_usb_mux_uart_bl.Prelude.{ℕ, List, ◌∷◌, ◌==◌, if◌then◌else◌}
use ch32v20x_usb_mux_uart_bl.Hal.{Call, set_event}
use ch32v20x_usb_mux_uart_bl.Usb.Dev.{UsbDev}
use ch32v20x_usb_mux_uart_bl.Usb.Tx.{TxCtx}
use ch32v20x_usb_mux_uart_bl.Uart.Types.{UartPort}
use ch32v20x_usb_mux_uart_bl.Ble.Types.{Ble}

pub record Firmware : Type 0 where
  pub calls : List Call
  pub app_task_id : ℕ
  pub dev : UsbDev
  pub tx : TxCtx
  pub uart : List UartPort
  pub ble : Ble

unfoldable pub emit : Call → Firmware → Firmware
emit c fw = record fw { calls = c ∷ fw.calls }

-- INVALID_TASK_ID, wchble.h.
abbrev pub invalid_task_id : ℕ
invalid_task_id = 0xff

-- The events of app_task.c.
abbrev pub evt_heartbeat : ℕ
evt_heartbeat = 1

abbrev pub evt_usb_rx : ℕ
evt_usb_rx = 2

abbrev pub evt_usb_tx : ℕ
evt_usb_tx = 4

abbrev pub evt_uart : ℕ
evt_uart = 8

abbrev pub evt_poll : ℕ
evt_poll = 0x10

-- `AppTask_SetEvent`
unfoldable pub app_set_event : ℕ → Firmware → Firmware
unfolding emit
app_set_event event fw =
    if fw.app_task_id == invalid_task_id then fw else emit (set_event fw.app_task_id event) fw

-- `AppTask_KickUsbRx`, `AppTask_KickUsbTx`, `AppTask_KickUart` and `AppTask_KickPoll`.
unfoldable pub kick_usb_rx : Firmware → Firmware
unfolding app_set_event
kick_usb_rx = app_set_event evt_usb_rx

unfoldable pub kick_usb_tx : Firmware → Firmware
unfolding app_set_event
kick_usb_tx = app_set_event evt_usb_tx

unfoldable pub kick_uart : Firmware → Firmware
unfolding app_set_event
kick_uart = app_set_event evt_uart

unfoldable pub kick_poll : Firmware → Firmware
unfolding app_set_event
kick_poll = app_set_event evt_poll
