-- ===== src/Uart/History.antt =====
-- The UART ports over their whole life: the requests and the data of the host, the rounds of
-- `UartMgr_Process` and the interrupts after `UartMgr_Init`, in any order.
use ch32v20x_usb_mux_uart_bl.Prelude.{ℕ, List, [], ◌∷◌, Bool, Option, Ptr}
use ch32v20x_usb_mux_uart_bl.Proto.{Hdr}
use ch32v20x_usb_mux_uart_bl.Firmware.{Firmware}
use ch32v20x_usb_mux_uart_bl.Uart.Manager
use ch32v20x_usb_mux_uart_bl.Uart.Manager.{write_from_host}
use ch32v20x_usb_mux_uart_bl.Uart.Manager.Requests.{handle_ctrl}
use ch32v20x_usb_mux_uart_bl.Uart.Irq.{common_irq}
use ch32v20x_usb_mux_uart_bl.Uart.Manager.Rings.{IsPorts, init-IsPort}
use ch32v20x_usb_mux_uart_bl.Uart.Manager.Rings.Requested.{handle_ctrl-IsPorts}
use ch32v20x_usb_mux_uart_bl.Uart.Manager.Rings.Traffic.{
  write_from_host-IsPorts, process-IsPorts, common_irq-IsPorts,
}

-- An interrupt brings the received byte if RXNE is set, and whether TXE is set.
pub data Input : Type 0 where
  request : Hdr → Ptr → ℕ → Input
  host_data : ℕ → Ptr → ℕ → Input
  poll : Input
  interrupt : ℕ → Option ℕ → Bool → Input

unfoldable pub step : Input → Firmware → Firmware
step (request hdr p n) fw = handle_ctrl hdr p n fw
step (host_data port p n) fw = (write_from_host port p n fw).1
step poll fw = Manager.process fw
step (interrupt usart rx tx_empty) fw = common_irq usart rx tx_empty fw

unfoldable pub run : List Input → Firmware → Firmware
run [] fw = fw
run (i ∷ is) fw = run is (step i fw)

step-IsPorts : (i : Input) (fw : Firmware) → IsPorts fw → IsPorts (step i fw)
unfolding step
step-IsPorts (request hdr p n) fw v = handle_ctrl-IsPorts hdr p n fw v
step-IsPorts (host_data port p n) fw v = write_from_host-IsPorts fw v port p n
step-IsPorts poll fw v = process-IsPorts fw v
step-IsPorts (interrupt usart rx tx_empty) fw v = common_irq-IsPorts usart rx tx_empty fw v

run_from-IsPorts : (is : List Input) (fw : Firmware) → IsPorts fw → IsPorts (run is fw)
unfolding run
run_from-IsPorts [] fw v = v
run_from-IsPorts (i ∷ is) fw v = run_from-IsPorts is (step i fw) (step-IsPorts i fw v)

-- After `UartMgr_Init`, whatever control requests, data of the host, rounds of `UartMgr_Process` and
-- USART interrupts follow, in any order and with any contents, both rings of every port stay valid:
-- their indices lie in their storage, which is as long as they say.
pub run-IsPorts :
    (is : List Input) (fw : Firmware) → IsPorts (run is (record fw { uart = Manager.init }))
run-IsPorts is fw = run_from-IsPorts is (record fw { uart = Manager.init }) init-IsPort
