-- ===== src/Examples/Ports.antt =====
-- An open port, with bytes that wait in both directions, and the interrupts of the firmware.
use ch32v20x_usb_mux_uart_bl.Examples.Requests.{ble_booted, open_req, baud}
use ch32v20x_usb_mux_uart_bl.Prelude.{
  ℕ, ◌+◌, ◌-◌, ◌≡◌, refl, true, some, none, List, [], ◌∷◌, ◌++◌, arith, length, take, drop, min,
  u32, read_bytes, ◌==◌, if◌then◌else◌,
}
use ch32v20x_usb_mux_uart_bl.Fifo
use ch32v20x_usb_mux_uart_bl.Proto.{Status}
use ch32v20x_usb_mux_uart_bl.RingBuffer
use ch32v20x_usb_mux_uart_bl.RingBuffer.{RingBuffer}
use ch32v20x_usb_mux_uart_bl.RingBuffer.Invariant
use ch32v20x_usb_mux_uart_bl.RingBuffer.Refine.{contents, popped}
use ch32v20x_usb_mux_uart_bl.Usb.Dev
use ch32v20x_usb_mux_uart_bl.Usb.Rx
use ch32v20x_usb_mux_uart_bl.Usb.Tx
use ch32v20x_usb_mux_uart_bl.Uart.Types.{UartPort, opened}
use ch32v20x_usb_mux_uart_bl.Uart.Manager
use ch32v20x_usb_mux_uart_bl.Uart.Manager.{port_at, write_from_host, forward_rx}
use ch32v20x_usb_mux_uart_bl.Uart.Manager.Traffic.{IsOpen, write_from_host_lem}
use ch32v20x_usb_mux_uart_bl.Uart.Manager.Forward.{forward_rx_lem, sent, lost}
use ch32v20x_usb_mux_uart_bl.Uart.Irq.{common_irq, tx_call, common_irq-transmit}
use ch32v20x_usb_mux_uart_bl.Uart.Manager.Rings.{IsPorts}
use ch32v20x_usb_mux_uart_bl.Uart.History.{
  Input, request, host_data, poll, interrupt, run, run-IsPorts,
}
use ch32v20x_usb_mux_uart_bl.Firmware.{Firmware}
use ch32v20x_usb_mux_uart_bl.App.{App}
use ch32v20x_usb_mux_uart_bl.App.Interrupts.{usb_irq, usb_irq-ep3}

abbrev two_bytes : RingBuffer
two_bytes = record { buf = some (6 ∷ 0 ∷ 0 ∷ 5 ∷ []); size = 4; head = 1; tail = 3 }

two_bytes-IsValid : Invariant.IsValid two_bytes
two_bytes-IsValid = omega arith

abbrev port : UartPort
port = record {
  logic_port = 1;
  phy_uart_id = 2;
  state = opened;
  rx_rb = two_bytes;
  tx_rb = two_bytes;
  baudrate = 9600;
  rx_bytes = 2;
  tx_bytes = 0;
  drop_rx_bytes = 0;
  drop_tx_bytes = 4294967295;
  data_bits = 8;
  parity = 0;
  stop_bits = 1;
}

abbrev running : Firmware
running = record {
  calls = [];
  app_task_id = 1;
  dev = Dev.init;
  tx = Tx.init;
  uart = Manager.init_port 0 ∷ port ∷ Manager.init_port 2 ∷ Manager.init_port 3 ∷ [];
  ble = ble_booted;
}

running-IsOpen : IsOpen 1 running
running-IsOpen = record { exists = omega arith; table = refl; opened_now = refl }

abbrev greeting : List ℕ
greeting = 104 ∷ 105 ∷ []

write_from_host_lem_example :
    let p = port_at 1 running in
    let (s, fw') = write_from_host 1 (some greeting) 2 running in
    let p' = port_at 1 fw' in
    let k = min 2 (RingBuffer.space p.tx_rb) in
    (s ≡ (if k == 2 then Status.ok else Status.err_overflow))
    × (contents p'.tx_rb ≡ contents p.tx_rb ++ read_bytes greeting 0 k)
    × (p'.drop_tx_bytes ≡ u32 (p.drop_tx_bytes + (2 - k)))
    × Invariant.IsValid p'.tx_rb
write_from_host_lem_example =
    write_from_host_lem 1 running running-IsOpen greeting 2 two_bytes-IsValid (omega arith)

forward_rx_lem_example :
    let p = port_at 1 running in
    let chunk = take 64 (contents p.rx_rb) in
    let (rc, c) = sent 1 chunk running.tx in
    let fw' = forward_rx 1 running in
    let p' = port_at 1 fw' in
    (contents p'.rx_rb ≡ drop 64 (contents p.rx_rb))
    × Invariant.IsValid p'.rx_rb
    × (fw'.tx ≡ c)
    × (p'.drop_rx_bytes ≡ u32 (p.drop_rx_bytes + lost rc (length chunk)))
forward_rx_lem_example = forward_rx_lem 1 running running-IsOpen two_bytes-IsValid (omega arith)

common_irq-transmit_example :
    let fw' = common_irq 2 none true running in
    let (x, rest) = popped (Fifo.pop (contents (port_at 1 running).tx_rb)) in
    (fw'.calls ≡ tx_call 1 x ∷ running.calls) × (contents (port_at 1 fw').tx_rb ≡ rest)
common_irq-transmit_example = common_irq-transmit 1 running running-IsOpen two_bytes-IsValid

abbrev app : App
app = record {
  rx = record Rx.init { raw_rb = two_bytes };
  beat = record { initialized = 0; led_on = 0; next_deadline_tick = 0 };
  fw = running;
}

usb_irq-ep3_example :
    let a' = usb_irq 2 3 5 app in
    (contents a'.rx.raw_rb
      ≡ contents app.rx.raw_rb
        ++ read_bytes app.fw.dev.ep3_dma 0 (min (min 5 64) (RingBuffer.space app.rx.raw_rb)))
    × Invariant.IsValid a'.rx.raw_rb
usb_irq-ep3_example = usb_irq-ep3 app 5 two_bytes-IsValid 2 3 refl refl refl refl (omega arith)

-- Port 1 is opened, gets a byte from the host, and is interrupted for a byte each way.
abbrev events : List Input
events =
    request open_req (some baud) 4
    ∷ host_data 1 (some greeting) 2
    ∷ interrupt 2 (some 65) true
    ∷ poll
    ∷ []

run-IsPorts_example : IsPorts (run events (record running { uart = Manager.init }))
run-IsPorts_example = run-IsPorts events running
