-- ===== src/Uart/Manager.antt =====
-- App/usb_mux_dev/uart/uart_manager.c: the ports, the control requests of the host, and the bytes
-- between the host and the interrupt handlers.
pub mod Coding
pub mod Traffic
pub mod Forward
pub mod Requests
pub mod Rings
pub mod Queued
use ch32v20x_usb_mux_uart_bl.Prelude.{
  ℕ, zero, suc, ◌+◌, ◌-◌, ◌*◌, ◌/◌, ◌%◌, Bool, true, false, Option, none, some, List, [], ◌∷◌, ◌++◌,
  ◌||◌, ◌&&◌, not, ltb, leb, ◌==◌, if◌then◌else◌, get_or, set, length, replicate, u8, u16, u32, Ptr,
  Rc, ok, err,
}
use ch32v20x_usb_mux_uart_bl.Proto.{Hdr, Status}
use ch32v20x_usb_mux_uart_bl.Proto.Channel
use ch32v20x_usb_mux_uart_bl.RingBuffer
use ch32v20x_usb_mux_uart_bl.RingBuffer.{RingBuffer}
use ch32v20x_usb_mux_uart_bl.Firmware.{Firmware, kick_uart}
use ch32v20x_usb_mux_uart_bl.Usb.Sched.{queue_data}
use ch32v20x_usb_mux_uart_bl.Uart.Types.{UartPort, UartState, disabled, closed, opened}
use ch32v20x_usb_mux_uart_bl.Uart.MapConfig.{map_cfg, uart_port_count}
use ch32v20x_usb_mux_uart_bl.Uart.Port.{try_kick_tx}

-- UART_RX_RB_SIZE and UART_TX_RB_SIZE
abbrev pub rb_size : ℕ
rb_size = 256

-- UART_USB_CHUNK_SIZE
abbrev pub usb_chunk_size : ℕ
usb_chunk_size = 64

-- A port as the `memset` of `UartMgr_Init` and the body of its loop leave it.
unfoldable pub init_port : ℕ → UartPort
init_port port = record {
  logic_port = port;
  phy_uart_id = (map_cfg port).phy_uart_id;
  state = if not ((map_cfg port).enable == 0) then closed else disabled;
  rx_rb = RingBuffer.init (some (replicate rb_size 0)) rb_size;
  tx_rb = RingBuffer.init (some (replicate rb_size 0)) rb_size;
  baudrate = 115200;
  rx_bytes = 0;
  tx_bytes = 0;
  drop_rx_bytes = 0;
  drop_tx_bytes = 0;
  data_bits = 8;
  parity = 0;
  stop_bits = 1;
}

init_from : ℕ → ℕ → List UartPort
init_from zero port = []
init_from (suc left) port = init_port port ∷ init_from left (port + 1)

-- `UartMgr_Init`
unfoldable pub init : List UartPort
unfolding init_from init_port
init = init_from uart_port_count 0

-- `g_uart_ports[i]`; the code reads it only at an `i` below the number of ports.
abbrev pub port_at : ℕ → Firmware → UartPort
port_at i fw = get_or fw.uart i (init_port 0)

abbrev pub set_port : ℕ → UartPort → Firmware → Firmware
set_port i p fw = record fw { uart = set fw.uart i p }

-- `UartMgr_GetPort` returns null for a number out of range.
unfoldable pub get_port : ℕ → Firmware → Option UartPort
get_port i fw = if leb uart_port_count i then none else some (port_at i fw)

abbrev pub is_open : UartState → Bool
is_open opened = true
is_open _ = false

abbrev pub is_disabled : UartState → Bool
is_disabled disabled = true
is_disabled _ = false

-- What `UartMgr_WriteFromHost` stores: the bytes that fit, and the count of those that do not.
unfoldable pub accept_tx : Ptr → ℕ → UartPort → ℕ × UartPort
accept_tx payload payload_len p =
    let (written, rb) = RingBuffer.write p.tx_rb payload payload_len in
    (
      written,
      record p {
        tx_rb = rb;
        drop_tx_bytes =
            if ltb written payload_len
            then u32 (p.drop_tx_bytes + (payload_len - written))
            else p.drop_tx_bytes;
      },
    )

unfoldable pub write_from_host : ℕ → Ptr → ℕ → Firmware → Status × Firmware
unfolding get_port accept_tx
write_from_host i payload payload_len fw = elim (get_port i fw) [
  | none ↦ (Status.err_uart_map_invalid, fw)
  | some p ↦
      (if is_disabled p.state
        then (Status.err_uart_map_invalid, fw)
        else (if not (is_open p.state)
            then (Status.err_uart_not_open, fw)
            else (let (written, p') = accept_tx payload payload_len p in
                (
                  if written == payload_len then Status.ok else Status.err_overflow,
                  kick_uart (try_kick_tx i (set_port i p' fw)),
                ))))
]

-- The body of the loop of `UartMgr_Process` for an open port: at most 64 received bytes go to the
-- host as one data frame; if the queue refuses the frame, they are counted as dropped.
unfoldable pub forward_rx : ℕ → Firmware → Firmware
forward_rx i fw =
    let p : UartPort = port_at i fw in
    let (bytes, rb) = RingBuffer.read p.rx_rb usb_chunk_size in
    let read : UartPort = record p { rx_rb = rb } in
    let fw' : Firmware = set_port i read fw in
    if length bytes == 0
    then fw'
    else (let (rc, sent) = queue_data Channel.uart_data i (some bytes) (length bytes) fw' in
        elim rc [
          | ok ↦ sent
          | err ↦
              (set_port i (record read { drop_rx_bytes = u32 (read.drop_rx_bytes + length bytes) })
                sent)
        ])

unfoldable pub process_port : ℕ → Firmware → Firmware
unfolding forward_rx
process_port i fw = if is_open (port_at i fw).state then forward_rx i fw else fw

process_from : ℕ → ℕ → Firmware → Firmware
process_from zero port fw = fw
process_from (suc left) port fw = process_from left (port + 1) (process_port port fw)

-- `UartMgr_Process`
unfoldable pub process : Firmware → Firmware
unfolding process_from process_port
process = process_from uart_port_count 0

-- What `UartMgr_IrqRxByte` does to an open port; the Boolean tells whether the byte was kept.
unfoldable pub receive_byte : ℕ → UartPort → Bool × UartPort
receive_byte x p =
    let (rc, rb) = RingBuffer.push_byte p.rx_rb x in
    elim rc [
      | ok ↦ (true, record p { rx_rb = rb; rx_bytes = u32 (p.rx_bytes + 1) })
      | err ↦ (false, record p { rx_rb = rb; drop_rx_bytes = u32 (p.drop_rx_bytes + 1) })
    ]

unfoldable pub irq_rx_byte : ℕ → ℕ → Firmware → Firmware
unfolding get_port receive_byte
irq_rx_byte i x fw = elim (get_port i fw) [
  | none ↦ fw
  | some p ↦
      (if not (is_open p.state)
        then fw
        else (let (kept, p') = receive_byte x p in
            if kept then kick_uart (set_port i p' fw) else set_port i p' fw))
]

-- What `UartMgr_IrqTxNextByte` does to an open port; the option is what goes through `data`.
unfoldable pub next_tx_byte : UartPort → Option ℕ × UartPort
next_tx_byte p =
    let (x, rb) = RingBuffer.pop_byte p.tx_rb in
    elim x [
      | some b ↦ (some b, record p { tx_rb = rb; tx_bytes = u32 (p.tx_bytes + 1) })
      | none ↦ (none, record p { tx_rb = rb })
    ]

unfoldable pub irq_tx_next_byte : ℕ → Firmware → Option ℕ × Firmware
unfolding get_port next_tx_byte
irq_tx_next_byte i fw = elim (get_port i fw) [
  | none ↦ (none, fw)
  | some p ↦
      (if not (is_open p.state)
        then (none, fw)
        else (let (x, p') = next_tx_byte p in (x, set_port i p' fw)))
]
