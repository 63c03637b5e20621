-- ===== src/Examples/Requests.antt =====
-- Requests of the host to uart_manager.c and vendor_router.c.
use ch32v20x_usb_mux_uart_bl.Prelude.{
  ◌↔◌, ℕ, ◌≡◌, refl, some, List, [], ◌∷◌, arith, inl, length, replicate,
}
use ch32v20x_usb_mux_uart_bl.Proto.{Hdr}
use ch32v20x_usb_mux_uart_bl.Usb.Dev
use ch32v20x_usb_mux_uart_bl.Usb.Tx
use ch32v20x_usb_mux_uart_bl.Usb.Sched.Delivered.{Replied, Answered}
use ch32v20x_usb_mux_uart_bl.Usb.Tx.Invariant.{init-IsTx}
use ch32v20x_usb_mux_uart_bl.Uart.Manager
use ch32v20x_usb_mux_uart_bl.Uart.Manager.Coding.{
  LineCoding, IsCoding, parsed, parse_line_coding, coding_bytes, parse_line_coding_iff, Tells,
  parse-coding_bytes,
}
use ch32v20x_usb_mux_uart_bl.Uart.Manager.Requests.{handle_ctrl}
use ch32v20x_usb_mux_uart_bl.Uart.Manager.Requests.Lifecycle.{handle_ctrl-Replied}
use ch32v20x_usb_mux_uart_bl.Firmware.{Firmware}
use ch32v20x_usb_mux_uart_bl.Hal.{Call, gatt_bm_alloc}
use ch32v20x_usb_mux_uart_bl.Ble.Types.{Ble}
use ch32v20x_usb_mux_uart_bl.Ble.AttCache.{no_attributes}
use ch32v20x_usb_mux_uart_bl.Ble.Link.{init_link}
use ch32v20x_usb_mux_uart_bl.Ble.Host.{init_mgr}
use ch32v20x_usb_mux_uart_bl.Uart.Manager.{port_at}
use ch32v20x_usb_mux_uart_bl.Uart.Manager.Requests.States.{Moves, handle_ctrl-Moves}
use ch32v20x_usb_mux_uart_bl.Router.{dispatch}
use ch32v20x_usb_mux_uart_bl.Router.Replies.{dispatch-Answered}
use ch32v20x_usb_mux_uart_bl.Examples.Frames.{ping}

-- The BLE state after `BleHostMgr_Init`.
abbrev pub ble_booted : Ble
ble_booted = record {
  mgr = init_mgr 2;
  link_task_id = 2;
  links = init_link 0 ∷ init_link 1 ∷ init_link 2 ∷ [];
  cache = replicate 3 no_attributes;
}

abbrev pub booted : Firmware
booted = record {
  calls = [];
  app_task_id = 1;
  dev = Dev.init;
  tx = Tx.init;
  uart = Manager.init;
  ble = ble_booted;
}

four_ports : length booted.uart ≡ 4
unfolding Manager.init
four_ports = refl

-- An open request on port 1.
abbrev pub open_req : Hdr
open_req = record (ping 4) { ch_type = 1; ch_id = 1; opcode = 3 }

abbrev pub baud : List ℕ
baud = 0 ∷ 0xc2 ∷ 1 ∷ 0 ∷ []

-- A request to connect slot 1 to a peer, on the channel of the BLE manager.
abbrev pub connect_req : Hdr
connect_req = record (ping 8) { ch_type = 0x10; opcode = 5 }

abbrev pub peer : List ℕ
peer = 1 ∷ 0 ∷ 0xa1 ∷ 0xa2 ∷ 0xa3 ∷ 0xa4 ∷ 0xa5 ∷ 0xa6 ∷ []

-- A BLE library that accepts every call and has a block at address 0x100 for every request.
abbrev pub accepts : List Call → ℕ
accepts (gatt_bm_alloc conn opcode len ∷ cs) = 0x100
accepts _ = 0

handle_ctrl-Replied_example :
    Replied open_req booted.tx (handle_ctrl open_req (some baud) 4 booted).tx
handle_ctrl-Replied_example = handle_ctrl-Replied open_req (some baud) 4 booted init-IsTx

dispatch-Answered_example :
    Answered connect_req booted.tx (dispatch accepts connect_req (some peer) 8 booted).tx
dispatch-Answered_example =
    dispatch-Answered accepts connect_req (some peer) 8 booted init-IsTx refl (omega arith)
      (λ e. cc)

abbrev coding : LineCoding
coding = record { baudrate = 115200; data_bits = 8; parity = 0; stop_bits = 1 }

coding-IsCoding : IsCoding coding
coding-IsCoding = record {
  baud_pos = omega arith;
  data_bits_in = inl refl;
  parity_in = omega arith;
  stop_bits_in = inl refl;
}

parse_line_coding_iff_example :
    (parse_line_coding (some baud) 4 ≡ parsed coding) ↔ Tells (some baud) 4 coding
parse_line_coding_iff_example = parse_line_coding_iff (some baud) 4 coding

parse-coding_bytes_example : parse_line_coding (some (coding_bytes coding)) 8 ≡ parsed coding
parse-coding_bytes_example = parse-coding_bytes coding coding-IsCoding (omega arith)

handle_ctrl-Moves_example :
    Moves (port_at 1 booted).state (port_at 1 (handle_ctrl open_req (some baud) 4 booted)).state
handle_ctrl-Moves_example = handle_ctrl-Moves 1 open_req (some baud) 4 booted four_ports
