-- ===== src/Proto/UartOp.antt =====
-- `vp_uart_opcode_t`, vendor_proto.h.
use ch32v20x_usb_mux_uart_bl.Prelude.{ℕ}

abbrev pub get_port_cap : ℕ
get_port_cap = 0x01

abbrev pub get_port_map : ℕ
get_port_map = 0x02

abbrev pub open_port : ℕ
open_port = 0x03

abbrev pub close_port : ℕ
close_port = 0x04

abbrev pub set_line_coding : ℕ
set_line_coding = 0x05

abbrev pub set_flow_ctrl : ℕ
set_flow_ctrl = 0x06

abbrev pub set_modem_signals : ℕ
set_modem_signals = 0x07

abbrev pub get_modem_status : ℕ
get_modem_status = 0x08

abbrev pub send_break : ℕ
send_break = 0x09

abbrev pub flush_rx : ℕ
flush_rx = 0x0a

abbrev pub flush_tx : ℕ
flush_tx = 0x0b

abbrev pub get_stats : ℕ
get_stats = 0x0c
