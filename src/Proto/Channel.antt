-- ===== src/Proto/Channel.antt =====
-- `vp_channel_type_t`, vendor_proto.h.
use ch32v20x_usb_mux_uart_bl.Prelude.{ℕ}

abbrev pub sys : ℕ
sys = 0x00

abbrev pub uart_ctrl : ℕ
uart_ctrl = 0x01

abbrev pub uart_data : ℕ
uart_data = 0x02

abbrev pub ble_mgmt : ℕ
ble_mgmt = 0x10

abbrev pub ble_conn : ℕ
ble_conn = 0x11

abbrev pub net_mgmt : ℕ
net_mgmt = 0x20

abbrev pub net_data : ℕ
net_data = 0x21
