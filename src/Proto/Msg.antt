-- ===== src/Proto/Msg.antt =====
-- `vp_msg_type_t`, vendor_proto.h.
use ch32v20x_usb_mux_uart_bl.Prelude.{ℕ}

abbrev pub cmd : ℕ
cmd = 0x01

abbrev pub rsp : ℕ
rsp = 0x02

abbrev pub evt : ℕ
evt = 0x03

abbrev pub data_msg : ℕ
data_msg = 0x04
