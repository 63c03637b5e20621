-- ===== src/Proto/SysOp.antt =====
-- `vp_sys_opcode_t`, vendor_router.h.
use ch32v20x_usb_mux_uart_bl.Prelude.{ℕ}

abbrev pub get_dev_info : ℕ
get_dev_info = 0x01

abbrev pub get_caps : ℕ
get_caps = 0x02

abbrev pub heartbeat : ℕ
heartbeat = 0x07
