-- ===== src/Proto/BleOp.antt =====
-- `vp_ble_opcode_t`, vendor_proto.h: the requests, and the events from `evt_scan_rsp` on.
use ch32v20x_usb_mux_uart_bl.Prelude.{ℕ}

abbrev pub get_cap : ℕ
get_cap = 0x01

abbrev pub set_scan_param : ℕ
set_scan_param = 0x02

abbrev pub scan_start : ℕ
scan_start = 0x03

abbrev pub scan_stop : ℕ
scan_stop = 0x04

abbrev pub connect : ℕ
connect = 0x05

abbrev pub disconnect : ℕ
disconnect = 0x06

abbrev pub get_conn_state : ℕ
get_conn_state = 0x07

abbrev pub discover_services : ℕ
discover_services = 0x08

abbrev pub discover_characteristics : ℕ
discover_characteristics = 0x09

abbrev pub discover_descriptors : ℕ
discover_descriptors = 0x0a

abbrev pub read : ℕ
read = 0x0b

abbrev pub write_req : ℕ
write_req = 0x0c

abbrev pub write_cmd : ℕ
write_cmd = 0x0d

abbrev pub subscribe : ℕ
subscribe = 0x0e

abbrev pub unsubscribe : ℕ
unsubscribe = 0x0f

abbrev pub exchange_mtu : ℕ
exchange_mtu = 0x10

abbrev pub read_rssi : ℕ
read_rssi = 0x11

abbrev pub update_conn_param : ℕ
update_conn_param = 0x12

abbrev pub evt_scan_rsp : ℕ
evt_scan_rsp = 0x80

abbrev pub evt_conn_state : ℕ
evt_conn_state = 0x81

abbrev pub evt_service_found : ℕ
evt_service_found = 0x82

abbrev pub evt_char_found : ℕ
evt_char_found = 0x83

abbrev pub evt_desc_found : ℕ
evt_desc_found = 0x84

abbrev pub evt_read_result : ℕ
evt_read_result = 0x85

abbrev pub evt_write_result : ℕ
evt_write_result = 0x86

abbrev pub evt_notify_data : ℕ
evt_notify_data = 0x87

abbrev pub evt_indicate_data : ℕ
evt_indicate_data = 0x88

abbrev pub evt_rssi_result : ℕ
evt_rssi_result = 0x89
