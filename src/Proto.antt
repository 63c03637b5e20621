-- ===== src/Proto.antt =====
-- App/usb_mux_dev/proto/vendor_proto.h: the header of a frame and the enumerations. A channel, a
-- message type or an opcode is read from a byte that may hold any value, so these are numbers; a
-- status is only made by the firmware, so it is a data type with a code.
pub mod Channel
pub mod Msg
pub mod UartOp
pub mod BleOp
pub mod SysOp
pub mod Codec
use ch32v20x_usb_mux_uart_bl.Prelude.{ℕ, IsU8, IsU16}

abbrev pub vp_magic : ℕ
vp_magic = 0xA55A

abbrev pub vp_version : ℕ
vp_version = 1

abbrev pub vp_irq_hint_version : ℕ
vp_irq_hint_version = 1

abbrev pub vp_header_len : ℕ
vp_header_len = 24

-- `vp_status_t`
pub data Status : Type 0 where
  ok err_bad_magic err_bad_version err_bad_len err_bad_hdr_crc err_bad_payload_crc : Status
  err_unsupported_ch err_unsupported_opcode err_invalid_param err_invalid_state err_busy : Status
  err_no_resource err_timeout err_overflow err_uart_map_invalid err_uart_not_open : Status
  err_ble_slot_invalid err_ble_not_connected err_ble_disc_not_ready err_ble_att : Status
  err_internal : Status

abbrev pub status_code : Status → ℕ
status_code ok = 0x00
status_code err_bad_magic = 0x01
status_code err_bad_version = 0x02
status_code err_bad_len = 0x03
status_code err_bad_hdr_crc = 0x04
status_code err_bad_payload_crc = 0x05
status_code err_unsupported_ch = 0x06
status_code err_unsupported_opcode = 0x07
status_code err_invalid_param = 0x08
status_code err_invalid_state = 0x09
status_code err_busy = 0x0a
status_code err_no_resource = 0x0b
status_code err_timeout = 0x0c
status_code err_overflow = 0x0d
status_code err_uart_map_invalid = 0x10
status_code err_uart_not_open = 0x11
status_code err_ble_slot_invalid = 0x20
status_code err_ble_not_connected = 0x21
status_code err_ble_disc_not_ready = 0x22
status_code err_ble_att = 0x23
status_code err_internal = 0x30

-- `vp_hdr_t`
pub record Hdr : Type 0 where
  pub magic : ℕ
  pub version : ℕ
  pub header_len : ℕ
  pub total_len : ℕ
  pub seq : ℕ
  pub ref_seq : ℕ
  pub ch_type : ℕ
  pub ch_id : ℕ
  pub msg_type : ℕ
  pub opcode : ℕ
  pub flags : ℕ
  pub status : ℕ
  pub payload_len : ℕ
  pub header_crc16 : ℕ
  pub reserved : ℕ

-- Each field of a header fits its C type.
pub record IsHdr (h : Hdr) : Type 0 where
  pub magic_in : IsU16 h.magic
  pub version_in : IsU8 h.version
  pub header_len_in : IsU8 h.header_len
  pub total_len_in : IsU16 h.total_len
  pub seq_in : IsU16 h.seq
  pub ref_seq_in : IsU16 h.ref_seq
  pub ch_type_in : IsU8 h.ch_type
  pub ch_id_in : IsU8 h.ch_id
  pub msg_type_in : IsU8 h.msg_type
  pub opcode_in : IsU8 h.opcode
  pub flags_in : IsU16 h.flags
  pub status_in : IsU16 h.status
  pub payload_len_in : IsU16 h.payload_len
  pub header_crc16_in : IsU16 h.header_crc16
  pub reserved_in : IsU16 h.reserved

-- `vp_irq_hint_t`
pub record IrqHint : Type 0 where
  pub version : ℕ
  pub urgent_flags : ℕ
  pub pending_bitmap : ℕ
  pub dropped_bitmap : ℕ
  pub reserved : ℕ
