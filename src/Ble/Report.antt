-- ===== src/Ble/Report.antt =====
-- The events that App/usb_mux_dev/ble/ble_link_fsm.c sends to the host: the `BleLink_Report*`
-- functions. A null buffer only comes with length 0.
pub mod Still
pub mod Bounds
use ch32v20x_usb_mux_uart_bl.Prelude.{
  ℕ, ◌+◌, ◌-◌, ltb, none, some, List, [], ◌∷◌, ◌++◌, if◌then◌else◌, replicate, read_bytes,
  write_bytes, u8, u16, Ptr,
}
use ch32v20x_usb_mux_uart_bl.Proto.Codec.{lo, hi}
use ch32v20x_usb_mux_uart_bl.Proto.Channel
use ch32v20x_usb_mux_uart_bl.Proto.BleOp
use ch32v20x_usb_mux_uart_bl.Firmware.{Firmware}
use ch32v20x_usb_mux_uart_bl.Usb.Sched.{queue_evt}

-- BLE_LINK_UUID_MAX_LEN
abbrev pub uuid_max_len : ℕ
uuid_max_len = 16

-- The `payload` of a report of a value: APP_USB_MAX_FRAME_LEN - VP_HEADER_LEN.
abbrev pub payload_size : ℕ
payload_size = 488

-- `copy_len`, with the limit that the caller sets.
abbrev pub copy_len : ℕ → ℕ → ℕ
copy_len limit len = if ltb limit len then limit else len

-- The bytes of `memcpy(dst, src, n)`; there are none behind null.
abbrev pub copied : Ptr → ℕ → List ℕ
copied none n = []
copied (some bs) n = read_bytes bs 0 n

-- `BleLink_CopyUuid`: the length that it returns and the 16 bytes at `dst`.
unfoldable pub copy_uuid : Ptr → ℕ → ℕ × List ℕ
copy_uuid src len =
    let n : ℕ = copy_len uuid_max_len len in
    (n, write_bytes (replicate uuid_max_len 0) 0 (copied src n))

abbrev pub service_payload : ℕ → ℕ → ℕ → Ptr → ℕ → List ℕ
service_payload start_handle end_handle status uuid uuid_len =
    let (n, block) = copy_uuid uuid uuid_len in
    lo start_handle
    ∷ hi start_handle
    ∷ lo end_handle
    ∷ hi end_handle
    ∷ lo status
    ∷ hi status
    ∷ u8 n
    ∷ 0
    ∷ block

-- `BleLink_ReportServiceFound`
unfoldable pub report_service_found : ℕ → ℕ → ℕ → ℕ → Ptr → ℕ → Firmware → Firmware
unfolding copy_uuid
report_service_found slot start_handle end_handle status uuid uuid_len fw =
    (queue_evt Channel.ble_conn slot BleOp.evt_service_found
      (some (service_payload start_handle end_handle status uuid uuid_len)) 24 fw).1

abbrev pub char_payload : ℕ → ℕ → ℕ → ℕ → Ptr → ℕ → List ℕ
char_payload decl_handle value_handle status properties uuid uuid_len =
    let (n, block) = copy_uuid uuid uuid_len in
    lo decl_handle
    ∷ hi decl_handle
    ∷ lo value_handle
    ∷ hi value_handle
    ∷ lo status
    ∷ hi status
    ∷ properties
    ∷ u8 n
    ∷ block

-- `BleLink_ReportCharFound`
unfoldable pub report_char_found : ℕ → ℕ → ℕ → ℕ → ℕ → Ptr → ℕ → Firmware → Firmware
unfolding copy_uuid
report_char_found slot decl_handle value_handle status properties uuid uuid_len fw =
    (queue_evt Channel.ble_conn slot BleOp.evt_char_found
      (some (char_payload decl_handle value_handle status properties uuid uuid_len)) 24 fw).1

abbrev pub desc_payload : ℕ → ℕ → Ptr → ℕ → List ℕ
desc_payload handle status uuid uuid_len =
    let (n, block) = copy_uuid uuid uuid_len in
    lo handle ∷ hi handle ∷ lo status ∷ hi status ∷ u8 n ∷ 0 ∷ block

-- `BleLink_ReportDescFound`
unfoldable pub report_desc_found : ℕ → ℕ → ℕ → Ptr → ℕ → Firmware → Firmware
unfolding copy_uuid
report_desc_found slot handle status uuid uuid_len fw =
    (queue_evt Channel.ble_conn slot BleOp.evt_desc_found
      (some (desc_payload handle status uuid uuid_len)) 22 fw).1

abbrev pub read_payload : ℕ → ℕ → Ptr → ℕ → List ℕ
read_payload handle status buf n =
    lo handle ∷ hi handle ∷ lo status ∷ hi status ∷ lo n ∷ hi n ∷ copied buf n

-- `BleLink_ReportReadResult`
unfoldable pub report_read_result : ℕ → ℕ → ℕ → Ptr → ℕ → Firmware → Firmware
report_read_result slot handle status buf len fw =
    let n : ℕ = copy_len (payload_size - 6) len in
    (queue_evt Channel.ble_conn slot BleOp.evt_read_result (some (read_payload handle status buf n))
      (u16 (6 + n)) fw).1

-- `BleLink_ReportWriteResult`
unfoldable pub report_write_result : ℕ → ℕ → ℕ → ℕ → Firmware → Firmware
report_write_result slot handle status op fw =
    (queue_evt Channel.ble_conn slot BleOp.evt_write_result
      (some (lo handle ∷ hi handle ∷ lo status ∷ hi status ∷ op ∷ 0 ∷ [])) 6 fw).1

abbrev pub value_payload : ℕ → Ptr → ℕ → List ℕ
value_payload handle buf n = lo handle ∷ hi handle ∷ lo n ∷ hi n ∷ copied buf n

-- `BleLink_ReportValueEvent`
unfoldable pub report_value_event : ℕ → ℕ → ℕ → Ptr → ℕ → Firmware → Firmware
report_value_event slot opcode value_handle buf len fw =
    let n : ℕ = copy_len (payload_size - 4) len in
    (queue_evt Channel.ble_conn slot opcode (some (value_payload value_handle buf n)) (u16 (4 + n))
      fw).1
