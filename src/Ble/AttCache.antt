-- ===== src/Ble/AttCache.antt =====
-- App/usb_mux_dev/ble/ble_att_cache.c: what is known of the attributes of each peer.
use ch32v20x_usb_mux_uart_bl.Prelude.{ℕ, List, leb, if◌then◌else◌, set, replicate}
use ch32v20x_usb_mux_uart_bl.Firmware.{Firmware}
use ch32v20x_usb_mux_uart_bl.Ble.Types.{AttSlot}
use ch32v20x_usb_mux_uart_bl.Ble.Status.{max_links}

abbrev pub no_attributes : AttSlot
no_attributes = record { svc_start = 0; svc_end = 0; char_handle = 0; cccd_handle = 0 }

-- `BleAttCache_Init`
unfoldable pub init : List AttSlot
init = replicate max_links no_attributes

-- `BleAttCache_ResetSlot`
unfoldable pub reset_slot : ℕ → Firmware → Firmware
reset_slot slot fw =
    if leb max_links slot
    then fw
    else record fw { ble = record (fw.ble) { cache = set fw.ble.cache slot no_attributes } }
