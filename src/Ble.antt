-- ===== src/Ble.antt =====
-- App/usb_mux_dev/ble: the BLE manager, its links and the attribute cache.
pub mod Types
pub mod Status
pub mod AttCache
pub mod Report
pub mod Link
pub mod Gatt
pub mod Host
pub mod Mgmt
pub mod History
