-- ===== src/Usb.antt =====
-- The USB side of the firmware, App/usb_mux_dev/usb: the transmit queues, the device endpoints and
-- the receive state machine.
pub mod Dev
pub mod Rx
pub mod Sched
pub mod Tx
