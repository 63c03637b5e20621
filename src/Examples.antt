-- ===== src/Examples.antt =====
-- Concrete inputs on which the theorems about the firmware are applied.
mod Common
mod Frames
mod Rx
mod Tx
mod Requests
mod Ports
mod Ble
mod Start
