-- ===== src/Uart.antt =====
-- The UART side of the firmware, App/usb_mux_dev/uart and config/uart_map_config.c.
pub mod Types
pub mod MapConfig
pub mod Port
pub mod Manager
pub mod Irq
pub mod History
