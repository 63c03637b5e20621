-- ===== src/Uart/MapConfig.antt =====
-- App/usb_mux_dev/config/uart_map_config.c: which USART and pins serve a logic port.
use ch32v20x_usb_mux_uart_bl.Prelude.{ℕ, List, [], ◌∷◌, get_or}

-- APP_UART_PORT_COUNT, board_caps.h; UART_LOGIC_PORT_COUNT is the same.
abbrev pub uart_port_count : ℕ
uart_port_count = 4

-- The addresses of the GPIO ports and the masks of the pins in use, ch32v20x.h and ch32v20x_gpio.h.
abbrev pub gpioa : ℕ
gpioa = 0x4001_0800

abbrev pub gpiob : ℕ
gpiob = 0x4001_0c00

abbrev pub gpioc : ℕ
gpioc = 0x4001_1000

abbrev pub gpiod : ℕ
gpiod = 0x4001_1400

-- `uart_map_cfg_t`
pub record UartMapCfg : Type 0 where
  pub enable : ℕ
  pub phy_uart_id : ℕ
  pub tx_port : ℕ
  pub tx_pin : ℕ
  pub rx_port : ℕ
  pub rx_pin : ℕ

abbrev cfg : ℕ → ℕ → ℕ → ℕ → ℕ → ℕ → UartMapCfg
cfg enable phy_uart_id tx_port tx_pin rx_port rx_pin = record {
  enable = enable;
  phy_uart_id = phy_uart_id;
  tx_port = tx_port;
  tx_pin = tx_pin;
  rx_port = rx_port;
  rx_pin = rx_pin;
}

-- `g_uart_map_cfg`
abbrev pub uart_map_cfg : List UartMapCfg
uart_map_cfg =
    cfg 1 1 gpioa 0x0200 gpioa 0x0400
    ∷ cfg 1 2 gpioa 0x0004 gpioa 0x0008
    ∷ cfg 1 3 gpiob 0x0400 gpiob 0x0800
    ∷ cfg 1 4 gpioc 0x0400 gpioc 0x0800
    ∷ []

-- `g_uart_map_cfg[i]`; the code reads it only at an `i` below the number of ports.
abbrev pub map_cfg : ℕ → UartMapCfg
map_cfg i = get_or uart_map_cfg i (cfg 0 0 0 0 0 0)
