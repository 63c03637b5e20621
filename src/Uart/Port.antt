-- ===== src/Uart/Port.antt =====
-- App/usb_mux_dev/uart/uart_port_ch32v20x.c: the calls of the peripheral library that open, close
-- and kick a USART. The hardware descriptor `g_uart_hw_desc` is given by its index.
use ch32v20x_usb_mux_uart_bl.Prelude.{
  ℕ, zero, suc, ◌+◌, ◌-◌, true, false, Option, none, some, not, ◌&&◌, ◌||◌, ltb, leb, ◌==◌,
  if◌then◌else◌,
}
use ch32v20x_usb_mux_uart_bl.Proto.{Status}
use ch32v20x_usb_mux_uart_bl.Hal.{
  Call, UsartConfig, Parity, rxne, txe, af_pp, in_floating, parity_none, parity_odd, parity_even,
  usart_clock_apb1, usart_clock_apb2, afio_clock, gpio_clock, gpio_init, usart_init, usart_it,
  usart_cmd, nvic_init,
}
use ch32v20x_usb_mux_uart_bl.Firmware.{Firmware, emit}
use ch32v20x_usb_mux_uart_bl.Uart.MapConfig.{
  UartMapCfg, map_cfg, uart_port_count, gpioa, gpiob, gpioc, gpiod,
}

-- The loop of `UARTPort_FindLogicPortByPhy`, on the rounds that are left.
find_from : ℕ → ℕ → ℕ → Option ℕ
find_from zero logic_port phy_uart_id = none
find_from (suc left) logic_port phy_uart_id =
    let cfg = map_cfg logic_port in
    let rest = find_from left (logic_port + 1) phy_uart_id in
    if not (cfg.enable == 0) && cfg.phy_uart_id == phy_uart_id then some logic_port else rest

-- `none` is -1.
unfoldable pub find_logic_port_by_phy : ℕ → Option ℕ
unfolding find_from
find_logic_port_by_phy phy_uart_id = find_from uart_port_count 0 phy_uart_id

-- The index into `g_uart_hw_desc`, which has four entries; `none` is a null pointer.
unfoldable pub get_hw_desc : ℕ → Option ℕ
get_hw_desc logic_port =
    if leb uart_port_count logic_port
    then none
    else (let phy : ℕ = (map_cfg logic_port).phy_uart_id in
        if phy == 0 || ltb 4 phy then none else some (phy - 1))

unfoldable pub enable_gpio_clock : ℕ → Firmware → Firmware
unfolding emit
enable_gpio_clock gpio fw =
    if ((gpio == gpioa || gpio == gpiob) || gpio == gpioc) || gpio == gpiod
    then emit (gpio_clock gpio) fw
    else fw

abbrev parity_of : ℕ → Parity
parity_of p = if p == 1 then parity_odd else (if p == 2 then parity_even else parity_none)

-- The clock of the first descriptor, USART1, hangs on APB2, those of the others on APB1.
abbrev usart_clock : ℕ → Call
usart_clock zero = usart_clock_apb2 0
usart_clock (suc hw) = usart_clock_apb1 (suc hw)

-- `UARTPort_ApplyConfig` behind its tests: the calls in the order in which they are made.
unfoldable pub configure : ℕ → UartMapCfg → ℕ → ℕ → ℕ → ℕ → Firmware → Firmware
unfolding enable_gpio_clock emit
configure hw cfg baudrate data_bits parity stop_bits fw =
    let usart_cfg : UsartConfig = record {
      baud_rate = baudrate;
      nine_bits = data_bits == 9;
      two_stop_bits = stop_bits == 2;
      parity = parity_of parity;
    } in
    let a = emit afio_clock (emit (usart_clock hw) fw) in
    let b = enable_gpio_clock cfg.rx_port (enable_gpio_clock cfg.tx_port a) in
    let c =
      emit (gpio_init cfg.rx_port cfg.rx_pin in_floating)
        (emit (gpio_init cfg.tx_port cfg.tx_pin af_pp) b) in
    let d = emit (usart_init hw usart_cfg) (emit (usart_cmd hw false) c) in
    let e = emit (usart_it hw txe false) (emit (usart_it hw rxne true) d) in
    emit (nvic_init hw) (emit (usart_cmd hw true) e)

unfoldable pub apply_config : Option ℕ → UartMapCfg → ℕ → ℕ → ℕ → ℕ → Firmware → Status × Firmware
unfolding configure
apply_config none cfg baudrate data_bits parity stop_bits fw = (Status.err_uart_map_invalid, fw)
apply_config (some hw) cfg baudrate data_bits parity stop_bits fw =
    if (cfg.enable == 0 || cfg.tx_port == 0) || cfg.rx_port == 0
    then (Status.err_uart_map_invalid, fw)
    else (Status.ok, configure hw cfg baudrate data_bits parity stop_bits fw)

-- `UARTPort_Open`
unfoldable pub port_open : ℕ → ℕ → ℕ → ℕ → ℕ → Firmware → Status × Firmware
unfolding get_hw_desc apply_config
port_open logic_port baudrate data_bits parity stop_bits fw =
    if leb uart_port_count logic_port
    then (Status.err_invalid_param, fw)
    else (apply_config (get_hw_desc logic_port) (map_cfg logic_port) baudrate data_bits parity
        stop_bits fw)

-- `UARTPort_Close`
unfoldable pub port_close : ℕ → Firmware → Firmware
unfolding get_hw_desc emit
port_close logic_port fw = elim (get_hw_desc logic_port) [
  | none ↦ fw
  | some hw ↦
      (emit (usart_cmd hw false) (emit (usart_it hw txe false) (emit (usart_it hw rxne false) fw)))
]

-- `UARTPort_TryKickTx`
unfoldable pub try_kick_tx : ℕ → Firmware → Firmware
unfolding get_hw_desc emit
try_kick_tx logic_port fw = elim (get_hw_desc logic_port) [
  | none ↦ fw
  | some hw ↦ emit (usart_it hw txe true) fw
]
