-- ===== src/Uart/Types.antt =====
-- The data of uart_manager.c: the state of a port and its context.
use ch32v20x_usb_mux_uart_bl.Prelude.{ℕ}
use ch32v20x_usb_mux_uart_bl.RingBuffer.{RingBuffer}

-- `uart_port_state_t`; UART_OPEN is `opened`.
pub data UartState : Type 0 where
  disabled closed opening opened draining error : UartState

abbrev pub state_code : UartState → ℕ
state_code disabled = 0
state_code closed = 1
state_code opening = 2
state_code opened = 3
state_code draining = 4
state_code error = 5

-- `uart_port_ctx_t`; the two storages are those of the ring buffers.
pub record UartPort : Type 0 where
  pub logic_port : ℕ
  pub phy_uart_id : ℕ
  pub state : UartState
  pub rx_rb : RingBuffer
  pub tx_rb : RingBuffer
  pub baudrate : ℕ
  pub rx_bytes : ℕ
  pub tx_bytes : ℕ
  pub drop_rx_bytes : ℕ
  pub drop_tx_bytes : ℕ
  pub data_bits : ℕ
  pub parity : ℕ
  pub stop_bits : ℕ
