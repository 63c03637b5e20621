-- ===== src/Hal.antt =====
-- The calls that the firmware makes of code outside App/usb_mux_dev (the peripheral library and the
-- TMOS scheduler and the BLE library of WCH), with their arguments. Their effect is not modelled: the
-- firmware only reads back what it passes through its own state, and what a call of the BLE library
-- returns.
use ch32v20x_usb_mux_uart_bl.Prelude.{ℕ, Bool, List, Ptr}

-- The interrupt sources RXNE and TXE of a USART.
pub data UsartIt : Type 0 where
  rxne txe : UsartIt

pub data GpioMode : Type 0 where
  af_pp in_floating : GpioMode

pub data Parity : Type 0 where
  parity_none parity_odd parity_even : Parity

-- `USART_InitTypeDef`, with the mode and flow control that never vary left out.
pub record UsartConfig : Type 0 where
  pub baud_rate : ℕ
  pub nine_bits : Bool
  pub two_stop_bits : Bool
  pub parity : Parity

-- `attWriteReq_t`; `sig` is always FALSE. The value is null if no byte was stored.
pub record WriteReq : Type 0 where
  pub handle : ℕ
  pub len : ℕ
  pub value : Ptr
  pub cmd : Bool

pub data Call : Type 0 where
  -- `tmos_set_event(task, event)` and `tmos_start_task(task, event, ticks)`
  set_event : ℕ → ℕ → Call
  start_task : ℕ → ℕ → ℕ → Call
  -- `RCC_APB2PeriphClockCmd` for a USART, for AFIO and for a GPIO port, and `RCC_APB1PeriphClockCmd`
  usart_clock_apb2 usart_clock_apb1 : ℕ → Call
  afio_clock : Call
  gpio_clock : ℕ → Call
  gpio_init : ℕ → ℕ → GpioMode → Call
  usart_init : ℕ → UsartConfig → Call
  usart_it : ℕ → UsartIt → Bool → Call
  usart_cmd : ℕ → Bool → Call
  nvic_init : ℕ → Call
  usart_send : ℕ → ℕ → Call
  -- `GPIO_WriteBit` of the heartbeat pin
  led_write : Bool → Call
  -- `TMOS_ProcessEventRegister` and `tmos_msg_deallocate`
  register_task msg_deallocate : Call
  -- `ATT_GetMTU` and `ATT_HandleValueCfm`: connection
  att_get_mtu att_handle_value_cfm : ℕ → Call
  -- `GATT_DiscAllPrimaryServices`: connection, task
  gatt_disc_all_primary_services : ℕ → ℕ → Call
  -- `GATT_DiscAllChars` and `GATT_DiscAllCharDescs`: connection, first and last handle, task
  gatt_disc_all_chars gatt_disc_all_char_descs : ℕ → ℕ → ℕ → ℕ → Call
  -- `GATT_ReadCharValue`: connection, handle, task; `GATT_ExchangeMTU`: connection, size, task
  gatt_read_char_value gatt_exchange_mtu : ℕ → ℕ → ℕ → Call
  -- `GATT_WriteCharValue` and `GATT_WriteCharDesc`: connection, request, task
  gatt_write_char_value gatt_write_char_desc : ℕ → WriteReq → ℕ → Call
  -- `GATT_WriteNoRsp`: connection, request
  gatt_write_no_rsp : ℕ → WriteReq → Call
  -- `GATT_bm_alloc`: connection, opcode, size; `GATT_bm_free`: opcode
  gatt_bm_alloc : ℕ → ℕ → ℕ → Call
  gatt_bm_free : ℕ → Call
  -- `GATT_InitClient`, `GATT_RegisterForInd`: task
  gatt_init_client : Call
  gatt_register_for_ind : ℕ → Call
  -- `GAP_SetParamValue`: parameter, value
  gap_set_param_value : ℕ → ℕ → Call
  -- `GAPRole_CentralInit`, `GAPRole_CentralStartDevice`: task
  gap_role_central_init : Call
  gap_role_central_start_device : ℕ → Call
  -- `GAPRole_CentralStartDiscovery`: mode, active, white list; `GAPRole_CentralCancelDiscovery`
  gap_role_central_start_discovery : ℕ → ℕ → ℕ → Call
  gap_role_central_cancel_discovery : Call
  -- `GAPRole_CentralEstablishLink`: address type, address
  gap_role_central_establish_link : ℕ → List ℕ → Call
  -- `GAPRole_TerminateLink` and `GAPRole_ReadRssiCmd`: connection
  gap_role_terminate_link gap_role_read_rssi : ℕ → Call
  -- `GAPRole_UpdateLink`: connection, minimum and maximum interval, latency, timeout
  gap_role_update_link : ℕ → ℕ → ℕ → ℕ → ℕ → Call
