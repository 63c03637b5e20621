-- ===== src/Ble/Types.antt =====
-- The data of App/usb_mux_dev/ble: the states of a link, of a slot and of the manager, and the
-- messages and events that the BLE library delivers.
use ch32v20x_usb_mux_uart_bl.Prelude.{ℕ, Bool, List, Ptr}

-- `ble_link_state_t`
pub data LinkState : Type 0 where
  idle connect_pending connecting connected mtu_exchanging disc_service disc_char : LinkState
  disc_desc ready reading writing_req subscribing unsubscribing disconnecting error : LinkState

abbrev pub link_state_code : LinkState → ℕ
link_state_code idle = 0
link_state_code connect_pending = 1
link_state_code connecting = 2
link_state_code connected = 3
link_state_code mtu_exchanging = 4
link_state_code disc_service = 5
link_state_code disc_char = 6
link_state_code disc_desc = 7
link_state_code ready = 8
link_state_code reading = 9
link_state_code writing_req = 10
link_state_code subscribing = 11
link_state_code unsubscribing = 12
link_state_code disconnecting = 13
link_state_code error = 14

-- `ble_link_proc_t`: the GATT procedure that a link waits for.
pub data Proc : Type 0 where
  proc_none proc_disc_service proc_disc_char proc_disc_desc proc_read proc_write_req : Proc
  proc_subscribe proc_unsubscribe proc_exchange_mtu : Proc

-- `ble_link_ctx_t`; `proc_busy` only holds 0 and 1.
pub record LinkCtx : Type 0 where
  pub slot_id : ℕ
  pub state : LinkState
  pub conn_handle : ℕ
  pub mtu : ℕ
  pub proc_busy : Bool
  pub proc : Proc
  pub proc_handle : ℕ
  pub range_start : ℕ
  pub range_end : ℕ

-- `ble_att_slot_cache_t`
pub record AttSlot : Type 0 where
  pub svc_start : ℕ
  pub svc_end : ℕ
  pub char_handle : ℕ
  pub cccd_handle : ℕ

-- BLE_SLOT_STATE_*
pub data SlotState : Type 0 where
  slot_idle slot_connecting slot_connected : SlotState

abbrev pub slot_state_code : SlotState → ℕ
slot_state_code slot_idle = 0
slot_state_code slot_connecting = 1
slot_state_code slot_connected = 2

-- `ble_link_slot_t`
pub record Slot : Type 0 where
  pub conn_handle : ℕ
  pub state : SlotState
  pub addr_type : ℕ
  pub addr : List ℕ

-- `ble_global_state_t`
pub data HostState : Type 0 where
  host_idle host_ready host_scanning host_connecting host_mixed host_stopping : HostState

-- `ble_host_mgr_t`; `active_scan` only holds 0 and 1.
pub record HostMgr : Type 0 where
  pub task_id : ℕ
  pub state : HostState
  pub pending_connect_slot : ℕ
  pub active_scan : Bool
  pub scan_mode : ℕ
  pub scan_active : ℕ
  pub scan_white_list : ℕ
  pub scan_interval : ℕ
  pub scan_window : ℕ
  pub scan_duration : ℕ
  pub slots : List Slot

-- The variables of the three files.
pub record Ble : Type 0 where
  pub mgr : HostMgr
  pub link_task_id : ℕ
  pub links : List LinkCtx
  pub cache : List AttSlot

-- `gattMsg_t` of wchble.h with the `method` that says which member of the union holds: those that
-- the code reads, with the fields that it reads. The pointers of the library are byte blocks.
pub data AttMsg : Type 0 where
  -- ATT_ERROR_RSP: request opcode, handle, error code
  error_rsp : ℕ → ℕ → ℕ → AttMsg
  -- ATT_EXCHANGE_MTU_RSP: the receive size of the server; ATT_MTU_UPDATED_EVENT: the new size
  exchange_mtu_rsp mtu_updated : ℕ → AttMsg
  -- ATT_READ_BY_GRP_TYPE_RSP and ATT_READ_BY_TYPE_RSP: count, size of an entry, entries
  read_by_grp_type_rsp read_by_type_rsp : ℕ → ℕ → List ℕ → AttMsg
  -- ATT_FIND_INFO_RSP: count, format, entries
  find_info_rsp : ℕ → ℕ → List ℕ → AttMsg
  -- ATT_READ_RSP: value, length
  read_rsp : Ptr → ℕ → AttMsg
  -- ATT_WRITE_RSP
  write_rsp : AttMsg
  -- ATT_HANDLE_VALUE_NOTI and ATT_HANDLE_VALUE_IND: handle, value, length
  handle_value_noti handle_value_ind : ℕ → Ptr → ℕ → AttMsg
  -- every other method
  other_method : ℕ → AttMsg

-- `method`: the ATT_* constants of wchble.h.
abbrev pub method_of : AttMsg → ℕ
method_of (error_rsp req_opcode handle err_code) = 0x01
method_of (exchange_mtu_rsp server_rx_mtu) = 0x03
method_of (mtu_updated mtu) = 0x7f
method_of (read_by_grp_type_rsp num_grps len bytes) = 0x11
method_of (read_by_type_rsp num_pairs len bytes) = 0x09
method_of (find_info_rsp num_info format info) = 0x05
method_of (read_rsp value len) = 0x0b
method_of write_rsp = 0x13
method_of (handle_value_noti handle value len) = 0x1b
method_of (handle_value_ind handle value len) = 0x1d
method_of (other_method method) = method

-- `gattMsgEvent_t`
pub record GattMsg : Type 0 where
  pub status : ℕ
  pub conn_handle : ℕ
  pub msg : AttMsg

-- `gapDeviceInfoEvent_t` and `gapExtAdvDeviceInfoEvent_t`: the fields that are reported, `rssi` as
-- its byte.
pub record AdvReport : Type 0 where
  pub addr_type : ℕ
  pub addr : List ℕ
  pub rssi : ℕ
  pub event_type : ℕ
  pub data_len : ℕ
  pub evt_data : Ptr

-- `gapRoleEvent_t`, by opcode, with the fields that the code reads.
pub data GapEvent : Type 0 where
  device_init_done device_discovery : GapEvent
  device_info ext_adv_device_info : AdvReport → GapEvent
  -- status, connection handle, address type and address
  link_established : ℕ → ℕ → ℕ → List ℕ → GapEvent
  -- connection handle and reason
  link_terminated : ℕ → ℕ → GapEvent
  other_event : ℕ → GapEvent
