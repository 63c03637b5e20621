-- ===== src/Ble/Host.antt =====
-- App/usb_mux_dev/ble/ble_host_manager.c: the slots, and the events and messages of the BLE library.
-- Log lines are left out, and with them `BleHostMgr_MtuCb`, which only writes one; pointers to events
-- and messages are not null.
pub mod Invariant
pub mod Events
use ch32v20x_usb_mux_uart_bl.Prelude.{
  ℕ, zero, suc, ◌+◌, ◌-◌, min, Bool, true, false, Option, none, some, List, [], ◌∷◌, ◌++◌, not, ltb,
  leb, ◌==◌, ◌||◌, ◌&&◌, if◌then◌else◌, get_or, set, replicate, read_bytes, write_bytes, bit_and,
  bit_xor, Ptr,
}
use ch32v20x_usb_mux_uart_bl.Proto.{Hdr, Status}
use ch32v20x_usb_mux_uart_bl.Proto.Channel
use ch32v20x_usb_mux_uart_bl.Proto.BleOp
use ch32v20x_usb_mux_uart_bl.Proto.Codec.{lo, hi}
use ch32v20x_usb_mux_uart_bl.Hal.{
  Call, register_task, msg_deallocate, gatt_bm_free, gatt_init_client, gatt_register_for_ind,
  gap_set_param_value, gap_role_central_init, gap_role_central_start_device,
}
use ch32v20x_usb_mux_uart_bl.Firmware.{Firmware, emit}
use ch32v20x_usb_mux_uart_bl.Usb.Sched.{queue_evt}
use ch32v20x_usb_mux_uart_bl.Ble.Types
use ch32v20x_usb_mux_uart_bl.Ble.Types.{
  link_state_code, SlotState, slot_idle, slot_connecting, slot_connected, slot_state_code, Slot,
  HostState, host_idle, host_ready, host_scanning, host_connecting, host_mixed, HostMgr, Ble,
  GattMsg, AttMsg, AdvReport, GapEvent, device_init_done, device_discovery, device_info,
  ext_adv_device_info, link_established, link_terminated, other_event,
}
use ch32v20x_usb_mux_uart_bl.Ble.Status.{
  max_links, success, gap_connhandle_init, b_addr_len, devdisc_mode_all, tgap_disc_scan,
  tgap_disc_scan_int, tgap_disc_scan_wind, tgap_conn_est_int_min, tgap_conn_est_int_max,
  tgap_conn_est_superv_timeout,
}
use ch32v20x_usb_mux_uart_bl.Ble.AttCache
use ch32v20x_usb_mux_uart_bl.Ble.Link
use ch32v20x_usb_mux_uart_bl.Ble.Gatt.{handle_gatt_msg}

abbrev pub set_mgr : HostMgr → Firmware → Firmware
set_mgr m fw = record fw { ble = record (fw.ble) { mgr = m } }

-- A slot as `BleHostMgr_Init` leaves it.
abbrev pub init_slot : Slot
init_slot = record {
  conn_handle = gap_connhandle_init;
  state = slot_idle;
  addr_type = 0;
  addr = replicate b_addr_len 0;
}

-- `g_ble_mgr.slots[i]`, which the code reads only below APP_BLE_MAX_LINKS.
abbrev pub slot_at : ℕ → Firmware → Slot
slot_at i fw = get_or fw.ble.mgr.slots i init_slot

abbrev pub set_slot : ℕ → Slot → Firmware → Firmware
set_slot i s fw = set_mgr (record (fw.ble.mgr) { slots = set fw.ble.mgr.slots i s }) fw

abbrev pub is_connected : SlotState → Bool
is_connected slot_connected = true
is_connected _ = false

abbrev pub is_idle : SlotState → Bool
is_idle slot_idle = true
is_idle _ = false

abbrev pub any_connected : List Slot → Bool
any_connected [] = false
any_connected (s ∷ ss) = is_connected s.state || any_connected ss

-- The state that `BleHostMgr_UpdateState` computes.
unfoldable pub host_state : HostMgr → HostState
host_state m =
    if m.active_scan
    then (if any_connected m.slots then host_mixed else host_scanning)
    else (if ltb m.pending_connect_slot max_links
        then host_connecting
        else (if any_connected m.slots then host_mixed else host_ready))

-- `BleHostMgr_UpdateState`
unfoldable pub update_state : Firmware → Firmware
unfolding host_state
update_state fw = set_mgr (record (fw.ble.mgr) { state = host_state fw.ble.mgr }) fw

abbrev find_from : ℕ → ℕ → List Slot → Option ℕ
find_from conn_handle i [] = none
find_from conn_handle i (s ∷ ss) =
    if s.conn_handle == conn_handle then some i else find_from conn_handle (i + 1) ss

-- `BleHostMgr_FindSlotByConnHandle`, where `none` is -1.
unfoldable pub find_slot_by_conn_handle : ℕ → Firmware → Option ℕ
find_slot_by_conn_handle conn_handle fw = find_from conn_handle 0 fw.ble.mgr.slots

abbrev pub conn_payload : ℕ → ℕ → ℕ → ℕ → List ℕ → ℕ → Firmware → List ℕ
conn_payload slot conn_handle state status addr addr_type fw =
    (slot
      ∷ state
      ∷ addr_type
      ∷ link_state_code (Link.get_state slot fw)
      ∷ lo conn_handle
      ∷ hi conn_handle
      ∷ lo status
      ∷ hi status
      ∷ [])
    ++ read_bytes addr 0 b_addr_len

-- `BleHostMgr_ReportConnState`
unfoldable pub report_conn_state : ℕ → ℕ → SlotState → ℕ → List ℕ → ℕ → Firmware → Firmware
report_conn_state slot conn_handle state status addr addr_type fw =
    (queue_evt Channel.ble_conn slot BleOp.evt_conn_state
      (some (conn_payload slot conn_handle (slot_state_code state) status addr addr_type fw)) 14
      fw).1

-- The six bytes of advertising data that are reported: the first ones, padded with zeros.
abbrev pub adv_bytes : Ptr → ℕ → List ℕ
adv_bytes none adv_len = replicate 6 0
adv_bytes (some bs) adv_len = write_bytes (replicate 6 0) 0 (read_bytes bs 0 (min adv_len 6))

-- `BleHostMgr_ReportScanResult`
unfoldable pub report_scan_result : AdvReport → Firmware → Firmware
report_scan_result r fw =
    (queue_evt Channel.ble_mgmt 0 BleOp.evt_scan_rsp
      (some (
        (r.addr_type ∷ r.event_type ∷ r.rssi ∷ r.data_len ∷ [])
        ++ read_bytes r.addr 0 b_addr_len
        ++ adv_bytes r.evt_data r.data_len))
      16 fw).1

-- `BleHostMgr_ReportRssiResult`, with `rssi` as its byte.
unfoldable pub report_rssi_result : ℕ → ℕ → ℕ → Firmware → Firmware
report_rssi_result slot conn_handle rssi fw =
    (queue_evt Channel.ble_conn slot BleOp.evt_rssi_result
      (some (lo conn_handle ∷ hi conn_handle ∷ rssi ∷ 0 ∷ [])) 4 fw).1

-- `BleHostMgr_RssiCb`
unfoldable pub rssi_cb : ℕ → ℕ → Firmware → Firmware
unfolding find_slot_by_conn_handle report_rssi_result
rssi_cb conn_handle rssi fw = elim (find_slot_by_conn_handle conn_handle fw) [
  | none ↦ fw
  | some slot ↦ report_rssi_result slot conn_handle rssi fw
]

-- GAP_LINK_TERMINATED_EVENT for a connection of the slot.
unfoldable pub link_down : ℕ → ℕ → ℕ → Firmware → Firmware
unfolding report_conn_state update_state
link_down slot conn_handle reason fw =
    let fw' = Link.reset slot (AttCache.reset_slot slot fw) in
    let s : Slot = slot_at slot fw' in
    update_state (
      set_slot slot init_slot
        (report_conn_state slot conn_handle slot_idle reason s.addr s.addr_type fw'))

-- GAP_LINK_ESTABLISHED_EVENT with an error, for the slot that waits.
unfoldable pub connect_failed : ℕ → ℕ → Firmware → Firmware
unfolding report_conn_state
connect_failed slot status fw =
    let s : Slot = record (slot_at slot fw) { state = slot_idle } in
    report_conn_state slot gap_connhandle_init slot_idle status s.addr s.addr_type
      (Link.reset slot (set_slot slot s fw))

-- What GAP_LINK_ESTABLISHED_EVENT does in the end.
unfoldable pub connect_done : Firmware → Firmware
unfolding update_state
connect_done fw = update_state (set_mgr (record (fw.ble.mgr) { pending_connect_slot = 0xff }) fw)

module _ (ret : List Call → ℕ) where
  -- `BleHostMgr_ProcessGattMsg`
  unfoldable pub process_gatt_msg : GattMsg → Firmware → Firmware
  unfolding find_slot_by_conn_handle
  process_gatt_msg msg fw = elim (find_slot_by_conn_handle msg.conn_handle fw) [
    | none ↦ fw
    | some slot ↦ handle_gatt_msg ret slot msg fw
  ]

  -- GAP_LINK_ESTABLISHED_EVENT with SUCCESS, for the slot that waits.
  unfoldable pub link_up : ℕ → ℕ → ℕ → ℕ → List ℕ → Firmware → Firmware
  unfolding report_conn_state
  link_up slot status conn_handle addr_type addr fw =
      let s : Slot = record {
        conn_handle = conn_handle;
        state = slot_connected;
        addr_type = addr_type;
        addr = read_bytes addr 0 b_addr_len;
      } in
      report_conn_state slot conn_handle slot_connected status addr addr_type
        (Link.attach ret slot conn_handle (set_slot slot s fw))

  -- `BleHostMgr_EventCb`
  unfoldable pub event_cb : GapEvent → Firmware → Firmware
  unfolding report_scan_result update_state link_up connect_failed connect_done link_down
      find_slot_by_conn_handle
  event_cb device_init_done fw = set_mgr (record (fw.ble.mgr) { state = host_ready }) fw
  event_cb (device_info r) fw = report_scan_result r fw
  event_cb (ext_adv_device_info r) fw = report_scan_result r fw
  event_cb device_discovery fw =
      update_state (set_mgr (record (fw.ble.mgr) { active_scan = false }) fw)
  event_cb (link_established status conn_handle addr_type addr) fw =
      let slot : ℕ = fw.ble.mgr.pending_connect_slot in
      if (status == success) && ltb slot max_links
      then connect_done (link_up slot status conn_handle addr_type addr fw)
      else (if ltb slot max_links
          then connect_done (connect_failed slot status fw)
          else connect_done fw)
  event_cb (link_terminated conn_handle reason) fw =
      elim (find_slot_by_conn_handle conn_handle fw) [
        | none ↦ fw
        | some slot ↦ link_down slot conn_handle reason fw
      ]
  event_cb (other_event opcode) fw = fw

  -- The loop of `BleHostMgr_ProcessEvent`: what `tmos_msg_receive` delivers, where `none` is a message
  -- that is not GATT_MSG_EVENT.
  unfoldable pub receive_msgs : List (Option GattMsg) → Firmware → Firmware
  unfolding process_gatt_msg
  receive_msgs [] fw = fw
  receive_msgs (none ∷ ms) fw = receive_msgs ms (emit msg_deallocate fw)
  receive_msgs (some m ∷ ms) fw =
      receive_msgs ms
        (emit msg_deallocate (emit (gatt_bm_free (Types.method_of m.msg)) (process_gatt_msg m fw)))

  -- `BleHostMgr_ProcessEvent`: SYS_EVENT_MSG is bit 15.
  unfoldable pub process_event : ℕ → List (Option GattMsg) → Firmware → ℕ × Firmware
  unfolding receive_msgs
  process_event events msgs fw =
      if not (bit_and events 0x8000 == 0)
      then (bit_xor events 0x8000, receive_msgs msgs fw)
      else (0, fw)

-- The variables as the assignments of `BleHostMgr_Init` before the task is registered leave them.
abbrev pub init_mgr : ℕ → HostMgr
init_mgr task_id = record {
  task_id = task_id;
  state = host_idle;
  pending_connect_slot = 0xff;
  active_scan = false;
  scan_mode = devdisc_mode_all;
  scan_active = 1;
  scan_white_list = 0;
  scan_interval = 16;
  scan_window = 16;
  scan_duration = 0;
  slots = replicate max_links init_slot;
}

abbrev set_params : List (ℕ × ℕ) → Firmware → Firmware
set_params [] fw = fw
set_params ((param, value) ∷ ps) fw = set_params ps (emit (gap_set_param_value param value) fw)

-- `BleHostMgr_Init`, with the identifier that TMOS gives the task.
unfoldable pub init : ℕ → Firmware → Firmware
unfolding AttCache.init Link.init
init task_id fw =
    let m : HostMgr = init_mgr task_id in
    let registered = set_mgr m (emit register_task fw) in
    let links =
      Link.init task_id
        (record registered { ble = record (registered.ble) { cache = AttCache.init } }) in
    emit (gap_role_central_start_device task_id) (
      set_params
        ((tgap_disc_scan_int, m.scan_interval)
          ∷ (tgap_disc_scan_wind, m.scan_window)
          ∷ (tgap_disc_scan, 2400)
          ∷ (tgap_conn_est_int_min, 20)
          ∷ (tgap_conn_est_int_max, 100)
          ∷ (tgap_conn_est_superv_timeout, 100)
          ∷ [])
        (emit (gatt_register_for_ind task_id)
          (emit gatt_init_client (emit gap_role_central_init links))))
