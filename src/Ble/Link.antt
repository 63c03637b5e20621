-- ===== src/Ble/Link.antt =====
-- App/usb_mux_dev/ble/ble_link_fsm.c: the state of each link and the requests of the host to it. What
-- a call of the BLE library returns is a function of all calls so far, the one at hand at the head.
pub mod Require
pub mod Invariant
pub mod Outcome
pub mod Quiet
use ch32v20x_usb_mux_uart_bl.Prelude.{
  ℕ, zero, suc, ◌+◌, Bool, true, false, Option, none, some, List, [], ◌∷◌, not, ltb, leb, ◌==◌,
  ◌||◌, ◌&&◌, if◌then◌else◌, get_or, set, read_bytes, Ptr,
}
use ch32v20x_usb_mux_uart_bl.Proto.{Status}
use ch32v20x_usb_mux_uart_bl.Proto.BleOp
use ch32v20x_usb_mux_uart_bl.Hal.{
  Call, WriteReq, att_get_mtu, gatt_disc_all_primary_services, gatt_disc_all_chars,
  gatt_disc_all_char_descs, gatt_read_char_value, gatt_exchange_mtu, gatt_write_char_value,
  gatt_write_char_desc, gatt_write_no_rsp, gatt_bm_alloc, gatt_bm_free,
}
use ch32v20x_usb_mux_uart_bl.Firmware.{Firmware, emit}
use ch32v20x_usb_mux_uart_bl.Ble.Types.{
  LinkState, Proc, LinkCtx, proc_none, proc_disc_service, proc_disc_char, proc_disc_desc, proc_read,
  proc_write_req, proc_subscribe, proc_unsubscribe, proc_exchange_mtu,
}
use ch32v20x_usb_mux_uart_bl.Ble.Types
use ch32v20x_usb_mux_uart_bl.Ble.Status.{
  max_links, success, ble_mem_alloc_error, gap_connhandle_init, att_mtu_size, att_write_req,
  map_ble_status,
}
use ch32v20x_usb_mux_uart_bl.Ble.Report.{report_write_result}

-- `BleLink_MapOpToState`
unfoldable pub map_op_to_state : Proc → LinkState
map_op_to_state proc_disc_service = Types.disc_service
map_op_to_state proc_disc_char = Types.disc_char
map_op_to_state proc_disc_desc = Types.disc_desc
map_op_to_state proc_read = Types.reading
map_op_to_state proc_write_req = Types.writing_req
map_op_to_state proc_subscribe = Types.subscribing
map_op_to_state proc_unsubscribe = Types.unsubscribing
map_op_to_state proc_exchange_mtu = Types.mtu_exchanging
map_op_to_state proc_none = Types.connected

-- `BleLink_MapProcToOpcode`
unfoldable pub map_proc_to_opcode : Proc → ℕ
map_proc_to_opcode proc_write_req = BleOp.write_req
map_proc_to_opcode proc_subscribe = BleOp.subscribe
map_proc_to_opcode proc_unsubscribe = BleOp.unsubscribe
map_proc_to_opcode _ = 0

-- A context as `BleLink_Init` leaves it.
abbrev pub init_link : ℕ → LinkCtx
init_link slot = record {
  slot_id = slot;
  state = Types.idle;
  conn_handle = gap_connhandle_init;
  mtu = att_mtu_size;
  proc_busy = false;
  proc = proc_none;
  proc_handle = 0;
  range_start = 0;
  range_end = 0;
}

-- `BleLink_Init`
unfoldable pub init : ℕ → Firmware → Firmware
init task_id fw = record fw {
  ble = record (fw.ble) {
    link_task_id = task_id;
    links = init_link 0 ∷ init_link 1 ∷ init_link 2 ∷ [];
  };
}

-- `g_ble_link_ctx[slot]`, which the code reads only below APP_BLE_MAX_LINKS.
abbrev pub link_at : ℕ → Firmware → LinkCtx
link_at slot fw = get_or fw.ble.links slot (init_link 0)

abbrev pub set_link : ℕ → LinkCtx → Firmware → Firmware
set_link slot ctx fw = record fw { ble = record (fw.ble) { links = set fw.ble.links slot ctx } }

-- `BleLink_GetCtx`
unfoldable pub get_ctx : ℕ → Firmware → Option LinkCtx
get_ctx slot fw = if leb max_links slot then none else some (link_at slot fw)

-- `BleLink_BeginProc`
unfoldable pub begin_proc : Proc → ℕ → ℕ → ℕ → LinkCtx → LinkCtx
unfolding map_op_to_state
begin_proc proc proc_handle range_start range_end ctx = record ctx {
  proc = proc;
  proc_handle = proc_handle;
  range_start = range_start;
  range_end = range_end;
  state = map_op_to_state proc;
}

-- `BleLink_EndProc`
unfoldable pub end_proc : LinkState → LinkCtx → LinkCtx
end_proc next_state ctx = record ctx {
  proc_busy = false;
  proc = proc_none;
  proc_handle = 0;
  range_start = 0;
  range_end = 0;
  state = next_state;
}

-- `BleLink_Reset`
unfoldable pub reset : ℕ → Firmware → Firmware
unfolding get_ctx end_proc
reset slot fw = elim (get_ctx slot fw) [
  | none ↦ fw
  | some ctx ↦
      (set_link slot
        (end_proc Types.idle (record ctx { conn_handle = gap_connhandle_init; mtu = att_mtu_size }))
        fw)
]

-- `BleLink_GetState`
unfoldable pub get_state : ℕ → Firmware → LinkState
unfolding get_ctx
get_state slot fw = elim (get_ctx slot fw) [ none ↦ Types.idle | some ctx ↦ ctx.state ]

-- `BleLink_GetMtu`
unfoldable pub get_mtu : ℕ → Firmware → ℕ
unfolding get_ctx
get_mtu slot fw = elim (get_ctx slot fw) [ none ↦ att_mtu_size | some ctx ↦ ctx.mtu ]

-- What stands between a request and its call of the library: `BleLink_RequireReadyCtx`, the test of
-- the parameters, and `BleLink_RequireIdleProc` without its store.
unfoldable pub require :
    ℕ → Bool → (LinkCtx → Firmware → Status × Firmware) → Firmware → Status × Firmware
unfolding get_ctx
require slot valid go fw = elim (get_ctx slot fw) [
  | none ↦ (Status.err_ble_not_connected, fw)
  | some ctx ↦
      (if ctx.conn_handle == gap_connhandle_init
        then (Status.err_ble_not_connected, fw)
        else (if not valid
            then (Status.err_invalid_param, fw)
            else (if ctx.proc_busy then (Status.err_busy, fw) else go ctx fw)))
]

-- What `memcpy` stores in the block of a write request.
abbrev pub stored : Ptr → ℕ → Ptr
stored none len = none
stored (some bs) len = some (read_bytes bs 0 len)

-- The test of a range of handles.
abbrev pub valid_range : ℕ → ℕ → Bool
valid_range start_hdl end_hdl = not (start_hdl == 0 || ltb end_hdl start_hdl)

module _ (ret : List Call → ℕ) where
  -- A call of the library and what it returns.
  unfoldable pub invoke : Call → Firmware → ℕ × Firmware
  unfolding emit
  invoke c fw = let fw' = emit c fw in (ret fw'.calls, fw')

  -- `BleLink_Attach`
  unfoldable pub attach : ℕ → ℕ → Firmware → Firmware
  unfolding get_ctx end_proc invoke
  attach slot conn_handle fw = elim (get_ctx slot fw) [
    | none ↦ fw
    | some ctx ↦
        (let (mtu, fw') = invoke (att_get_mtu conn_handle) fw in
          set_link slot
            (end_proc Types.connected (record ctx {
              conn_handle = conn_handle;
              mtu = if mtu == 0 then att_mtu_size else mtu;
            }))
            fw')
  ]

  -- The end of a request: `proc_busy` is 1 during the call. If the library refuses, it is cleared and
  -- the block of a write request is freed; else the procedure begins.
  unfoldable pub submit :
      ℕ → LinkCtx → Call → Bool → (LinkCtx → LinkCtx) → Firmware → Status × Firmware
  unfolding invoke
  submit slot ctx c frees begin fw =
      let (status, fw') = invoke c (set_link slot (record ctx { proc_busy = true }) fw) in
      if not (status == success)
      then (let idle = set_link slot (record ctx { proc_busy = false }) fw' in
          (map_ble_status status, if frees then emit (gatt_bm_free att_write_req) idle else idle))
      else (Status.ok, set_link slot (begin (record ctx { proc_busy = true })) fw')

  -- `BleLink_StartDiscoverServices`
  unfoldable pub start_discover_services : ℕ → Firmware → Status × Firmware
  start_discover_services slot = require slot true λ ctx fw.
      submit slot ctx (gatt_disc_all_primary_services ctx.conn_handle fw.ble.link_task_id) false
        (begin_proc proc_disc_service 0 0 0) fw

  -- `BleLink_StartDiscoverChars`
  unfoldable pub start_discover_chars : ℕ → ℕ → ℕ → Firmware → Status × Firmware
  start_discover_chars slot start_hdl end_hdl =
      require slot (valid_range start_hdl end_hdl) λ ctx fw.
        submit slot ctx (gatt_disc_all_chars ctx.conn_handle start_hdl end_hdl fw.ble.link_task_id)
          false (begin_proc proc_disc_char 0 start_hdl end_hdl) fw

  -- `BleLink_StartDiscoverDescs`
  unfoldable pub start_discover_descs : ℕ → ℕ → ℕ → Firmware → Status × Firmware
  start_discover_descs slot start_hdl end_hdl =
      require slot (valid_range start_hdl end_hdl) λ ctx fw.
        submit slot ctx
          (gatt_disc_all_char_descs ctx.conn_handle start_hdl end_hdl fw.ble.link_task_id) false
          (begin_proc proc_disc_desc 0 start_hdl end_hdl) fw

  -- `BleLink_Read`
  unfoldable pub read : ℕ → ℕ → Firmware → Status × Firmware
  read slot attr_handle = require slot (not (attr_handle == 0)) λ ctx fw.
      submit slot ctx (gatt_read_char_value ctx.conn_handle attr_handle fw.ble.link_task_id) false
        (begin_proc proc_read attr_handle 0 0) fw

  -- `BleLink_ExchangeMtu`
  unfoldable pub exchange_mtu : ℕ → ℕ → Firmware → Status × Firmware
  exchange_mtu slot mtu = require slot (not (ltb mtu att_mtu_size)) λ ctx fw.
      submit slot ctx (gatt_exchange_mtu ctx.conn_handle mtu fw.ble.link_task_id) false
        (begin_proc proc_exchange_mtu 0 0 0) fw

  -- `BleLink_AllocWriteReq`: its status, the request that it fills in, and the allocation. A block
  -- that is not null and not empty gets the bytes of `buf`.
  unfoldable pub alloc_write_req : ℕ → ℕ → ℕ → Ptr → ℕ → Bool → Firmware → ℕ × WriteReq × Firmware
  unfolding invoke
  alloc_write_req conn_handle opcode attr_handle buf len cmd fw =
      let (block, fw') = invoke (gatt_bm_alloc conn_handle opcode len) fw in
      let req : WriteReq = record { handle = attr_handle; len = len; value = none; cmd = cmd } in
      if (block == 0) && not (len == 0)
      then (ble_mem_alloc_error, req, fw')
      else (success, record req { value = if len == 0 then none else stored buf len }, fw')

  -- The end of a request that writes with a response: the block is allocated while `proc_busy` is 1.
  unfoldable pub submit_write :
      ℕ → LinkCtx → (WriteReq → Call) → Proc → ℕ → Ptr → ℕ → Firmware → Status × Firmware
  unfolding alloc_write_req submit begin_proc
  submit_write slot ctx c proc attr_handle buf len fw =
      let busy = set_link slot (record ctx { proc_busy = true }) fw in
      let (status, req, fw') =
        alloc_write_req ctx.conn_handle att_write_req attr_handle buf len false busy in
      if not (status == success)
      then (map_ble_status status, set_link slot (record ctx { proc_busy = false }) fw')
      else submit slot ctx (c req) true (begin_proc proc attr_handle 0 0) fw'

  -- `BleLink_WriteReq`
  unfoldable pub write_req : ℕ → ℕ → Ptr → ℕ → Firmware → Status × Firmware
  write_req slot attr_handle buf len = require slot (not (attr_handle == 0)) λ ctx fw.
      submit_write slot ctx (λ req. gatt_write_char_value ctx.conn_handle req fw.ble.link_task_id)
        proc_write_req attr_handle buf len fw

  -- `BleLink_Subscribe` writes GATT_CLIENT_CFG_NOTIFY to the descriptor.
  unfoldable pub subscribe : ℕ → ℕ → Firmware → Status × Firmware
  subscribe slot cccd_handle = require slot (not (cccd_handle == 0)) λ ctx fw.
      submit_write slot ctx (λ req. gatt_write_char_desc ctx.conn_handle req fw.ble.link_task_id)
        proc_subscribe cccd_handle (some (1 ∷ 0 ∷ [])) 2 fw

  -- `BleLink_Unsubscribe`
  unfoldable pub unsubscribe : ℕ → ℕ → Firmware → Status × Firmware
  unsubscribe slot cccd_handle = require slot (not (cccd_handle == 0)) λ ctx fw.
      submit_write slot ctx (λ req. gatt_write_char_desc ctx.conn_handle req fw.ble.link_task_id)
        proc_unsubscribe cccd_handle (some (0 ∷ 0 ∷ [])) 2 fw

  -- The part of `BleLink_WriteCmd` behind the tests: no procedure begins, and the host is told at once
  -- that the command was sent.
  unfoldable pub send_write_cmd : ℕ → ℕ → Ptr → ℕ → LinkCtx → Firmware → Status × Firmware
  unfolding alloc_write_req invoke
  send_write_cmd slot attr_handle buf len ctx fw =
      let (status, req, fw') =
        alloc_write_req ctx.conn_handle att_write_req attr_handle buf len true fw in
      if not (status == success)
      then (map_ble_status status, fw')
      else (let (sent, fw'') = invoke (gatt_write_no_rsp ctx.conn_handle req) fw' in
          if not (sent == success)
          then (map_ble_status sent, emit (gatt_bm_free att_write_req) fw'')
          else (Status.ok, report_write_result slot attr_handle success BleOp.write_cmd fw''))

  -- `BleLink_WriteCmd`
  unfoldable pub write_cmd : ℕ → ℕ → Ptr → ℕ → Firmware → Status × Firmware
  write_cmd slot attr_handle buf len =
      require slot (not (attr_handle == 0)) (send_write_cmd slot attr_handle buf len)
