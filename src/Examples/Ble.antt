-- ===== src/Examples/Ble.antt =====
-- The BLE manager on concrete requests, events and messages.
use ch32v20x_usb_mux_uart_bl.Prelude.{
  ℕ, ◌≡◌, ◌≢◌, refl, none, some, List, [], ◌∷◌, true, arith, replicate, read_bytes,
}
use ch32v20x_usb_mux_uart_bl.Proto.{Status}
use ch32v20x_usb_mux_uart_bl.Proto.BleOp
use ch32v20x_usb_mux_uart_bl.Firmware.{Firmware}
use ch32v20x_usb_mux_uart_bl.Usb.Tx
use ch32v20x_usb_mux_uart_bl.Usb.Tx.Invariant.{init-IsTx}
use ch32v20x_usb_mux_uart_bl.Ble.Types
use ch32v20x_usb_mux_uart_bl.Ble.Types.{
  LinkCtx, Ble, GattMsg, link_established, read_rsp, read_by_grp_type_rsp, proc_read,
  proc_disc_service,
}
use ch32v20x_usb_mux_uart_bl.Ble.Report.{report_value_event, report_read_result}
use ch32v20x_usb_mux_uart_bl.Ble.Report.Bounds.{Fits, reports_fit}
use ch32v20x_usb_mux_uart_bl.Ble.Link.{init_link}
use ch32v20x_usb_mux_uart_bl.Ble.Link.Outcome.{
  Outcome, Start, writes, started, start, start-Outcome,
}
use ch32v20x_usb_mux_uart_bl.Ble.Gatt.{handle_gatt_msg}
use ch32v20x_usb_mux_uart_bl.Ble.Gatt.Finish.{no_services, handle_gatt_msg-Empty}
use ch32v20x_usb_mux_uart_bl.Ble.Host
use ch32v20x_usb_mux_uart_bl.Ble.Host.Invariant.{IsBle}
use ch32v20x_usb_mux_uart_bl.Ble.History.{Input, request, gap_event, task_event, run, run-IsBle}
use ch32v20x_usb_mux_uart_bl.Examples.Requests.{booted, ble_booted, connect_req, peer, accepts}

-- The value that the peer sends.
abbrev read_value : GattMsg
read_value = record { status = 0; conn_handle = 5; msg = read_rsp (some (7 ∷ 8 ∷ [])) 2 }

-- A connection of slot 1 with handle 5, a read request, and its answer.
abbrev inputs : List Input
inputs =
    request connect_req (some peer) 8
    ∷ gap_event (link_established 0 5 0 (0xa1 ∷ 0xa2 ∷ 0xa3 ∷ 0xa4 ∷ 0xa5 ∷ 0xa6 ∷ []))
    ∷ request (record connect_req { opcode = 0x0b }) (some (1 ∷ 3 ∷ 0 ∷ [])) 3
    ∷ task_event 0x8000 (some read_value ∷ none ∷ [])
    ∷ []

run-IsBle_example : IsBle (run accepts inputs (Host.init 2 booted)).ble
run-IsBle_example = run-IsBle accepts inputs 2 booted (tt, ((λ _ e. omega arith), (tt, (tt, tt))))

-- Slot 1 with a connection, and perhaps a procedure.
abbrev attached : LinkCtx
attached = record (init_link 1) { state = Types.connected; conn_handle = 5 }

abbrev reading : LinkCtx
reading = record attached {
  state = Types.reading;
  proc_busy = true;
  proc = proc_read;
  proc_handle = 3;
}

abbrev discovering : LinkCtx
discovering = record attached {
  state = Types.disc_service;
  proc_busy = true;
  proc = proc_disc_service;
}

abbrev with_link1 : LinkCtx → Firmware
with_link1 l = record booted {
  ble = record ble_booted { links = init_link 0 ∷ l ∷ init_link 2 ∷ [] };
}

start-Outcome_example :
    Outcome 1
      (started (writes 3 (some (9 ∷ [])) 1))
      (with_link1 attached)
      (start accepts (writes 3 (some (9 ∷ [])) 1) 1 (with_link1 attached))
start-Outcome_example = start-Outcome accepts 1 (with_link1 attached) (writes 3 (some (9 ∷ [])) 1)

-- The library reports that the discovery is complete, without another service.
abbrev no_more : GattMsg
no_more = record { status = 0x1a; conn_handle = 5; msg = read_by_grp_type_rsp 0 0 [] }

handle_gatt_msg-Empty_example :
    let fw' = handle_gatt_msg accepts 1 no_more (with_link1 discovering) in
    (fw' ≡ with_link1 discovering) × ((s : Start) → (start accepts s 1 fw').0 ≢ Status.ok)
handle_gatt_msg-Empty_example =
    handle_gatt_msg-Empty accepts 1 no_more (with_link1 discovering) (omega arith) refl no_services

abbrev long_value : List ℕ
long_value = replicate 600 7

reports_fit_example :
    Fits 1 BleOp.evt_notify_data 4 484
      (3 ∷ 0 ∷ 0xe4 ∷ 1 ∷ read_bytes long_value 0 484)
      booted
      (report_value_event 1 BleOp.evt_notify_data 3 (some long_value) 600 booted)
    × Fits 1 BleOp.evt_read_result 6 482
        (3 ∷ 0 ∷ 0 ∷ 0 ∷ 0xe2 ∷ 1 ∷ read_bytes long_value 0 482)
        booted
        (report_read_result 1 3 0 (some long_value) 600 booted)
unfolding Tx.init
reports_fit_example =
    reports_fit 1 3 long_value 600 booted init-IsTx (omega arith) BleOp.evt_notify_data 0
