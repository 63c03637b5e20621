-- ===== src/Ble/History.antt =====
-- The BLE manager over its whole life: what it is given after `BleHostMgr_Init`, in any order.
use ch32v20x_usb_mux_uart_bl.Prelude.{
  ℕ, zero, suc, ◌<◌, refl, sym, subst, if-cases, not, ◌==◌, bit_and, List, [], ◌∷◌, Option, All,
  get_or, arith, Ptr,
}
use ch32v20x_usb_mux_uart_bl.Proto.{Hdr}
use ch32v20x_usb_mux_uart_bl.Hal.{Call}
use ch32v20x_usb_mux_uart_bl.Firmware.{Firmware, emit}
use ch32v20x_usb_mux_uart_bl.Ble.Types.{GapEvent, GattMsg}
use ch32v20x_usb_mux_uart_bl.Ble.Link
use ch32v20x_usb_mux_uart_bl.Ble.Link.{init_link}
use ch32v20x_usb_mux_uart_bl.Ble.Link.Invariant.{resting, at_idle}
use ch32v20x_usb_mux_uart_bl.Ble.Host
use ch32v20x_usb_mux_uart_bl.Ble.Host.{event_cb, rssi_cb, process_event, init_slot}
use ch32v20x_usb_mux_uart_bl.Ble.Host.Invariant.{IsPair, IsBle}
use ch32v20x_usb_mux_uart_bl.Ble.Host.Events.{
  IsEvent, event_cb-IsBle, receive_msgs-IsBle, rssi_cb-ble,
}
use ch32v20x_usb_mux_uart_bl.Ble.Mgmt.{handle_mgmt}
use ch32v20x_usb_mux_uart_bl.Ble.Mgmt.Invariant.{handle_mgmt-IsBle}

-- A request of the host, an event or an RSSI value of the library, or the event bits of the task with
-- the messages that wait.
pub data Input : Type 0 where
  request : Hdr → Ptr → ℕ → Input
  gap_event : GapEvent → Input
  rssi : ℕ → ℕ → Input
  task_event : ℕ → List (Option GattMsg) → Input

unfoldable pub step : (List Call → ℕ) → Input → Firmware → Firmware
step ret (request hdr p n) fw = handle_mgmt ret hdr p n fw
step ret (gap_event e) fw = event_cb ret e fw
step ret (rssi h value) fw = rssi_cb h value fw
step ret (task_event events ms) fw = (process_event ret events ms fw).1

unfoldable pub run : (List Call → ℕ) → List Input → Firmware → Firmware
run ret [] fw = fw
run ret (i ∷ is) fw = run ret is (step ret i fw)

-- The library names no link by GAP_CONNHANDLE_INIT, the handle of no connection.
abbrev pub IsInput : Input → Type 0
IsInput (gap_event e) = IsEvent e
IsInput _ = Unit

step-IsBle :
    (ret : List Call → ℕ) (i : Input) (fw : Firmware)
    → IsInput i
    → IsBle fw.ble
    → IsBle (step ret i fw).ble
unfolding step process_event
step-IsBle ret (request hdr p n) fw h v = handle_mgmt-IsBle ret hdr p n fw v
step-IsBle ret (gap_event e) fw h v = event_cb-IsBle ret e fw h v
step-IsBle ret (rssi handle value) fw h v = subst IsBle (sym (rssi_cb-ble handle value fw)) v
step-IsBle ret (task_event events ms) fw h v =
    if-cases (λ (r : ℕ × Firmware). IsBle r.1.ble) (not (bit_and events 0x8000 == 0)) _ _
      (λ _. receive_msgs-IsBle ret ms fw v) (λ _. v)

init-IsPair : (i : ℕ) → i < 3 → IsPair 0xff i init_slot (init_link i)
init-IsPair i small = record {
  link = record {
    own = refl;
    phase = resting refl refl at_idle;
    idle_down = λ e. refl;
    down_idle = λ e. refl;
  };
  same_handle = refl;
  up = λ e. cc;
  down = λ _. refl;
  waits = λ e. cc;
  waited_for = λ e. absurd (omega arith);
}

pub init-IsBle : (task_id : ℕ) (fw : Firmware) → IsBle (Host.init task_id fw).ble
unfolding Host.init Link.init emit
init-IsBle task_id fw = record { three_slots = refl; three_links = refl; pair = pair }
  where
    pair :
        (i : ℕ)
        → i < 3
        → IsPair 0xff i
            (get_or (init_slot ∷ init_slot ∷ init_slot ∷ []) i init_slot)
            (get_or (init_link 0 ∷ init_link 1 ∷ init_link 2 ∷ []) i (init_link 0))
    pair zero h = init-IsPair 0 h
    pair (suc zero) h = init-IsPair 1 h
    pair (suc (suc zero)) h = init-IsPair 2 h
    pair (suc (suc (suc k))) h = absurd (omega arith)

run_from-IsBle :
    (ret : List Call → ℕ) (is : List Input) (fw : Firmware)
    → All IsInput is
    → IsBle fw.ble
    → IsBle (run ret is fw).ble
unfolding run
run_from-IsBle ret [] fw hs v = v
run_from-IsBle ret (i ∷ is) fw hs v = run_from-IsBle ret is _ hs.1 (step-IsBle ret i fw hs.0 v)

-- After `BleHostMgr_Init`, whatever requests, events and messages follow and whatever the BLE library
-- returns, the BLE state is sound: each link is busy exactly while it waits for a GATT procedure, with
-- the state of that procedure, and else idle, connected or ready; each slot and its link have the same
-- connection, and they have one exactly when the slot is connected; a slot is connecting exactly when
-- it is the one that waits for a link. The library is assumed to report no link under
-- GAP_CONNHANDLE_INIT.
pub run-IsBle :
    (ret : List Call → ℕ) (is : List Input) (task_id : ℕ) (fw : Firmware)
    → All IsInput is
    → IsBle (run ret is (Host.init task_id fw)).ble
run-IsBle ret is task_id fw hs =
    run_from-IsBle ret is (Host.init task_id fw) hs (init-IsBle task_id fw)
