-- ===== src/Ble/Link/Outcome.antt =====
-- What a request that begins a GATT procedure does to the BLE state.
use ch32v20x_usb_mux_uart_bl.Prelude.{
  ℕ, ◌<◌, ◌≡◌, ◌≢◌, refl, sym, ap, ◌∙◌, Bool, true, false, not, ◌==◌, List, set, set-set,
  set-get_or, if-cases, if◌then◌else◌, arith, ◌∷◌, Ptr,
}
use ch32v20x_usb_mux_uart_bl.Proto.{Status}
use ch32v20x_usb_mux_uart_bl.Hal.{Call, WriteReq}
use ch32v20x_usb_mux_uart_bl.Firmware.{Firmware, emit}
use ch32v20x_usb_mux_uart_bl.Ble.Types.{
  LinkCtx, Proc, Ble, proc_disc_service, proc_disc_char, proc_disc_desc, proc_read, proc_write_req,
  proc_subscribe, proc_unsubscribe, proc_exchange_mtu,
}
use ch32v20x_usb_mux_uart_bl.Ble.Status.{
  success, att_write_req, gap_connhandle_init, map_ble_status,
}
use ch32v20x_usb_mux_uart_bl.Ble.Link.{
  link_at, set_link, init_link, begin_proc, map_op_to_state, require, submit, submit_write,
  alloc_write_req, start_discover_services, start_discover_chars, start_discover_descs, read,
  write_req, subscribe, unsubscribe, exchange_mtu,
}
use ch32v20x_usb_mux_uart_bl.Ble.Link.Require.{require-cases}

-- The BLE state with another context for a slot.
abbrev pub with_link : ℕ → LinkCtx → Ble → Ble
with_link slot l b = record b { links = set b.links slot l }

pub with_link_twice :
    (slot : ℕ) (l m : LinkCtx) (b : Ble)
    → with_link slot m (with_link slot l b) ≡ with_link slot m b
with_link_twice slot l m b = ap (λ ls. record b { links = ls }) (set-set b.links slot l m)

-- The context of a link that waits for a procedure.
abbrev pub working : Proc → ℕ → ℕ → ℕ → LinkCtx → LinkCtx
working proc handle first last ctx = record ctx {
  proc_busy = true;
  proc = proc;
  proc_handle = handle;
  range_start = first;
  range_end = last;
  state = map_op_to_state proc;
}

-- A request is refused and the BLE state is as it was, or it is accepted: then the link was attached
-- and idle, and it now waits for the procedure.
pub data Outcome (slot : ℕ) (busy : LinkCtx → LinkCtx) (fw : Firmware) (r : Status × Firmware)
    : Type 0 where
  refused : r.0 ≢ Status.ok → r.1.ble ≡ fw.ble → Outcome slot busy fw r
  begun :
      r.0 ≡ Status.ok
      → slot < 3
      → (link_at slot fw).conn_handle ≢ gap_connhandle_init
      → (link_at slot fw).proc_busy ≡ false
      → r.1.ble ≡ with_link slot (busy (link_at slot fw)) fw.ble
      → Outcome slot busy fw r

pub map_ble_status-success : (s : ℕ) → (s == success) ≡ false → map_ble_status s ≢ Status.ok
unfolding map_ble_status
map_ble_status-success s h e = ground (arith, h, e)

-- A context that is written back as it was.
unchanged :
    (slot : ℕ) (fw : Firmware)
    → (link_at slot fw).proc_busy ≡ false
    → with_link slot (record (link_at slot fw) { proc_busy = false }) fw.ble ≡ fw.ble
unchanged slot fw idle =
    let ctx = link_at slot fw in
    ap (λ b. with_link slot (record ctx { proc_busy = b }) fw.ble) (sym idle)
    ∙ ap (λ ls. record (fw.ble) { links = ls }) (set-get_or fw.ble.links slot (init_link 0))

if_emit-ble : (b : Bool) (c : Call) (fw : Firmware) → (if b then emit c fw else fw).ble ≡ fw.ble
unfolding emit
if_emit-ble true c fw = refl
if_emit-ble false c fw = refl

negated : (b : Bool) → not b ≡ true → b ≡ false
negated true h = sym h
negated false h = refl

alloc_write_req-ble :
    (ret : List Call → ℕ) (conn opcode attr : ℕ) (buf : Ptr) (len : ℕ) (cmd : Bool) (fw : Firmware)
    → (alloc_write_req ret conn opcode attr buf len cmd fw).2.ble ≡ fw.ble
unfolding alloc_write_req
alloc_write_req-ble ret conn opcode attr buf len cmd fw = ground arith

module _ (ret : List Call → ℕ) (slot : ℕ) (fw : Firmware) where
  -- The outcome of `submit` in a state that differs from `fw` by the busy flag at most.
  submit-Outcome :
      (l : LinkCtx) (fw' : Firmware) (c : Call) (frees : Bool) (proc : Proc) (h a b : ℕ)
      → fw'.ble ≡ with_link slot l fw.ble
      → slot < 3
      → (link_at slot fw).conn_handle ≢ gap_connhandle_init
      → (link_at slot fw).proc_busy ≡ false
      → Outcome slot
          (working proc h a b)
          fw
          (submit ret slot (link_at slot fw) c frees (begin_proc proc h a b) fw')
  unfolding submit begin_proc
  submit-Outcome l fw' c frees proc h a b same small there idle =
      let ctx = link_at slot fw in
      let busy : LinkCtx = record ctx { proc_busy = true } in
      let after : (m : LinkCtx)
          → with_link slot m (with_link slot busy fw'.ble) ≡ with_link slot m fw.ble =
        λ m.
          with_link_twice slot busy m fw'.ble
          ∙ ap (with_link slot m) same
          ∙ with_link_twice slot l m fw.ble in
      if-cases (Outcome slot (working proc h a b) fw) (not (ret (c ∷ fw'.calls) == success)) _ _
        (λ no. refused (map_ble_status-success (ret (c ∷ fw'.calls)) (negated _ no)) (
          if_emit-ble frees _ _
          ∙ after (record ctx { proc_busy = false })
          ∙ unchanged slot fw idle))
        (λ yes. begun refl small there idle (after (working proc h a b ctx)))

  submit_write-Outcome :
      (c : WriteReq → Call) (proc : Proc) (attr : ℕ) (buf : Ptr) (len : ℕ)
      → slot < 3
      → (link_at slot fw).conn_handle ≢ gap_connhandle_init
      → (link_at slot fw).proc_busy ≡ false
      → Outcome slot
          (working proc attr 0 0)
          fw
          (submit_write ret slot (link_at slot fw) c proc attr buf len fw)
  unfolding submit_write
  submit_write-Outcome c proc attr buf len small there idle =
      let ctx = link_at slot fw in
      let busy : LinkCtx = record ctx { proc_busy = true } in
      let asked =
        alloc_write_req ret ctx.conn_handle att_write_req attr buf len false
          (set_link slot busy fw) in
      let same =
        alloc_write_req-ble ret ctx.conn_handle att_write_req attr buf len false
          (set_link slot busy fw) in
      if-cases (Outcome slot (working proc attr 0 0) fw) (not (asked.0 == success)) _ _
        (λ no. refused (map_ble_status-success asked.0 (negated _ no)) (
          ap (with_link slot (record ctx { proc_busy = false })) same
          ∙ with_link_twice slot busy (record ctx { proc_busy = false }) fw.ble
          ∙ unchanged slot fw idle))
        (λ yes. submit-Outcome busy asked.2 (c asked.1) true proc attr 0 0 same small there idle)

-- The requests that begin a procedure, with their parameters.
pub data Start : Type 0 where
  discovers_services : Start
  discovers_chars discovers_descs : ℕ → ℕ → Start
  reads subscribes unsubscribes exchanges_mtu : ℕ → Start
  writes : ℕ → Ptr → ℕ → Start

abbrev pub start : (List Call → ℕ) → Start → ℕ → Firmware → Status × Firmware
start ret discovers_services slot = start_discover_services ret slot
start ret (discovers_chars a b) slot = start_discover_chars ret slot a b
start ret (discovers_descs a b) slot = start_discover_descs ret slot a b
start ret (reads h) slot = read ret slot h
start ret (subscribes h) slot = subscribe ret slot h
start ret (unsubscribes h) slot = unsubscribe ret slot h
start ret (exchanges_mtu mtu) slot = exchange_mtu ret slot mtu
start ret (writes h buf len) slot = write_req ret slot h buf len

-- The link that has begun what was asked.
abbrev pub started : Start → LinkCtx → LinkCtx
started discovers_services = working proc_disc_service 0 0 0
started (discovers_chars a b) = working proc_disc_char 0 a b
started (discovers_descs a b) = working proc_disc_desc 0 a b
started (reads h) = working proc_read h 0 0
started (subscribes h) = working proc_subscribe h 0 0
started (unsubscribes h) = working proc_unsubscribe h 0 0
started (exchanges_mtu mtu) = working proc_exchange_mtu 0 0 0
started (writes h buf len) = working proc_write_req h 0 0

module _ (ret : List Call → ℕ) (slot : ℕ) (fw : Firmware) where
  require-Outcome :
      (valid : Bool) (go : LinkCtx → Firmware → Status × Firmware) (busy : LinkCtx → LinkCtx)
      → (slot < 3
          → (link_at slot fw).conn_handle ≢ gap_connhandle_init
          → (link_at slot fw).proc_busy ≡ false
          → Outcome slot busy fw (go (link_at slot fw) fw))
      → Outcome slot busy fw (require slot valid go fw)
  require-Outcome valid go busy =
      require-cases (Outcome slot busy fw) slot valid go fw (λ s bad. refused bad refl)

  by_submit :
      (c : Call) (proc : Proc) (h a b : ℕ)
      → slot < 3
      → (link_at slot fw).conn_handle ≢ gap_connhandle_init
      → (link_at slot fw).proc_busy ≡ false
      → Outcome slot
          (working proc h a b)
          fw
          (submit ret slot (link_at slot fw) c false (begin_proc proc h a b) fw)
  by_submit c proc h a b =
      submit-Outcome ret slot fw (link_at slot fw) fw c false proc h a b (
        sym
          (ap (λ ls. record (fw.ble) { links = ls }) (set-get_or fw.ble.links slot (init_link 0))))

  -- A request to begin a GATT procedure either fails with a status other than VP_STATUS_OK and leaves
  -- the BLE state as it was, or succeeds: then the slot is one of the three, its link was attached and
  -- waited for no other procedure, it now waits for this one with its parameters, and no other BLE
  -- state has changed. So a link has one procedure at a time.
  pub start-Outcome : (s : Start) → Outcome slot (started s) fw (start ret s slot fw)
  unfolding start_discover_services start_discover_chars start_discover_descs read subscribe
      unsubscribe exchange_mtu write_req
  start-Outcome discovers_services = require-Outcome true _ _ (by_submit _ proc_disc_service 0 0 0)
  start-Outcome (discovers_chars a b) = require-Outcome _ _ _ (by_submit _ proc_disc_char 0 a b)
  start-Outcome (discovers_descs a b) = require-Outcome _ _ _ (by_submit _ proc_disc_desc 0 a b)
  start-Outcome (reads h) = require-Outcome _ _ _ (by_submit _ proc_read h 0 0)
  start-Outcome (subscribes h) =
      require-Outcome _ _ _ (submit_write-Outcome ret slot fw _ proc_subscribe h _ 2)
  start-Outcome (unsubscribes h) =
      require-Outcome _ _ _ (submit_write-Outcome ret slot fw _ proc_unsubscribe h _ 2)
  start-Outcome (exchanges_mtu mtu) = require-Outcome _ _ _ (by_submit _ proc_exchange_mtu 0 0 0)
  start-Outcome (writes h buf len) =
      require-Outcome _ _ _ (submit_write-Outcome ret slot fw _ proc_write_req h buf len)
