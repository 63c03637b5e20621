-- ===== src/Ble/Gatt/Finish.antt =====
-- When a GATT procedure ends.
use ch32v20x_usb_mux_uart_bl.Prelude.{
  ℕ, ◌≤◌, ◌<◌, ◌≡◌, ◌≢◌, ◌⊎◌, refl, sym, ◌∙◌, subst, true, false, leb, List, arith, Ptr,
}
use ch32v20x_usb_mux_uart_bl.Proto.{Status}
use ch32v20x_usb_mux_uart_bl.Hal.{Call}
use ch32v20x_usb_mux_uart_bl.Firmware.{Firmware}
use ch32v20x_usb_mux_uart_bl.Ble.Types
use ch32v20x_usb_mux_uart_bl.Ble.Types.{
  LinkCtx, Proc, proc_none, proc_disc_service, proc_disc_char, proc_disc_desc, proc_read,
  proc_write_req, proc_subscribe, proc_unsubscribe, proc_exchange_mtu, GattMsg, AttMsg, error_rsp,
  exchange_mtu_rsp, read_by_grp_type_rsp, read_by_type_rsp, find_info_rsp, read_rsp, write_rsp,
}
use ch32v20x_usb_mux_uart_bl.Ble.Status.{
  att_exchange_mtu_req, att_find_info_req, att_read_by_type_req, att_read_req,
  att_read_by_grp_type_req, att_write_req,
}
use ch32v20x_usb_mux_uart_bl.Ble.Link.{link_at, get_ctx}
use ch32v20x_usb_mux_uart_bl.Ble.Link.Outcome.{
  Start, start, Outcome, refused, begun, started, start-Outcome,
}
use ch32v20x_usb_mux_uart_bl.Ble.Gatt.{
  handle_discover_services, handle_discover_chars, handle_discover_descs, handle_proc, handle_msg,
  handle_gatt_msg,
}

-- The request of a procedure, to which an error response refers.
abbrev pub request_of : Proc → ℕ
request_of proc_disc_service = att_read_by_grp_type_req
request_of proc_disc_char = att_read_by_type_req
request_of proc_disc_desc = att_find_info_req
request_of proc_read = att_read_req
request_of proc_exchange_mtu = att_exchange_mtu_req
request_of proc_none = 0
request_of _ = att_write_req

-- The statuses of the last message of a procedure that the library runs: bleProcedureComplete, 0x1A,
-- and bleTimeout, 0x17.
abbrev pub IsOver : ℕ → Type 0
IsOver st = (st ≡ 0x1a) ⊎ (st ≡ 0x17)

-- The messages that end a procedure: its response, the last one of a discovery with at least one
-- entry, and the error response to its request.
pub data Ends : Proc → ℕ → AttMsg → Type 0 where
  services :
      {st n len : ℕ} {bs : List ℕ}
      → IsOver st
      → n ≢ 0
      → 4 ≤ len
      → Ends proc_disc_service st (read_by_grp_type_rsp n len bs)
  chars :
      {st n len : ℕ} {bs : List ℕ}
      → IsOver st
      → n ≢ 0
      → 5 ≤ len
      → Ends proc_disc_char st (read_by_type_rsp n len bs)
  descs :
      {st n format : ℕ} {bs : List ℕ}
      → IsOver st
      → n ≢ 0
      → Ends proc_disc_desc st (find_info_rsp n format bs)
  value : {st len : ℕ} {p : Ptr} → Ends proc_read st (read_rsp p len)
  written : {st : ℕ} → Ends proc_write_req st write_rsp
  subscribed : {st : ℕ} → Ends proc_subscribe st write_rsp
  unsubscribed : {st : ℕ} → Ends proc_unsubscribe st write_rsp
  exchanged : {st mtu : ℕ} → Ends proc_exchange_mtu st (exchange_mtu_rsp mtu)
  failed : {st h code : ℕ} (p : Proc) → p ≢ proc_none → Ends p st (error_rsp (request_of p) h code)

-- The link is ready for the next request.
pub record IsReady (l : LinkCtx) : Type 0 where
  pub at_ready : l.state ≡ Types.ready
  pub not_busy : l.proc_busy ≡ false
  pub no_proc : l.proc ≡ proc_none

handle_gatt_msg-inside :
    (ret : List Call → ℕ) (slot : ℕ) (g : GattMsg) (fw : Firmware)
    → slot < 3
    → handle_gatt_msg ret slot g fw ≡ handle_msg ret slot (link_at slot fw) g g.msg fw
unfolding handle_gatt_msg get_ctx
handle_gatt_msg-inside ret slot g fw small =
    let inside : leb 3 slot ≡ false = ground (arith, small) in
    rw (handle_gatt_msg, get_ctx, inside) refl

-- A response of a discovery without an entry.
pub data Empty : Proc → AttMsg → Type 0 where
  no_services : {len : ℕ} {bs : List ℕ} → Empty proc_disc_service (read_by_grp_type_rsp 0 len bs)
  no_chars : {len : ℕ} {bs : List ℕ} → Empty proc_disc_char (read_by_type_rsp 0 len bs)
  no_descs : {format : ℕ} {bs : List ℕ} → Empty proc_disc_desc (find_info_rsp 0 format bs)

handle_msg-Empty :
    (ret : List Call → ℕ) (slot : ℕ) (l : LinkCtx) (g : GattMsg) (p : Proc) (m : AttMsg)
    (fw : Firmware)
    → l.proc_busy ≡ true
    → l.proc ≡ p
    → Empty p m
    → handle_msg ret slot l g m fw ≡ fw
unfolding handle_msg handle_proc handle_discover_services handle_discover_chars
    handle_discover_descs
handle_msg-Empty ret slot l g _ _ fw busy waits no_services = rw (busy, waits) refl
handle_msg-Empty ret slot l g _ _ fw busy waits no_chars = rw (busy, waits) refl
handle_msg-Empty ret slot l g _ _ fw busy waits no_descs = rw (busy, waits) refl

not_begun :
    (slot : ℕ) (s : Start) (fw : Firmware) (r : Status × Firmware)
    → (link_at slot fw).proc_busy ≡ true
    → Outcome slot (started s) fw r
    → r.0 ≢ Status.ok
not_begun slot s fw r busy (refused bad _) = bad
not_begun slot s fw r busy (begun _ _ _ idle _) = cc

-- A response of a discovery without an entry changes nothing, whatever its status is: also when the
-- library reports with it that the discovery is complete or has timed out, the link goes on waiting,
-- and every request to begin a procedure is refused.
pub handle_gatt_msg-Empty :
    (ret : List Call → ℕ) (slot : ℕ) (g : GattMsg) (fw : Firmware)
    → slot < 3
    → (link_at slot fw).proc_busy ≡ true
    → Empty (link_at slot fw).proc g.msg
    → let fw' = handle_gatt_msg ret slot g fw in
      (fw' ≡ fw) × ((s : Start) → (start ret s slot fw').0 ≢ Status.ok)
handle_gatt_msg-Empty ret slot g fw small busy e =
    let l = link_at slot fw in
    let same =
      handle_gatt_msg-inside ret slot g fw small
      ∙ handle_msg-Empty ret slot l g l.proc g.msg fw busy refl e in
    (
      same,
      λ s.
          subst (λ f. (start ret s slot f).0 ≢ Status.ok) (sym same)
            (not_begun slot s fw (start ret s slot fw) busy (start-Outcome ret slot fw s)),
    )
