-- ===== src/Ble/Mgmt/Invariant.antt =====
-- Every management request keeps the invariant of the BLE state.
use ch32v20x_usb_mux_uart_bl.Prelude.{
  ℕ, ◌<◌, ◌≤◌, ◌≡◌, refl, sym, subst, if-cases, ltb, leb, ◌==◌, ◌||◌, not, List, set, set-set,
  get_or, get_or-set_self, arith, none, some, Ptr, read_bytes, leb_false→lt,
}
use ch32v20x_usb_mux_uart_bl.Proto.{Hdr, Status}
use ch32v20x_usb_mux_uart_bl.Hal.{Call}
use ch32v20x_usb_mux_uart_bl.Firmware.{Firmware, emit}
use ch32v20x_usb_mux_uart_bl.Ble.Types.{LinkCtx, Slot, slot_idle, slot_connecting, Ble}
use ch32v20x_usb_mux_uart_bl.Ble.Status.{success, max_links}
use ch32v20x_usb_mux_uart_bl.Ble.AttCache.{reset_slot}
use ch32v20x_usb_mux_uart_bl.Ble.Report.Still.{queue_rsp-ble, report_write_result-ble}
use ch32v20x_usb_mux_uart_bl.Ble.Link.{
  init_link, link_at, reset, invoke, alloc_write_req, send_write_cmd, write_cmd,
}
use ch32v20x_usb_mux_uart_bl.Ble.Link.Require.{require-cases}
use ch32v20x_usb_mux_uart_bl.Ble.Link.Outcome.{with_link}
use ch32v20x_usb_mux_uart_bl.Ble.Link.Invariant.{start-LinksKept}
use ch32v20x_usb_mux_uart_bl.Ble.Host.{init_slot, slot_at, is_idle, update_state}
use ch32v20x_usb_mux_uart_bl.Ble.Host.Invariant.{
  IsHost, IsBle, LinksKept-IsBle, placed-IsHost, none_waits, one_waits, fresh_link, down-IsPair,
}
use ch32v20x_usb_mux_uart_bl.Ble.Host.Events.{reset-ble, reset_slot-ble}
use ch32v20x_usb_mux_uart_bl.Ble.Mgmt.{
  set_scan_param, scan_param_request, scan_start, scan_stop, connect_slot, connect, for_handle,
  handle_mgmt,
}
use ch32v20x_usb_mux_uart_bl.Ble.Mgmt.Cases.{Works, handle_mgmt_case}

send_write_cmd-ble :
    (ret : List Call → ℕ) (slot attr : ℕ) (buf : Ptr) (len : ℕ) (ctx : LinkCtx) (fw : Firmware)
    → (send_write_cmd ret slot attr buf len ctx fw).1.ble ≡ fw.ble
unfolding send_write_cmd alloc_write_req
send_write_cmd-ble ret slot attr buf len ctx fw = grind (arith, report_write_result-ble)

write_cmd-ble :
    (ret : List Call → ℕ) (slot attr : ℕ) (buf : Ptr) (len : ℕ) (fw : Firmware)
    → (write_cmd ret slot attr buf len fw).1.ble ≡ fw.ble
unfolding write_cmd
write_cmd-ble ret slot attr buf len fw =
    require-cases (λ r. r.1.ble ≡ fw.ble) slot _ _ fw (λ s _. refl)
      (λ _ _ _. send_write_cmd-ble ret slot attr buf len (link_at slot fw) fw)

module _ (ret : List Call → ℕ) (fw : Firmware) (v : IsBle fw.ble) where
  scan_param_request-IsBle : (p : Ptr) (n : ℕ) → IsBle (scan_param_request ret p n fw).1.ble
  unfolding set_scan_param
  scan_param_request-IsBle none n = v
  scan_param_request-IsBle (some bs) n =
      if-cases (λ (r : Status × Firmware). IsBle r.1.ble) (ltb n 8) _ _ (λ _. v) (λ _. v)

  scan_start-IsBle : IsBle (scan_start ret fw).1.ble
  unfolding scan_start
  scan_start-IsBle =
      if-cases (λ (r : Status × Firmware). IsBle r.1.ble) fw.ble.mgr.active_scan _ _ (λ _. v)
        (λ _.
          if-cases (λ (r : Status × Firmware). IsBle r.1.ble) (not (_ == success)) _ _ (λ _. v)
            (λ _. v))

  scan_stop-IsBle : IsBle (scan_stop ret fw).1.ble
  unfolding scan_stop
  scan_stop-IsBle =
      if-cases (λ (r : Status × Firmware). IsBle r.1.ble) (not (_ == success)) _ _ (λ _. v) (λ _. v)

  for_handle-IsBle : (c : ℕ → Call) (slot : ℕ) → IsBle (for_handle ret c slot fw).1.ble
  unfolding for_handle
  for_handle-IsBle c slot = v

  -- The slot as `connect_slot` leaves it before the call of the library.
  abbrev asking : List ℕ → Slot → Slot
  asking bs s = record s {
    state = slot_connecting;
    addr_type = get_or bs 1 0;
    addr = read_bytes bs 2 6;
  }

  connect_slot-IsBle :
      (k : ℕ) (bs : List ℕ)
      → k < 3
      → 3 ≤ fw.ble.mgr.pending_connect_slot
      → (slot_at k fw).state ≡ slot_idle
      → IsBle (connect_slot ret k bs fw).1.ble
  unfolding connect_slot update_state invoke emit
  connect_slot-IsBle k bs small free idle =
      let (c, cached) = reset_slot-ble k fw in
      let fresh = reset-ble k (reset_slot k fw) small in
      let q = v.pair k small in
      let pending = fw.ble.mgr.pending_connect_slot in
      let slots = fw.ble.mgr.slots in
      let l : LinkCtx = fresh_link (link_at k fw) in
      let s : Slot = asking bs (slot_at k fw) in
      let no_handle = q.down (λ e. cc) in
      let over : (P : Ble → Type 0)
          → P (with_link k l (record (fw.ble) { cache = c }))
          → P (reset k (reset_slot k fw)).ble =
        λ P h. subst P (sym fresh) (
          subst (λ b. P (with_link k (fresh_link (get_or b.links k (init_link 0))) b)) (sym cached)
            h) in
      if-cases (λ (r : Status × Firmware). IsBle r.1.ble) (not (_ == success)) _ _
        (λ _.
          over
            (λ b.
              IsHost 0xff
                (set (set b.mgr.slots k (asking bs (get_or b.mgr.slots k init_slot))) k
                  (record (get_or (set b.mgr.slots k (asking bs (get_or b.mgr.slots k init_slot))) k
                    init_slot) { state = slot_idle }))
                b.links)
            (rw
              (
                set-set slots k s,
                get_or-set_self slots k s init_slot (omega (arith, v.three_slots)),
              )
              (placed-IsHost pending 0xff k slots fw.ble.links (record s { state = slot_idle }) l v
                small
                (down-IsPair 0xff k (record s { state = slot_idle }) (link_at k fw) q.link.own
                  no_handle (λ e. cc) (λ e. cc) (λ e. absurd (omega arith)))
                (λ j h ne t m r. none_waits pending j h (λ e. omega arith) t m r))))
        (λ _.
          over
            (λ b. IsHost k (set b.mgr.slots k (asking bs (get_or b.mgr.slots k init_slot))) b.links)
            (placed-IsHost pending k k slots fw.ble.links s l v small
              (down-IsPair k k s (link_at k fw) q.link.own no_handle (λ e. cc) (λ _. refl)
                (λ _. refl))
              (λ j h ne t m r. one_waits pending k j free h ne t m r)))

  connect-IsBle : (p : Ptr) (n : ℕ) → IsBle (connect ret p n fw).1.ble
  unfolding connect
  connect-IsBle none n = v
  connect-IsBle (some bs) n =
      let k : ℕ = get_or bs 0 0 in
      let P : Status × Firmware → Type 0 = λ r. IsBle r.1.ble in
      if-cases P (ltb n 8) _ _ (λ _. v)
        λ _.
          if-cases P (leb max_links k) _ _ (λ _. v)
            λ inside.
              if-cases P
                (ltb fw.ble.mgr.pending_connect_slot max_links
                  || not (is_idle (slot_at k fw).state))
                _ _ (λ _. v)
                λ ready.
                  connect_slot-IsBle k bs (leb_false→lt 3 k inside) (ground (arith, ready))
                    (ground (arith, ready))

  Works-IsBle : (p : Ptr) (n : ℕ) → Works ret p n (λ fw'. IsBle fw'.ble) fw
  Works-IsBle p n = record {
    still = v;
    starts = λ s slot. LinksKept-IsBle fw.ble _ (start-LinksKept ret slot fw s v.three_links) v;
    write_cmds = λ slot h buf len. subst IsBle (sym (write_cmd-ble ret slot h buf len fw)) v;
    calls = for_handle-IsBle;
    params = scan_param_request-IsBle p n;
    scan_starts = scan_start-IsBle;
    scan_stops = scan_stop-IsBle;
    connects = connect-IsBle p n;
  }

pub handle_mgmt-IsBle :
    (ret : List Call → ℕ) (hdr : Hdr) (p : Ptr) (n : ℕ) (fw : Firmware)
    → IsBle fw.ble
    → IsBle (handle_mgmt ret hdr p n fw).ble
handle_mgmt-IsBle ret hdr p n fw v =
    handle_mgmt_case hdr fw (λ fw'. IsBle fw'.ble) (λ fw'. IsBle fw'.ble)
      (λ s p' n' fw' _ _ w. subst IsBle (sym (queue_rsp-ble hdr s p' n' fw')) w) ret p n
      (Works-IsBle ret fw v p n)
