-- ===== src/Ble/Host/Events.antt =====
-- The events and messages of the BLE library keep the invariant of the BLE state.
use ch32v20x_usb_mux_uart_bl.Prelude.{
  ℕ, zero, ◌≤◌, suc, ◌+◌, ◌<◌, ◌≡◌, ◌≢◌, ◌⊎◌, inl, inr, refl, sym, ◌∙◌, subst, List, [], ◌∷◌,
  length, set, read_bytes, get_or, arith, false, Bool-cases, if-cases, ltb, leb, ◌==◌, ◌&&◌, ==_iff,
  ltb→lt, Option, none, some, if◌then◌else◌,
}
use ch32v20x_usb_mux_uart_bl.Hal.{Call, att_get_mtu}
use ch32v20x_usb_mux_uart_bl.Firmware.{Firmware, emit}
use ch32v20x_usb_mux_uart_bl.Ble.Types
use ch32v20x_usb_mux_uart_bl.Ble.Types.{
  LinkCtx, Slot, SlotState, slot_idle, slot_connecting, slot_connected, HostMgr, Ble, AttSlot,
  GattMsg, AdvReport, GapEvent, device_init_done, device_discovery, device_info,
  ext_adv_device_info, link_established, link_terminated, other_event,
}
use ch32v20x_usb_mux_uart_bl.Ble.Status.{gap_connhandle_init, success, max_links}
use ch32v20x_usb_mux_uart_bl.Ble.AttCache
use ch32v20x_usb_mux_uart_bl.Ble.AttCache.{reset_slot}
use ch32v20x_usb_mux_uart_bl.Ble.Report.Still.{queue_evt-ble}
use ch32v20x_usb_mux_uart_bl.Ble.Link.{init_link, link_at, get_ctx, end_proc, reset, attach, invoke}
use ch32v20x_usb_mux_uart_bl.Ble.Link.Outcome.{with_link}
use ch32v20x_usb_mux_uart_bl.Ble.Gatt.{handle_gatt_msg}
use ch32v20x_usb_mux_uart_bl.Ble.Gatt.Invariant.{handle_gatt_msg-LinksKept}
use ch32v20x_usb_mux_uart_bl.Ble.Host.{
  init_slot, slot_at, set_slot, update_state, find_from, find_slot_by_conn_handle,
  report_conn_state, report_scan_result, report_rssi_result, rssi_cb, link_down, connect_failed,
  connect_done, process_gatt_msg, link_up, event_cb, receive_msgs,
}
use ch32v20x_usb_mux_uart_bl.Ble.Host.Invariant.{
  IsPair, IsHost, IsBle, LinksKept-IsBle, placed-IsHost, none_waits, fresh_link, attached-IsLink,
  down-IsPair,
}

report_conn_state-ble :
    (slot h : ℕ) (st : SlotState) (status : ℕ) (addr : List ℕ) (kind : ℕ) (fw : Firmware)
    → (report_conn_state slot h st status addr kind fw).ble ≡ fw.ble
unfolding report_conn_state
report_conn_state-ble slot h st status addr kind fw = queue_evt-ble _ slot _ _ 14 fw

pub reset-ble :
    (slot : ℕ) (fw : Firmware)
    → slot < 3
    → (reset slot fw).ble ≡ with_link slot (fresh_link (link_at slot fw)) fw.ble
unfolding reset get_ctx
reset-ble slot fw small =
    let inside : leb 3 slot ≡ false = ground (arith, small) in rw (reset, get_ctx, inside) refl

-- The BLE state with another cache.
abbrev with_cache : List AttSlot → Ble → Ble
with_cache c b = record b { cache = c }

pub reset_slot-ble :
    (slot : ℕ) (fw : Firmware)
    → (c : List AttSlot) × ((reset_slot slot fw).ble ≡ with_cache c fw.ble)
unfolding reset_slot
reset_slot-ble slot fw = elim (Bool-cases (leb 3 slot)) [
  | inl out ↦ (fw.ble.cache, rw (reset_slot, out) refl)
  | inr inside ↦ (set fw.ble.cache slot AttCache.no_attributes, rw (reset_slot, inside) refl)
]

-- What is found has the connection that was asked for.
find_from-found :
    (h i : ℕ) (ss : List Slot) (k : ℕ)
    → find_from h i ss ≡ some k
    → (j : ℕ) × (k ≡ i + j) × (j < length ss) × ((get_or ss j init_slot).conn_handle ≡ h)
find_from-found h i [] k e = cc
find_from-found h i (s ∷ ss) k e = elim (Bool-cases (s.conn_handle == h)) [
  | inl hit ↦
      let at_i : some i ≡ some k = rw hit at e in
      (zero, ground (arith, at_i), omega arith, (==_iff s.conn_handle h).0 hit)
  | inr miss ↦
      let behind : find_from h (i + 1) ss ≡ some k = rw miss at e in
      let (j, here, inside, same) = find_from-found h (i + 1) ss k behind in
      (suc j, omega (arith, here), omega (arith, inside), same)
]

attach-ble :
    (ret : List Call → ℕ) (slot h : ℕ) (fw : Firmware)
    → slot < 3
    → (mtu : ℕ) × ((attach ret slot h fw).ble
        ≡ with_link slot
            (end_proc Types.connected (record (link_at slot fw) { conn_handle = h; mtu = mtu }))
            fw.ble)
unfolding attach get_ctx invoke emit
attach-ble ret slot h fw small =
    let inside : leb 3 slot ≡ false = ground (arith, small) in
    let mtu : ℕ = ret (att_get_mtu h ∷ fw.calls) in
    (if mtu == 0 then 23 else mtu, rw (attach, get_ctx, inside) refl)

connected_or : (st : SlotState) → (st ≡ slot_connected) ⊎ (st ≢ slot_connected)
connected_or slot_idle = inr (λ e. cc)
connected_or slot_connecting = inr (λ e. cc)
connected_or slot_connected = inl refl

-- The slot with a connection that is not GAP_CONNHANDLE_INIT is connected.
found :
    (h k : ℕ) (fw : Firmware)
    → IsBle fw.ble
    → h ≢ gap_connhandle_init
    → find_slot_by_conn_handle h fw ≡ some k
    → (k < 3) × ((slot_at k fw).state ≡ slot_connected)
unfolding find_slot_by_conn_handle
found h k fw v there e =
    let (j, at, inside, same) = find_from-found h 0 fw.ble.mgr.slots k e in
    let here : j ≡ k = omega arith in
    let small : k < 3 = omega (arith, v.three_slots) in
    let q = v.pair k small in
    let at_k = subst (λ i. (slot_at i fw).conn_handle ≡ h) here same in
    (
      small,
      elim (connected_or (slot_at k fw).state) [
        | inl up ↦ up
        | inr ne ↦ absurd (there (sym at_k ∙ q.down ne))
      ],
    )

-- A connected slot and its attached link.
up-IsPair :
    (i h mtu : ℕ) (s : Slot) (l : LinkCtx)
    → l.slot_id ≡ i
    → i < 3
    → h ≢ gap_connhandle_init
    → s.conn_handle ≡ h
    → s.state ≡ slot_connected
    → IsPair 0xff i s (end_proc Types.connected (record l { conn_handle = h; mtu = mtu }))
unfolding end_proc
up-IsPair i h mtu s l own small there same up = record {
  link = attached-IsLink i h mtu l own there;
  same_handle = sym same;
  up = λ _ e. there (sym same ∙ e);
  down = λ ne. absurd (ne up);
  waits = λ e. cc;
  waited_for = λ e. absurd (omega arith);
}

-- A change of the manager that leaves the slots and who waits.
module _ (fw : Firmware) (v : IsBle fw.ble) where
  update_state-IsBle : IsBle (update_state fw).ble
  unfolding update_state
  update_state-IsBle = v

  -- A terminated link.
  link_down-IsBle :
      (k h reason : ℕ)
      → k < 3
      → (slot_at k fw).state ≡ slot_connected
      → IsBle (link_down k h reason fw).ble
  unfolding link_down update_state
  link_down-IsBle k h reason small up =
      let fw' = reset k (reset_slot k fw) in
      let (c, cached) = reset_slot-ble k fw in
      let fresh = reset-ble k (reset_slot k fw) small in
      let report =
        report_conn_state-ble k h slot_idle reason (slot_at k fw').addr (slot_at k fw').addr_type
          fw' in
      let q = v.pair k small in
      let after : Ble → Type 0 =
        λ b. IsHost b.mgr.pending_connect_slot (set b.mgr.slots k init_slot) b.links in
      subst after (sym report) (
        subst after (sym fresh) (
          subst (λ b. after (with_link k (fresh_link (get_or b.links k (init_link 0))) b))
            (sym cached)
            (placed-IsHost fw.ble.mgr.pending_connect_slot fw.ble.mgr.pending_connect_slot k
              fw.ble.mgr.slots fw.ble.links init_slot (fresh_link (link_at k fw)) v small
              (down-IsPair fw.ble.mgr.pending_connect_slot k init_slot (link_at k fw) q.link.own
                refl (λ e. cc) (λ e. cc) (λ e. absurd (let w = q.waited_for e in cc)))
              (λ j h' ne t m r. r))))

  -- The slot that waits has a link.
  link_up-IsBle :
      (ret : List Call → ℕ) (k status h kind : ℕ) (addr : List ℕ)
      → k < 3
      → k ≡ fw.ble.mgr.pending_connect_slot
      → h ≢ gap_connhandle_init
      → IsBle (connect_done (link_up ret k status h kind addr fw)).ble
  unfolding connect_done link_up update_state
  link_up-IsBle ret k status h kind addr small waits there =
      let s : Slot = record {
        conn_handle = h;
        state = slot_connected;
        addr_type = kind;
        addr = read_bytes addr 0 6;
      } in
      let placed = set_slot k s fw in
      let (mtu, attached) = attach-ble ret k h placed small in
      let report =
        report_conn_state-ble k h slot_connected status addr kind (attach ret k h placed) in
      let after : Ble → Type 0 = λ b. IsHost 0xff b.mgr.slots b.links in
      subst after (sym report) (
        subst after (sym attached) (
          placed-IsHost fw.ble.mgr.pending_connect_slot 0xff k fw.ble.mgr.slots fw.ble.links s _ v
            small
            (up-IsPair k h mtu s (link_at k fw) (v.pair k small).link.own small there refl refl)
            (λ j h' ne t m q.
              none_waits fw.ble.mgr.pending_connect_slot j h' (λ e. ne (waits ∙ e)) t m q)))

  -- The slot that waits gets no link.
  connect_failed-IsBle :
      (k status : ℕ)
      → k < 3
      → k ≡ fw.ble.mgr.pending_connect_slot
      → IsBle (connect_done (connect_failed k status fw)).ble
  unfolding connect_done connect_failed update_state
  connect_failed-IsBle k status small waits =
      let s : Slot = record (slot_at k fw) { state = slot_idle } in
      let placed = set_slot k s fw in
      let fresh = reset-ble k placed small in
      let report =
        report_conn_state-ble k gap_connhandle_init slot_idle status s.addr s.addr_type
          (reset k placed) in
      let q = v.pair k small in
      let waiting = q.waited_for (sym waits) in
      let after : Ble → Type 0 = λ b. IsHost 0xff b.mgr.slots b.links in
      subst after (sym report) (
        subst after (sym fresh) (
          placed-IsHost fw.ble.mgr.pending_connect_slot 0xff k fw.ble.mgr.slots fw.ble.links s _ v
            small
            (down-IsPair 0xff k s (link_at k fw) q.link.own (q.down (λ e. cc)) (λ e. cc) (λ e. cc)
              (λ e. absurd (omega arith)))
            (λ j h' ne t m r.
              none_waits fw.ble.mgr.pending_connect_slot j h' (λ e. ne (waits ∙ e)) t m r)))

  none-IsBle : 3 ≤ fw.ble.mgr.pending_connect_slot → IsBle (connect_done fw).ble
  unfolding connect_done update_state
  none-IsBle none_does = record {
    three_slots = v.three_slots;
    three_links = v.three_links;
    pair = λ j small.
        none_waits fw.ble.mgr.pending_connect_slot j small (λ e. omega arith) _ _ (v.pair j small);
  }

  link_established-IsBle :
      (ret : List Call → ℕ) (k status h kind : ℕ) (addr : List ℕ)
      → k ≡ fw.ble.mgr.pending_connect_slot
      → (status ≡ success → h ≢ gap_connhandle_init)
      → IsBle
          (if (status == success) && ltb k max_links
            then connect_done (link_up ret k status h kind addr fw)
            else (if ltb k max_links
                then connect_done (connect_failed k status fw)
                else connect_done fw)).ble
  link_established-IsBle ret k status h kind addr waits there =
      if-cases (λ (f : Firmware). IsBle f.ble) ((status == success) && ltb k max_links) _ _
        (λ hit.
          link_up-IsBle ret k status h kind addr (ground (arith, hit)) waits
            (there (ground (arith, hit))))
        (λ _.
          if-cases (λ (f : Firmware). IsBle f.ble) (ltb k max_links) _ _
            (λ small. connect_failed-IsBle k status (ltb→lt k 3 small) waits)
            (λ big. none-IsBle (ground (arith, big, waits))))

  link_terminated-IsBle :
      (h reason : ℕ) (o : Option ℕ)
      → find_slot_by_conn_handle h fw ≡ o
      → h ≢ gap_connhandle_init
      → IsBle (elim o as (λ _. Firmware) [ none ↦ fw | some slot ↦ link_down slot h reason fw ]).ble
  link_terminated-IsBle h reason none e there = v
  link_terminated-IsBle h reason (some k) e there =
      let (small, up) = found h k fw v there e in link_down-IsBle k h reason small up

  process_gatt_msg-IsBle :
      (ret : List Call → ℕ) (g : GattMsg) → IsBle (process_gatt_msg ret g fw).ble
  unfolding process_gatt_msg
  process_gatt_msg-IsBle ret g = of (find_slot_by_conn_handle g.conn_handle fw)
    where
      of :
          (o : Option ℕ)
          → IsBle
              (elim o as (λ _. Firmware) [
                | none ↦ fw
                | some slot ↦ handle_gatt_msg ret slot g fw
              ]).ble
      of none = v
      of (some slot) =
          LinksKept-IsBle fw.ble _ (handle_gatt_msg-LinksKept ret slot g fw v.three_links) v

-- The library names no link by the handle of no connection.
abbrev pub IsEvent : GapEvent → Type 0
IsEvent (link_established status h kind addr) = status ≡ success → h ≢ gap_connhandle_init
IsEvent (link_terminated h reason) = h ≢ gap_connhandle_init
IsEvent _ = Unit

pub event_cb-IsBle :
    (ret : List Call → ℕ) (e : GapEvent) (fw : Firmware)
    → IsEvent e
    → IsBle fw.ble
    → IsBle (event_cb ret e fw).ble
unfolding event_cb report_scan_result update_state
event_cb-IsBle ret device_init_done fw h v = v
event_cb-IsBle ret device_discovery fw h v = v
event_cb-IsBle ret (device_info r) fw h v = subst IsBle (sym (queue_evt-ble _ 0 _ _ 16 fw)) v
event_cb-IsBle ret (ext_adv_device_info r) fw h v =
    subst IsBle (sym (queue_evt-ble _ 0 _ _ 16 fw)) v
event_cb-IsBle ret (link_established status h kind addr) fw there v =
    link_established-IsBle fw v ret fw.ble.mgr.pending_connect_slot status h kind addr refl there
event_cb-IsBle ret (link_terminated h reason) fw there v =
    link_terminated-IsBle fw v h reason (find_slot_by_conn_handle h fw) refl there
event_cb-IsBle ret (other_event op) fw h v = v

pub receive_msgs-IsBle :
    (ret : List Call → ℕ) (ms : List (Option GattMsg)) (fw : Firmware)
    → IsBle fw.ble
    → IsBle (receive_msgs ret ms fw).ble
unfolding receive_msgs emit
receive_msgs-IsBle ret [] fw v = v
receive_msgs-IsBle ret (none ∷ ms) fw v = receive_msgs-IsBle ret ms _ v
receive_msgs-IsBle ret (some g ∷ ms) fw v =
    receive_msgs-IsBle ret ms _ (process_gatt_msg-IsBle fw v ret g)

pub rssi_cb-ble : (h rssi : ℕ) (fw : Firmware) → (rssi_cb h rssi fw).ble ≡ fw.ble
unfolding rssi_cb report_rssi_result
rssi_cb-ble h rssi fw = of (find_slot_by_conn_handle h fw)
  where
    of :
        (o : Option ℕ)
        → (elim o as (λ _. Firmware) [
          | none ↦ fw
          | some slot ↦ report_rssi_result slot h rssi fw
        ]).ble
          ≡ fw.ble
    of none = refl
    of (some slot) = queue_evt-ble _ slot _ _ 4 fw
