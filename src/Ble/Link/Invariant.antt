-- ===== src/Ble/Link/Invariant.antt =====
-- The invariant of a link, kept by every request that begins a procedure.
use ch32v20x_usb_mux_uart_bl.Prelude.{
  ℕ, ◌<◌, ◌≡◌, ◌≢◌, refl, sym, ap, ◌∙◌, subst, true, false, List, length, length-set,
  get_or-set_self, get_or-set_ne, get_or, ℕ_discrete, arith,
}
use ch32v20x_usb_mux_uart_bl.Proto.{Status}
use ch32v20x_usb_mux_uart_bl.Hal.{Call}
use ch32v20x_usb_mux_uart_bl.Firmware.{Firmware}
use ch32v20x_usb_mux_uart_bl.Ble.Types
use ch32v20x_usb_mux_uart_bl.Ble.Types.{
  LinkState, LinkCtx, Ble, Proc, proc_none, proc_disc_service, proc_disc_char, proc_disc_desc,
  proc_read, proc_write_req, proc_subscribe, proc_unsubscribe, proc_exchange_mtu,
}
use ch32v20x_usb_mux_uart_bl.Ble.Status.{gap_connhandle_init}
use ch32v20x_usb_mux_uart_bl.Ble.Link.{init_link, link_at, map_op_to_state, begin_proc}
use ch32v20x_usb_mux_uart_bl.Ble.Link.Outcome.{
  with_link, working, Outcome, refused, begun, Start, discovers_services, discovers_chars,
  discovers_descs, reads, subscribes, unsubscribes, exchanges_mtu, writes, start, started,
  start-Outcome,
}

-- The states of a link that waits for no procedure.
pub data AtRest : LinkState → Type 0 where
  at_idle : AtRest Types.idle
  at_connected : AtRest Types.connected
  at_ready : AtRest Types.ready

-- A link is busy exactly while it waits for a procedure, and its state is that of the procedure.
pub data IsPhase (l : LinkCtx) : Type 0 where
  resting : l.proc_busy ≡ false → l.proc ≡ proc_none → AtRest l.state → IsPhase l
  waiting : l.proc_busy ≡ true → l.proc ≢ proc_none → l.state ≡ map_op_to_state l.proc → IsPhase l

pub record IsLink (slot : ℕ) (l : LinkCtx) : Type 0 where
  pub own : l.slot_id ≡ slot
  pub phase : IsPhase l
  -- It is idle exactly when it has no connection.
  pub idle_down : l.state ≡ Types.idle → l.conn_handle ≡ gap_connhandle_init
  pub down_idle : l.conn_handle ≡ gap_connhandle_init → l.state ≡ Types.idle

abbrev pub link_in : Ble → ℕ → LinkCtx
link_in b slot = get_or b.links slot (init_link 0)

-- Only links have changed: no connection has, and the invariant is kept.
pub record LinksKept (b b' : Ble) : Type 0 where
  pub mgr_same : b'.mgr ≡ b.mgr
  pub len : length b'.links ≡ length b.links
  pub same_handle : (j : ℕ) → (link_in b' j).conn_handle ≡ (link_in b j).conn_handle
  pub kept : (j : ℕ) → IsLink j (link_in b j) → IsLink j (link_in b' j)

pub LinksKept-refl : (b : Ble) → LinksKept b b
LinksKept-refl b = record { mgr_same = refl; len = refl; same_handle = λ j. refl; kept = λ j h. h }

pub LinksKept-trans : (a b c : Ble) → LinksKept a b → LinksKept b c → LinksKept a c
LinksKept-trans a b c p q = record {
  mgr_same = q.mgr_same ∙ p.mgr_same;
  len = q.len ∙ p.len;
  same_handle = λ j. q.same_handle j ∙ p.same_handle j;
  kept = λ j h. q.kept j (p.kept j h);
}

-- A state with the same BLE part.
pub LinksKept-same : (a b : Ble) → b ≡ a → LinksKept a b
LinksKept-same a b e = subst (LinksKept a) (sym e) (LinksKept-refl a)

module _ (b : Ble) (slot : ℕ) (l : LinkCtx) (small : slot < length b.links) where
  written : link_in (with_link slot l b) slot ≡ l
  written = get_or-set_self b.links slot l (init_link 0) small

  others : (j : ℕ) → slot ≢ j → link_in (with_link slot l b) j ≡ link_in b j
  others j ne = get_or-set_ne b.links slot j l (init_link 0) ne

  -- One context is written, with the connection that it had.
  pub with_link-LinksKept :
      l.conn_handle ≡ (link_in b slot).conn_handle
      → (IsLink slot (link_in b slot) → IsLink slot l)
      → LinksKept b (with_link slot l b)
  with_link-LinksKept same keeps = record {
    mgr_same = refl;
    len = length-set b.links slot l;
    same_handle = handle;
    kept = keep;
  }
    where
      handle : (j : ℕ) → (link_in (with_link slot l b) j).conn_handle ≡ (link_in b j).conn_handle
      handle j = elim (ℕ_discrete slot j) [
        | yes e ↦
            subst (λ k. (link_in (with_link slot l b) k).conn_handle ≡ (link_in b k).conn_handle) e
              (ap (λ m. m.conn_handle) written ∙ same)
        | no ne ↦ ap (λ m. m.conn_handle) (others j ne)
      ]

      keep : (j : ℕ) → IsLink j (link_in b j) → IsLink j (link_in (with_link slot l b) j)
      keep j = elim (ℕ_discrete slot j) [
        | yes e ↦
            subst (λ k. IsLink k (link_in b k) → IsLink k (link_in (with_link slot l b) k)) e
              (λ h. subst (IsLink slot) (sym written) (keeps h))
        | no ne ↦ λ h. subst (IsLink j) (sym (others j ne)) h
      ]

  pub with_link-written : link_in (with_link slot l b) slot ≡ l
  with_link-written = written

pub map_op_to_state-idle : (p : Proc) → map_op_to_state p ≢ Types.idle
unfolding map_op_to_state
map_op_to_state-idle p = ground arith

-- An attached link that begins a procedure.
working-IsLink :
    (slot : ℕ) (p : Proc) (h a b : ℕ) (l : LinkCtx)
    → p ≢ proc_none
    → l.conn_handle ≢ gap_connhandle_init
    → IsLink slot l
    → IsLink slot (working p h a b l)
unfolding begin_proc
working-IsLink slot p h a b l some_proc there k = record {
  own = k.own;
  phase = waiting refl some_proc refl;
  idle_down = λ e. absurd (map_op_to_state-idle p e);
  down_idle = λ e. absurd (there e);
}

started-IsLink :
    (slot : ℕ) (s : Start) (l : LinkCtx)
    → l.conn_handle ≢ gap_connhandle_init
    → IsLink slot l
    → IsLink slot (started s l)
started-IsLink slot discovers_services l = working-IsLink slot proc_disc_service 0 0 0 l (λ e. cc)
started-IsLink slot (discovers_chars a b) l = working-IsLink slot proc_disc_char 0 a b l (λ e. cc)
started-IsLink slot (discovers_descs a b) l = working-IsLink slot proc_disc_desc 0 a b l (λ e. cc)
started-IsLink slot (reads h) l = working-IsLink slot proc_read h 0 0 l (λ e. cc)
started-IsLink slot (subscribes h) l = working-IsLink slot proc_subscribe h 0 0 l (λ e. cc)
started-IsLink slot (unsubscribes h) l = working-IsLink slot proc_unsubscribe h 0 0 l (λ e. cc)
started-IsLink slot (exchanges_mtu m) l = working-IsLink slot proc_exchange_mtu 0 0 0 l (λ e. cc)
started-IsLink slot (writes h p n) l = working-IsLink slot proc_write_req h 0 0 l (λ e. cc)

started-conn_handle : (s : Start) (l : LinkCtx) → (started s l).conn_handle ≡ l.conn_handle
unfolding begin_proc
started-conn_handle discovers_services l = refl
started-conn_handle (discovers_chars a b) l = refl
started-conn_handle (discovers_descs a b) l = refl
started-conn_handle (reads h) l = refl
started-conn_handle (subscribes h) l = refl
started-conn_handle (unsubscribes h) l = refl
started-conn_handle (exchanges_mtu m) l = refl
started-conn_handle (writes h p n) l = refl

Outcome-LinksKept :
    (slot : ℕ) (s : Start) (fw : Firmware) (r : Status × Firmware)
    → length fw.ble.links ≡ 3
    → Outcome slot (started s) fw r
    → LinksKept fw.ble r.1.ble
Outcome-LinksKept slot s fw r three (refused bad same) = LinksKept-same fw.ble r.1.ble same
Outcome-LinksKept slot s fw r three (begun good small there idle after) =
    subst (LinksKept fw.ble) (sym after) (
      with_link-LinksKept fw.ble slot (started s (link_at slot fw)) (omega arith)
        (started-conn_handle s (link_at slot fw)) (started-IsLink slot s (link_at slot fw) there))

pub start-LinksKept :
    (ret : List Call → ℕ) (slot : ℕ) (fw : Firmware) (s : Start)
    → length fw.ble.links ≡ 3
    → LinksKept fw.ble (start ret s slot fw).1.ble
start-LinksKept ret slot fw s three =
    Outcome-LinksKept slot s fw (start ret s slot fw) three (start-Outcome ret slot fw s)
