-- ===== src/Ble/Host/Invariant.antt =====
-- The invariant of the BLE state: the slots of the manager and the links agree.
use ch32v20x_usb_mux_uart_bl.Prelude.{
  ℕ, ◌≤◌, ◌<◌, ◌≡◌, ◌≢◌, refl, sym, ◌∙◌, subst, List, length, set, length-set, get_or,
  get_or-set_self, get_or-set_ne, ℕ_discrete, arith,
}
use ch32v20x_usb_mux_uart_bl.Ble.Types
use ch32v20x_usb_mux_uart_bl.Ble.Types.{
  LinkCtx, Slot, SlotState, slot_idle, slot_connecting, slot_connected, HostMgr, Ble, proc_none,
}
use ch32v20x_usb_mux_uart_bl.Ble.Status.{gap_connhandle_init}
use ch32v20x_usb_mux_uart_bl.Ble.Link.{init_link, end_proc}
use ch32v20x_usb_mux_uart_bl.Ble.Link.Invariant.{IsLink, at_idle, at_connected, resting, LinksKept}
use ch32v20x_usb_mux_uart_bl.Ble.Host.{init_slot}

-- Slot number `i` and its link: they have the same connection, a slot has one exactly when it is
-- connected, and it is connecting exactly when it is the one that waits for a link.
pub record IsPair (pending i : ℕ) (s : Slot) (l : LinkCtx) : Type 0 where
  pub link : IsLink i l
  pub same_handle : l.conn_handle ≡ s.conn_handle
  pub up : s.state ≡ slot_connected → s.conn_handle ≢ gap_connhandle_init
  pub down : s.state ≢ slot_connected → s.conn_handle ≡ gap_connhandle_init
  pub waits : s.state ≡ slot_connecting → pending ≡ i
  pub waited_for : pending ≡ i → s.state ≡ slot_connecting

pub record IsHost (pending : ℕ) (slots : List Slot) (links : List LinkCtx) : Type 0 where
  pub three_slots : length slots ≡ 3
  pub three_links : length links ≡ 3
  pub pair :
      (i : ℕ) → i < 3 → IsPair pending i (get_or slots i init_slot) (get_or links i (init_link 0))

abbrev pub IsBle : Ble → Type 0
IsBle b = IsHost b.mgr.pending_connect_slot b.mgr.slots b.links

pub LinksKept-IsBle : (b b' : Ble) → LinksKept b b' → IsBle b → IsBle b'
LinksKept-IsBle b b' k v =
    subst (λ (m : HostMgr). IsHost m.pending_connect_slot m.slots b'.links) (sym k.mgr_same)
      (record {
        three_slots = v.three_slots;
        three_links = k.len ∙ v.three_links;
        pair = λ i small.
            let q = v.pair i small in
            record {
              link = k.kept i q.link;
              same_handle = k.same_handle i ∙ q.same_handle;
              up = q.up;
              down = q.down;
              waits = q.waits;
              waited_for = q.waited_for;
            };
      })

-- A slot and its link are written, and perhaps another slot waits.
pub placed-IsHost :
    (pending pending' i : ℕ) (slots : List Slot) (links : List LinkCtx) (s : Slot) (l : LinkCtx)
    → IsHost pending slots links
    → i < 3
    → IsPair pending' i s l
    → ((j : ℕ)
        → j < 3
        → i ≢ j
        → (t : Slot) (m : LinkCtx) → IsPair pending j t m
        → IsPair pending' j t m)
    → IsHost pending' (set slots i s) (set links i l)
placed-IsHost pending pending' i slots links s l v small new rest = record {
  three_slots = length-set slots i s ∙ v.three_slots;
  three_links = length-set links i l ∙ v.three_links;
  pair = pair;
}
  where
    pair :
        (j : ℕ)
        → j < 3
        → IsPair pending' j
            (get_or (set slots i s) j init_slot)
            (get_or (set links i l) j (init_link 0))
    pair j h = elim (ℕ_discrete i j) [
      | yes e ↦
          subst
            (λ k.
              IsPair pending' k (get_or (set slots i s) k init_slot)
                (get_or (set links i l) k (init_link 0)))
            e
            (rw
              (
                get_or-set_self slots i s init_slot (subst (λ k. i < k) (sym v.three_slots) small),
                get_or-set_self links i l (init_link 0)
                    (subst (λ k. i < k) (sym v.three_links) small),
              )
              new)
      | no ne ↦
          rw (get_or-set_ne slots i j s init_slot ne, get_or-set_ne links i j l (init_link 0) ne)
            (rest j h ne _ _ (v.pair j h))
    ]

-- The slot that waited has its answer: no slot waits now.
pub none_waits :
    (pending j : ℕ)
    → j < 3
    → pending ≢ j
    → (t : Slot) (m : LinkCtx) → IsPair pending j t m
    → IsPair 0xff j t m
none_waits pending j small ne t m q = record {
  link = q.link;
  same_handle = q.same_handle;
  up = q.up;
  down = q.down;
  waits = λ e. absurd (ne (q.waits e));
  waited_for = λ e. absurd (omega arith);
}

-- A slot begins to wait while none does.
pub one_waits :
    (pending i j : ℕ)
    → 3 ≤ pending
    → j < 3
    → i ≢ j
    → (t : Slot) (m : LinkCtx) → IsPair pending j t m
    → IsPair i j t m
one_waits pending i j free small ne t m q = record {
  link = q.link;
  same_handle = q.same_handle;
  up = q.up;
  down = q.down;
  waits = λ e. absurd (let k = q.waits e in omega arith);
  waited_for = λ e. absurd (ne e);
}

-- A link after `BleLink_Reset`.
abbrev pub fresh_link : LinkCtx → LinkCtx
fresh_link l = end_proc Types.idle (record l { conn_handle = gap_connhandle_init; mtu = 23 })

pub fresh-IsLink : (i : ℕ) (l : LinkCtx) → l.slot_id ≡ i → IsLink i (fresh_link l)
unfolding end_proc
fresh-IsLink i l own = record {
  own = own;
  phase = resting refl refl at_idle;
  idle_down = λ e. refl;
  down_idle = λ e. refl;
}

-- A link after `BleLink_Attach` to a connection.
pub attached-IsLink :
    (i handle mtu : ℕ) (l : LinkCtx)
    → l.slot_id ≡ i
    → handle ≢ gap_connhandle_init
    → IsLink i (end_proc Types.connected (record l { conn_handle = handle; mtu = mtu }))
unfolding end_proc
attached-IsLink i handle mtu l own there = record {
  own = own;
  phase = resting refl refl at_connected;
  idle_down = λ e. cc;
  down_idle = λ e. absurd (there e);
}

-- A slot without a connection, and its fresh link.
pub down-IsPair :
    (pending i : ℕ) (s : Slot) (l : LinkCtx)
    → l.slot_id ≡ i
    → s.conn_handle ≡ gap_connhandle_init
    → s.state ≢ slot_connected
    → (s.state ≡ slot_connecting → pending ≡ i)
    → (pending ≡ i → s.state ≡ slot_connecting)
    → IsPair pending i s (fresh_link l)
unfolding end_proc
down-IsPair pending i s l own no_handle no_link waits waited = record {
  link = fresh-IsLink i l own;
  same_handle = sym no_handle;
  up = λ e. absurd (no_link e);
  down = λ _. no_handle;
  waits = waits;
  waited_for = waited;
}
