-- ===== src/Usb/Rx/Invariant.antt =====
-- What holds of the receiver between two bytes.
use ch32v20x_usb_mux_uart_bl.Prelude.{
  ℕ, ◌+◌, ◌≤◌, ◌<◌, ◌≡◌, ap, ◌∙◌, List, arith, length, set, read_bytes, write_bytes, ok, err, Rc,
  ltb, leb, lt→ltb, true, false,
}
use ch32v20x_usb_mux_uart_bl.Proto.{Hdr}
use ch32v20x_usb_mux_uart_bl.Usb.Rx.{
  RxState, RxCtx, idle, header, payload, dispatching, dropping, check_header, parse_header,
  append_byte, take_header, header_stage, payload_stage, accept_byte,
}

-- What the state says of the bytes that are collected, `n` of `t`. The machine never rests in the
-- dispatching state, and never drops.
abbrev pub StateOk : RxState → ℕ → ℕ → Type 0
StateOk idle n t = Unit {0}
StateOk header n t = n < 24
StateOk payload n t = (n < t) × (t ≤ 512)
StateOk dispatching n t = ⊥
StateOk dropping n t = ⊥

pub record IsRx (c : RxCtx) : Type 0 where
  pub sized : length c.frame_buf ≡ 512
  pub progress : StateOk c.state c.frame_len c.frame_target_len

check_header_bound : (buf : List ℕ) (h : Hdr) → check_header buf h ≡ ok → h.total_len ≤ 512
unfolding check_header
check_header_bound buf h e = ground arith

pub parse_header_bound :
    (buf : List ℕ) → (parse_header buf).0 ≡ ok → (parse_header buf).1.total_len ≤ 512
unfolding parse_header
parse_header_bound buf e = check_header_bound buf _ e

-- The same machine in another state: `c` is `in_state c.state c`.
abbrev pub in_state : RxState → RxCtx → RxCtx
in_state s c = record c { state = s }

-- The context with a byte more.
abbrev pub appended : ℕ → RxCtx → RxCtx
appended x c = record c { frame_buf = set c.frame_buf c.frame_len x; frame_len = c.frame_len + 1 }

append_byte-eq-appended : (x : ℕ) (c : RxCtx) → c.frame_len < 512 → append_byte x c ≡ appended x c
unfolding append_byte
append_byte-eq-appended x c h =
    ap (λ n. record c { frame_buf = set c.frame_buf c.frame_len x; frame_len = n }) (omega arith)

-- The context with a header that was accepted: the state that follows depends on the length.
abbrev pub with_header : RxState → Hdr → RxCtx → RxCtx
with_header s h c = record c { hdr = h; frame_target_len = h.total_len; state = s }

-- The context after a header that was refused: the window moves on by a byte.
abbrev pub shifted : Hdr → RxCtx → RxCtx
shifted h c = record c {
  hdr = h;
  frame_buf = write_bytes c.frame_buf 0 (read_bytes c.frame_buf 1 23);
  frame_len = 23;
}

header_stage_short : (d : RxCtx) → d.frame_len < 24 → header_stage d ≡ d
unfolding header_stage
header_stage_short d h = rw (lt→ltb d.frame_len 24 h)

header_stage_full :
    (d : RxCtx) (r : Rc × Hdr)
    → d.frame_len ≡ 24
    → parse_header d.frame_buf ≡ r
    → header_stage d ≡ take_header r d
unfolding header_stage
header_stage_full d r e p =
    let full : ltb d.frame_len 24 ≡ false = ground arith in rw full (ap (λ q. take_header q d) p)

-- The stages as they meet a header that is complete.
abbrev staged_header : Rc × Hdr → RxCtx → RxCtx
staged_header r d = payload_stage (take_header r d)

module _ (x : ℕ) (c : RxCtx) where
  -- The buffer with the byte in it.
  abbrev buf' : List ℕ
  buf' = set c.frame_buf c.frame_len x

  accept_header :
      c.frame_len < 512
      → accept_byte x (in_state header c)
        ≡ payload_stage (header_stage (in_state header (appended x c)))
  unfolding accept_byte
  accept_header h =
      ap (λ d. payload_stage (header_stage d)) (append_byte-eq-appended x (in_state header c) h)

  accept_payload :
      c.frame_len < 512
      → accept_byte x (in_state payload c) ≡ payload_stage (in_state payload (appended x c))
  unfolding accept_byte
  accept_payload h = ap payload_stage (append_byte-eq-appended x (in_state payload c) h)

  pub header_more :
      c.frame_len + 1 < 24 → accept_byte x (in_state header c) ≡ in_state header (appended x c)
  unfolding payload_stage
  header_more h =
      accept_header (omega arith)
      ∙ ap payload_stage (header_stage_short (in_state header (appended x c)) h)

  header_full :
      (r : Rc × Hdr)
      → c.frame_len ≡ 23
      → parse_header buf' ≡ r
      → accept_byte x (in_state header c) ≡ staged_header r (in_state header (appended x c))
  header_full r e p =
      accept_header (omega arith)
      ∙ ap payload_stage (header_stage_full (in_state header (appended x c)) r (omega arith) p)

  pub header_refused :
      (h : Hdr)
      → c.frame_len ≡ 23
      → parse_header buf' ≡ (err, h)
      → accept_byte x (in_state header c) ≡ in_state header (shifted h (appended x c))
  unfolding take_header payload_stage
  header_refused h e p =
      let n : c.frame_len + 1 ≡ 24 = omega arith in header_full (err, h) e p ∙ rw n

  pub header_only :
      (h : Hdr)
      → c.frame_len ≡ 23
      → parse_header buf' ≡ (ok, h)
      → h.total_len ≤ 24
      → accept_byte x (in_state header c) ≡ with_header dispatching h (appended x c)
  unfolding take_header payload_stage
  header_only h e p small = header_full (ok, h) e p ∙ ground arith

  pub header_then_payload :
      (h : Hdr)
      → c.frame_len ≡ 23
      → parse_header buf' ≡ (ok, h)
      → 24 < h.total_len
      → accept_byte x (in_state header c) ≡ with_header payload h (appended x c)
  unfolding take_header payload_stage
  header_then_payload h e p big = header_full (ok, h) e p ∙ ground arith

  pub payload_more :
      c.frame_len + 1 < c.frame_target_len
      → c.frame_target_len ≤ 512
      → accept_byte x (in_state payload c) ≡ in_state payload (appended x c)
  unfolding payload_stage
  payload_more h k =
      let more : leb c.frame_target_len (c.frame_len + 1) ≡ false = ground arith in
      accept_payload (omega arith) ∙ rw more

  pub payload_last :
      c.frame_target_len ≡ c.frame_len + 1
      → c.frame_target_len ≤ 512
      → accept_byte x (in_state payload c) ≡ in_state dispatching (appended x c)
  unfolding payload_stage
  payload_last h k =
      let done : leb c.frame_target_len (c.frame_len + 1) ≡ true = ground arith in
      accept_payload (omega arith) ∙ rw done
