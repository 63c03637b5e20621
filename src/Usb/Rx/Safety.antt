-- ===== src/Usb/Rx/Safety.antt =====
-- The receiver keeps its invariant on every byte: no write leaves the frame buffer, the machine never
-- rests while a frame is complete, and it never enters the state that drops bytes.
use ch32v20x_usb_mux_uart_bl.Prelude.{
  ℕ, ◌+◌, ◌≤◌, ◌<◌, ◌≡◌, refl, ap, ◌∙◌, arith, length, length-set, set, Ptr, length-write_bytes,
  read_bytes, ok, err, Rc, dec_lt, dec_le,
}
use ch32v20x_usb_mux_uart_bl.Proto.{Hdr}
use ch32v20x_usb_mux_uart_bl.Usb.Rx.{
  RxState, RxCtx, idle, header, payload, dispatching, dropping, parse_header, accept_byte,
  dispatch_stage, process_byte,
}
use ch32v20x_usb_mux_uart_bl.Usb.Rx.Invariant.{
  IsRx, in_state, appended, parse_header_bound, header_more, header_refused, header_only,
  header_then_payload, payload_more, payload_last,
}

-- What holds before the dispatch: the frame may be complete.
abbrev StageOk : RxState → ℕ → ℕ → Type 0
StageOk idle n t = Unit {0}
StageOk header n t = n < 24
StageOk payload n t = (n < t) × (t ≤ 512)
StageOk dispatching n t = Unit {0}
StageOk dropping n t = ⊥

record IsStaged (c : RxCtx) : Type 0 where
  sized : length c.frame_buf ≡ 512
  progress : StageOk c.state c.frame_len c.frame_target_len

module _ (x : ℕ) (c : RxCtx) (sized : length c.frame_buf ≡ 512) where
  sized' : length (set c.frame_buf c.frame_len x) ≡ 512
  sized' = length-set c.frame_buf c.frame_len x ∙ sized

  full_header-IsStaged :
      (r : Rc × Hdr)
      → c.frame_len ≡ 23
      → parse_header (set c.frame_buf c.frame_len x) ≡ r
      → IsStaged (accept_byte x (in_state header c))
  full_header-IsStaged (err, h) e p = rw (header_refused x c h e p) record {
    sized =
        length-write_bytes (appended x c).frame_buf 0 (read_bytes (appended x c).frame_buf 1 23)
        ∙ sized';
    progress = omega arith;
  }
  full_header-IsStaged (ok, h) e p = elim (dec_le h.total_len 24) [
    | yes small ↦ rw (header_only x c h e p small) record { sized = sized'; progress = tt }
    | no big ↦
        (let bound : h.total_len ≤ 512 =
            rw p at (parse_header_bound (set c.frame_buf c.frame_len x) (ap (λ r. r.0) p)) in
          rw (header_then_payload x c h e p (omega arith))
            record { sized = sized'; progress = (omega arith, bound) })
  ]

  header-IsStaged : c.frame_len < 24 → IsStaged (accept_byte x (in_state header c))
  header-IsStaged few = elim (dec_lt (c.frame_len + 1) 24) [
    | yes more ↦ rw (header_more x c more) record { sized = sized'; progress = more }
    | no full ↦
        full_header-IsStaged (parse_header (set c.frame_buf c.frame_len x)) (omega arith) refl
  ]

  payload-IsStaged :
      c.frame_len < c.frame_target_len
      → c.frame_target_len ≤ 512
      → IsStaged (accept_byte x (in_state payload c))
  payload-IsStaged h k = elim (dec_lt (c.frame_len + 1) c.frame_target_len) [
    | yes more ↦ rw (payload_more x c more k) record { sized = sized'; progress = (more, k) }
    | no last ↦ rw (payload_last x c (omega arith) k) record { sized = sized'; progress = tt }
  ]

-- The context in which the first byte of a frame is collected.
abbrev pub begun : RxCtx → RxCtx
begun c = record c { state = header; frame_len = 0; frame_target_len = 24 }

module _ {W : Type 0} (dispatch : Hdr → Ptr → ℕ → W → W) where
  dispatch_stage-IsRx :
      (s : RxState) (c : RxCtx) (w : W)
      → IsStaged (in_state s c)
      → IsRx (dispatch_stage dispatch (in_state s c) w).0
  unfolding dispatch_stage
  dispatch_stage-IsRx idle c w v = record { sized = v.sized; progress = v.progress }
  dispatch_stage-IsRx header c w v = record { sized = v.sized; progress = v.progress }
  dispatch_stage-IsRx payload c w v = record { sized = v.sized; progress = v.progress }
  dispatch_stage-IsRx dispatching c w v = record { sized = v.sized; progress = tt }
  dispatch_stage-IsRx dropping c w v = absurd v.progress

  pub process_byte_idle :
      (x : ℕ) (c : RxCtx) (w : W)
      → process_byte dispatch x (in_state idle c) w
        ≡ dispatch_stage dispatch (accept_byte x (in_state header (begun c))) w
  unfolding process_byte accept_byte
  process_byte_idle x c w = refl

  pub process_byte_header :
      (x : ℕ) (c : RxCtx) (w : W)
      → process_byte dispatch x (in_state header c) w
        ≡ dispatch_stage dispatch (accept_byte x (in_state header c)) w
  unfolding process_byte
  process_byte_header x c w = refl

  pub process_byte_payload :
      (x : ℕ) (c : RxCtx) (w : W)
      → process_byte dispatch x (in_state payload c) w
        ≡ dispatch_stage dispatch (accept_byte x (in_state payload c)) w
  unfolding process_byte
  process_byte_payload x c w = refl

  process_byte-IsRx_at :
      (s : RxState) (x : ℕ) (c : RxCtx) (w : W)
      → IsRx (in_state s c)
      → IsRx (process_byte dispatch x (in_state s c) w).0
  process_byte-IsRx_at idle x c w v = rw (process_byte_idle x c w) (
      dispatch_stage-IsRx _ (accept_byte x (in_state header (begun c))) w
        (header-IsStaged x (begun c) v.sized (omega arith)))
  process_byte-IsRx_at header x c w v = rw (process_byte_header x c w) (
      dispatch_stage-IsRx _ (accept_byte x (in_state header c)) w
        (header-IsStaged x c v.sized v.progress))
  process_byte-IsRx_at payload x c w v = rw (process_byte_payload x c w) (
      dispatch_stage-IsRx _ (accept_byte x (in_state payload c)) w
        (payload-IsStaged x c v.sized v.progress.0 v.progress.1))
  process_byte-IsRx_at dispatching x c w v = absurd v.progress
  process_byte-IsRx_at dropping x c w v = absurd v.progress

  -- Every byte, whatever its value and the state, keeps the invariant of the receiver.
  pub process_byte-IsRx :
      (x : ℕ) (c : RxCtx) (w : W) → IsRx c → IsRx (process_byte dispatch x c w).0
  process_byte-IsRx x c w v = process_byte-IsRx_at c.state x c w v
