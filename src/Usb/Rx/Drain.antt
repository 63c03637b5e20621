-- ===== src/Usb/Rx/Drain.antt =====
-- `USBRX_Process` as a fold: it serves every byte that waits in the ring, in order, and empties it.
use ch32v20x_usb_mux_uart_bl.Prelude.{
  ℕ, zero, suc, ◌+◌, ◌<◌, ◌≡◌, refl, sym, ap, ◌∙◌, some, none, List, [], ◌∷◌, arith, get_or, Ptr,
  Rc, ok, err, ltb, Bool-cases, inl, inr,
}
use ch32v20x_usb_mux_uart_bl.Proto.{Hdr}
use ch32v20x_usb_mux_uart_bl.RingBuffer
use ch32v20x_usb_mux_uart_bl.RingBuffer.{RingBuffer}
use ch32v20x_usb_mux_uart_bl.RingBuffer.Invariant.{IsValid, pop_byte-IsValid}
use ch32v20x_usb_mux_uart_bl.RingBuffer.Refine.{
  contents, pop_byte-ok, pop_byte-empty, after_pop, contents-after_pop, count-after_pop,
}
use ch32v20x_usb_mux_uart_bl.Usb.Rx.{
  RxState, RxCtx, idle, header, payload, dispatching, dropping, parse_header, begin_frame,
  append_byte, drop_byte, take_header, header_stage, payload_stage, accept_byte, dispatch_stage,
  process_byte, process_loop, process,
}

-- The machine with another ring.
abbrev with_ring : RingBuffer → RxCtx → RxCtx
with_ring rb c = record c { raw_rb = rb }

module _ (rb : RingBuffer) where
  begin_frame-with_ring : (c : RxCtx) → begin_frame (with_ring rb c) ≡ with_ring rb (begin_frame c)
  unfolding begin_frame
  begin_frame-with_ring c = ground arith

  take_header-with_ring :
      (r : Rc × Hdr) (c : RxCtx) → take_header r (with_ring rb c) ≡ with_ring rb (take_header r c)
  unfolding take_header
  take_header-with_ring (ok, h) c = refl
  take_header-with_ring (err, h) c = ground arith

  header_stage-with_ring :
      (c : RxCtx) → header_stage (with_ring rb c) ≡ with_ring rb (header_stage c)
  unfolding header_stage
  header_stage-with_ring c = elim (Bool-cases (ltb c.frame_len 24)) [
    | inl e ↦ rw e
    | inr e ↦ rw e (take_header-with_ring (parse_header c.frame_buf) c)
  ]

  payload_stage-with_ring :
      (c : RxCtx) → payload_stage (with_ring rb c) ≡ with_ring rb (payload_stage c)
  unfolding payload_stage
  payload_stage-with_ring c = ground arith

  drop_byte-with_ring : (c : RxCtx) → drop_byte (with_ring rb c) ≡ with_ring rb (drop_byte c)
  unfolding drop_byte
  drop_byte-with_ring c = ground arith

  abbrev at : RxState → RxCtx → RxCtx
  at s c = record c { state = s }

  accept_at :
      (x : ℕ) (s : RxState) (c : RxCtx)
      → accept_byte x (with_ring rb (at s c)) ≡ with_ring rb (accept_byte x (at s c))
  unfolding accept_byte
  accept_at x idle c =
      let d : RxCtx = append_byte x (begin_frame (at idle c)) in
      ap payload_stage (header_stage-with_ring d) ∙ payload_stage-with_ring (header_stage d)
  accept_at x header c =
      let d : RxCtx = append_byte x (at header c) in
      ap payload_stage (header_stage-with_ring d) ∙ payload_stage-with_ring (header_stage d)
  accept_at x payload c = payload_stage-with_ring (append_byte x (at payload c))
  accept_at x dispatching c = payload_stage-with_ring (append_byte x (at dispatching c))
  accept_at x dropping c = payload_stage-with_ring (append_byte x (at dropping c))

module _ {W : Type 0} (dispatch : Hdr → Ptr → ℕ → W → W) where
  -- The bytes one after another, with no ring between.
  unfoldable pub feed : List ℕ → RxCtx → W → RxCtx × W
  feed [] c w = (c, w)
  feed (x ∷ xs) c w = let (c', w') = process_byte dispatch x c w in feed xs c' w'

  abbrev over_ring : RingBuffer → RxCtx × W → RxCtx × W
  over_ring rb (c, w) = (with_ring rb c, w)

  dispatch_at :
      (rb : RingBuffer) (s : RxState) (c : RxCtx) (w : W)
      → dispatch_stage dispatch (with_ring rb (record c { state = s })) w
        ≡ over_ring rb (dispatch_stage dispatch (record c { state = s }) w)
  unfolding dispatch_stage
  dispatch_at rb idle c w = refl
  dispatch_at rb header c w = refl
  dispatch_at rb payload c w = refl
  dispatch_at rb dispatching c w = refl
  dispatch_at rb dropping c w = refl

  process_at :
      (rb : RingBuffer) (x : ℕ) (s : RxState) (c : RxCtx) (w : W)
      → process_byte dispatch x (with_ring rb (record c { state = s })) w
        ≡ over_ring rb (process_byte dispatch x (record c { state = s }) w)
  unfolding process_byte
  process_at rb x idle c w =
      ap (λ d. dispatch_stage dispatch d w) (accept_at rb x idle c)
      ∙ dispatch_at rb _ (accept_byte x (record c { state = idle })) w
  process_at rb x header c w =
      ap (λ d. dispatch_stage dispatch d w) (accept_at rb x header c)
      ∙ dispatch_at rb _ (accept_byte x (record c { state = header })) w
  process_at rb x payload c w =
      ap (λ d. dispatch_stage dispatch d w) (accept_at rb x payload c)
      ∙ dispatch_at rb _ (accept_byte x (record c { state = payload })) w
  process_at rb x dispatching c w =
      ap (λ d. dispatch_stage dispatch d w) (accept_at rb x dispatching c)
      ∙ dispatch_at rb _ (accept_byte x (record c { state = dispatching })) w
  process_at rb x dropping c w =
      ap (λ d. (d, w)) (drop_byte-with_ring rb (begin_frame (record c { state = dropping })))

  -- Only the bytes matter, not the ring that they came through.
  process_byte-with_ring :
      (rb : RingBuffer) (x : ℕ) (c : RxCtx) (w : W)
      → process_byte dispatch x (with_ring rb c) w ≡ over_ring rb (process_byte dispatch x c w)
  process_byte-with_ring rb x c w = process_at rb x c.state c w

  -- The loop on a machine whose ring is `rb`, against the fold over the bytes of that ring.
  record Drained (rb : RingBuffer) (c : RxCtx) (w : W) (out : RxCtx × W) : Type 0 where
    ring : RingBuffer
    valid : IsValid ring
    empty : RingBuffer.count ring ≡ 0
    same : out ≡ over_ring ring (feed (contents rb) c w)

  module _ (fuel : ℕ) (rb : RingBuffer) (c : RxCtx) (w : W) where
    loop_empty :
        RingBuffer.pop_byte rb ≡ (none, rb)
        → process_loop dispatch (suc fuel) (with_ring rb c) w ≡ (with_ring rb c, w)
    unfolding process_loop
    loop_empty e = ground arith

    loop_byte :
        (b : ℕ) (rb' : RingBuffer)
        → RingBuffer.pop_byte rb ≡ (some b, rb')
        → (let (c', w') = process_byte dispatch b (with_ring rb' c) w in
            process_loop dispatch (suc fuel) (with_ring rb c) w ≡ process_loop dispatch fuel c' w')
    unfolding process_loop
    loop_byte b rb' e = ground arith

    -- The same, with the ring kept aside.
    loop_byte' :
        (b : ℕ) (rb' : RingBuffer)
        → RingBuffer.pop_byte rb ≡ (some b, rb')
        → (let (c', w') = process_byte dispatch b c w in
            process_loop dispatch (suc fuel) (with_ring rb c) w
            ≡ process_loop dispatch fuel (with_ring rb' c') w')
    loop_byte' b rb' e =
        loop_byte b rb' e
        ∙ ap (λ r. process_loop dispatch fuel r.0 r.1) (process_byte-with_ring rb' b c w)

  process_loop-Drained :
      (fuel : ℕ) (rb : RingBuffer) (c : RxCtx) (w : W)
      → IsValid rb
      → RingBuffer.count rb < fuel
      → Drained rb c w (process_loop dispatch fuel (with_ring rb c) w)
  unfolding feed
  process_loop-Drained zero rb c w v h = absurd (omega arith)
  process_loop-Drained (suc fuel) rb c w v h = go (RingBuffer.count rb) refl (λ n e.
      let (c', w') = process_byte dispatch (get_or (RingBuffer.storage rb) rb.tail 0) c w in
      process_loop-Drained fuel (after_pop rb v) c' w'
        (rw (pop_byte-ok rb v n e) at (pop_byte-IsValid v))
        (omega (arith, count-after_pop rb v n e)))
    where
      b : ℕ
      b = get_or (RingBuffer.storage rb) rb.tail 0

      Rest : Type 0
      Rest =
          (n : ℕ)
          → RingBuffer.count rb ≡ suc n
          → (let (c', w') = process_byte dispatch b c w in
              Drained (after_pop rb v) c' w'
                (process_loop dispatch fuel (with_ring (after_pop rb v) c') w'))

      go :
          (n : ℕ)
          → RingBuffer.count rb ≡ n
          → Rest
          → Drained rb c w (process_loop dispatch (suc fuel) (with_ring rb c) w)
      go zero e ih = record {
        ring = rb;
        valid = v;
        empty = e;
        same = loop_empty fuel rb c w (pop_byte-empty rb v e) ∙ rw e;
      }
      go (suc n) e ih =
          let d = ih n e in
          record {
            ring = d.ring;
            valid = d.valid;
            empty = d.empty;
            same =
                loop_byte' fuel rb c w b (after_pop rb v) (pop_byte-ok rb v n e)
                ∙ d.same
                ∙ ap (λ bs. over_ring d.ring (feed bs c w)) (sym (contents-after_pop rb v n e));
          }

  -- With a valid ring, `USBRX_Process` ends with an empty ring, which is valid, and it has done
  -- to the machine and to the rest of the firmware what the waiting bytes do one after another.
  pub process-feed :
      (c : RxCtx) (w : W)
      → IsValid c.raw_rb
      → (let (c', w') = process dispatch c w in
          let (d, u) = feed (contents c.raw_rb) c w in
          (RingBuffer.count c'.raw_rb ≡ 0)
          × IsValid c'.raw_rb
          × (record c' { raw_rb = c.raw_rb } ≡ record d { raw_rb = c.raw_rb })
          × (w' ≡ u))
  unfolding process
  process-feed c w v =
      let d = process_loop-Drained (RingBuffer.count c.raw_rb + 1) c.raw_rb c w v (omega arith) in
      (
        rw d.same d.empty,
        rw d.same d.valid,
        ap (λ r. record (r.0) { raw_rb = c.raw_rb }) d.same,
        ap (λ r. r.1) d.same,
      )
