-- ===== src/Usb/Rx/Frame.antt =====
-- What `USBRX_Process` makes of the bytes of a whole frame.
use ch32v20x_usb_mux_uart_bl.Prelude.{
  ℕ, ◌+◌, ◌≤◌, ◌<◌, ◌≡◌, refl, sym, ap, ◌∙◌, some, List, [], ◌∷◌, ◌++◌, arith, length,
  length-append, append-nil, append_assoc, drop, set, Ptr, write_bytes, ok,
}
use ch32v20x_usb_mux_uart_bl.Proto.{Hdr}
use ch32v20x_usb_mux_uart_bl.Usb.Rx.{
  RxState, RxCtx, idle, header, payload, dispatching, parse_header, reset_frame, dispatch_stage,
  process_byte,
}
use ch32v20x_usb_mux_uart_bl.Usb.Rx.Invariant.{
  in_state, appended, with_header, header_more, header_only, header_then_payload, payload_more,
  payload_last,
}
use ch32v20x_usb_mux_uart_bl.Usb.Rx.Safety.{
  begun, process_byte_idle, process_byte_header, process_byte_payload,
}
use ch32v20x_usb_mux_uart_bl.Usb.Rx.Drain.{feed}

write_bytes_nil : (dst : List ℕ) → write_bytes dst 0 [] ≡ dst
write_bytes_nil [] = refl
write_bytes_nil (d ∷ dst) = refl

set-write_bytes :
    (dst pre : List ℕ) (x : ℕ)
    → set (write_bytes dst 0 pre) (length pre) x ≡ write_bytes dst 0 (pre ++ x ∷ [])
set-write_bytes [] [] x = refl
set-write_bytes [] (p ∷ pre) x = refl
set-write_bytes (d ∷ dst) [] x = ap (λ l. x ∷ l) (sym (write_bytes_nil dst))
set-write_bytes (d ∷ dst) (p ∷ pre) x = ap (λ l. p ∷ l) (set-write_bytes dst pre x)

-- The context with some bytes of a frame collected.
abbrev filled : List ℕ → RxCtx → RxCtx
filled pre c = record c { frame_buf = write_bytes c.frame_buf 0 pre; frame_len = length pre }

appended-filled :
    (x : ℕ) (pre : List ℕ) (c : RxCtx) → appended x (filled pre c) ≡ filled (pre ++ x ∷ []) c
appended-filled x pre c =
    let n : length pre + 1 ≡ length (pre ++ x ∷ []) = sym (length-append pre (x ∷ [])) in
    ap (λ b. record c { frame_buf = b; frame_len = length pre + 1 })
      (set-write_bytes c.frame_buf pre x)
    ∙ ap (λ k. record c { frame_buf = write_bytes c.frame_buf 0 (pre ++ x ∷ []); frame_len = k }) n

-- The context after a frame of the bytes `bs` with the header `h`.
abbrev pub after_frame : Hdr → List ℕ → RxCtx → RxCtx
after_frame h bs c = reset_frame (record c { hdr = h; frame_buf = write_bytes c.frame_buf 0 bs })

module _ {W : Type 0} (dispatch : Hdr → Ptr → ℕ → W → W) where
  pub feed-append :
      (xs ys : List ℕ) (c : RxCtx) (w : W)
      → feed dispatch (xs ++ ys) c w
        ≡ (let (c', w') = feed dispatch xs c w in feed dispatch ys c' w')
  unfolding feed
  feed-append [] ys c w = refl
  feed-append (x ∷ xs) ys c w =
      let (c', w') = process_byte dispatch x c w in feed-append xs ys c' w'

  module _ (s : RxState) (c : RxCtx) (w : W) (t : ℕ)
      (step : (x : ℕ) (pre : List ℕ)
        → length pre + 1 < t
        → process_byte dispatch x (in_state s (filled pre c)) w
          ≡ (in_state s (appended x (filled pre c)), w)) where
    -- Bytes that do not complete the frame, or its header, are collected.
    feed-filled :
        (xs pre : List ℕ)
        → length pre + length xs < t
        → feed dispatch xs (in_state s (filled pre c)) w ≡ (in_state s (filled (pre ++ xs) c), w)
    unfolding feed
    feed-filled [] pre h = ap (λ l. (in_state s (filled l c), w)) (sym (append-nil pre))
    feed-filled (x ∷ xs) pre h =
        ap (λ r. feed dispatch xs r.0 r.1)
          (step x pre (omega arith) ∙ ap (λ d. (in_state s d, w)) (appended-filled x pre c))
        ∙ feed-filled xs (pre ++ x ∷ []) (omega (arith, length-append pre (x ∷ [])))
        ∙ ap (λ l. (in_state s (filled l c), w)) (append_assoc pre (x ∷ []) xs)

  header_step :
      (c : RxCtx) (w : W) (x : ℕ) (pre : List ℕ)
      → length pre + 1 < 24
      → process_byte dispatch x (in_state header (filled pre c)) w
        ≡ (in_state header (appended x (filled pre c)), w)
  unfolding dispatch_stage
  header_step c w x pre h =
      process_byte_header dispatch x (filled pre c) w
      ∙ ap (λ d. dispatch_stage dispatch d w) (header_more x (filled pre c) h)

  payload_step :
      (c : RxCtx) (w : W) (k : c.frame_target_len ≤ 512) (x : ℕ) (pre : List ℕ)
      → length pre + 1 < c.frame_target_len
      → process_byte dispatch x (in_state payload (filled pre c)) w
        ≡ (in_state payload (appended x (filled pre c)), w)
  unfolding dispatch_stage
  payload_step c w k x pre h =
      process_byte_payload dispatch x (filled pre c) w
      ∙ ap (λ d. dispatch_stage dispatch d w) (payload_more x (filled pre c) h k)

  -- In the idle state a byte is the first one of a header.
  feed_idle :
      (x : ℕ) (xs : List ℕ) (c : RxCtx) (w : W)
      → feed dispatch (x ∷ xs) (in_state idle c) w
        ≡ feed dispatch (x ∷ xs) (in_state header (filled [] (begun c))) w
  unfolding feed
  feed_idle x xs c w =
      ap (λ r. feed dispatch xs r.0 r.1)
        (process_byte_idle dispatch x c w ∙ sym (process_byte_header dispatch x (begun c) w))
      ∙ ap (λ b. feed dispatch (x ∷ xs) (in_state header (record (begun c) { frame_buf = b })) w)
          (sym (write_bytes_nil c.frame_buf))

  -- What the rest of the firmware is given.
  abbrev pub delivered : Hdr → List ℕ → RxCtx → W → W
  delivered h bs c w = dispatch h (some (drop 24 (write_bytes c.frame_buf 0 bs))) h.payload_len w

  module _ (c : RxCtx) (w : W) (h : Hdr) (pre : List ℕ) (y : ℕ) (n : length pre ≡ 23)
      (p : parse_header (write_bytes c.frame_buf 0 (pre ++ y ∷ [])) ≡ (ok, h)) where
    window_parsed : parse_header (set (write_bytes c.frame_buf 0 pre) (length pre) y) ≡ (ok, h)
    window_parsed = ap parse_header (set-write_bytes c.frame_buf pre y) ∙ p

    -- A header without payload is handed on with its last byte.
    header_last_only :
        h.total_len ≤ 24
        → process_byte dispatch y (in_state header (filled pre (begun c))) w
          ≡ (after_frame h (pre ++ y ∷ []) c, delivered h (pre ++ y ∷ []) c w)
    unfolding dispatch_stage reset_frame
    header_last_only small =
        process_byte_header dispatch y (filled pre (begun c)) w
        ∙ ap (λ d. dispatch_stage dispatch d w)
            (header_only y (filled pre (begun c)) h n window_parsed small)
        ∙ ap (λ d. dispatch_stage dispatch (with_header dispatching h d) w)
            (appended-filled y pre (begun c))

    -- A header with payload is kept.
    header_last_more :
        24 < h.total_len
        → process_byte dispatch y (in_state header (filled pre (begun c))) w
          ≡ (in_state payload (filled (pre ++ y ∷ []) (with_header payload h (begun c))), w)
    unfolding dispatch_stage
    header_last_more big =
        process_byte_header dispatch y (filled pre (begun c)) w
        ∙ ap (λ d. dispatch_stage dispatch d w)
            (header_then_payload y (filled pre (begun c)) h n window_parsed big)
        ∙ ap (λ d. (with_header payload h d, w)) (appended-filled y pre (begun c))

  -- The last byte of the payload.
  payload_last_byte :
      (c : RxCtx) (w : W) (h : Hdr) (pre : List ℕ) (y : ℕ)
      → h.total_len ≡ length pre + 1
      → h.total_len ≤ 512
      → process_byte dispatch y (in_state payload (filled pre (with_header payload h (begun c)))) w
        ≡ (after_frame h (pre ++ y ∷ []) c, delivered h (pre ++ y ∷ []) c w)
  unfolding dispatch_stage reset_frame
  payload_last_byte c w h pre y e k =
      let b : RxCtx = with_header payload h (begun c) in
      process_byte_payload dispatch y (filled pre b) w
      ∙ ap (λ d. dispatch_stage dispatch d w) (payload_last y (filled pre b) e k)
      ∙ ap (λ d. dispatch_stage dispatch (in_state dispatching d) w) (appended-filled y pre b)

  feed_last : (y : ℕ) (c : RxCtx) (w : W) → feed dispatch (y ∷ []) c w ≡ process_byte dispatch y c w
  unfolding feed
  feed_last y c w = refl

  module _ (c : RxCtx) (w : W) (h : Hdr) (x : ℕ) (pre : List ℕ) (y : ℕ) (n : length pre ≡ 22)
      (p : parse_header (write_bytes c.frame_buf 0 (x ∷ pre ++ y ∷ [])) ≡ (ok, h)) where
    feed_window :
        feed dispatch (x ∷ pre ++ y ∷ []) (in_state idle c) w
        ≡ process_byte dispatch y (in_state header (filled (x ∷ pre) (begun c))) w
    feed_window =
        feed_idle x (pre ++ y ∷ []) c w
        ∙ feed-append (x ∷ pre) (y ∷ []) (in_state header (filled [] (begun c))) w
        ∙ ap (λ r. feed dispatch (y ∷ []) r.0 r.1)
            (feed-filled header (begun c) w 24 (header_step (begun c) w) (x ∷ pre) [] (omega arith))
        ∙ feed_last y (in_state header (filled (x ∷ pre) (begun c))) w

    pub feed_header_only :
        h.total_len ≤ 24
        → feed dispatch (x ∷ pre ++ y ∷ []) (in_state idle c) w
          ≡ (after_frame h (x ∷ pre ++ y ∷ []) c, delivered h (x ∷ pre ++ y ∷ []) c w)
    feed_header_only small = feed_window ∙ header_last_only c w h (x ∷ pre) y (omega arith) p small

    pub feed_with_payload :
        (body : List ℕ) (z : ℕ)
        → h.total_len ≡ 25 + length body
        → h.total_len ≤ 512
        → (let bs = (x ∷ pre ++ y ∷ []) ++ (body ++ z ∷ []) in
            feed dispatch bs (in_state idle c) w ≡ (after_frame h bs c, delivered h bs c w))
    feed_with_payload body z e k =
        let head : List ℕ = x ∷ pre ++ y ∷ [] in
        let b : RxCtx = with_header payload h (begun c) in
        let len : length head ≡ 24 = omega (arith, length-append pre (y ∷ [])) in
        feed-append head (body ++ z ∷ []) (in_state idle c) w
        ∙ ap (λ r. feed dispatch (body ++ z ∷ []) r.0 r.1)
            (feed_window ∙ header_last_more c w h (x ∷ pre) y (omega arith) p (omega arith))
        ∙ feed-append body (z ∷ []) (in_state payload (filled head b)) w
        ∙ ap (λ r. feed dispatch (z ∷ []) r.0 r.1)
            (feed-filled payload b w h.total_len (payload_step b w k) body head (omega arith))
        ∙ feed_last z (in_state payload (filled (head ++ body) b)) w
        ∙ payload_last_byte c w h (head ++ body) z (omega (arith, length-append head body)) k
        ∙ ap (λ bs. (after_frame h bs c, delivered h bs c w)) (append_assoc head body (z ∷ []))
