-- ===== src/Usb/Rx/Delivery.antt =====
-- A stream of whole frames through the receiver, and the frame whose length wraps.
use ch32v20x_usb_mux_uart_bl.Prelude.{
  ℕ, ◌+◌, ◌≤◌, ◌<◌, ◌≡◌, refl, sym, ap, ◌∙◌, some, List, [], ◌∷◌, ◌++◌, arith, length,
  length-append, append-nil, take, drop, All, ap₂, Ptr, write_bytes, ok,
}
use ch32v20x_usb_mux_uart_bl.Proto.{Hdr, IsHdr}
use ch32v20x_usb_mux_uart_bl.Proto.Codec.{lo, hi, serialize_header, encode_header}
use ch32v20x_usb_mux_uart_bl.Proto.Codec.Roundtrip.{
  IsAccepted, encoded, encode_header-IsHdr, encode_header-HasShape, encode_header-crc,
  serialize_header-IsBytes,
}
use ch32v20x_usb_mux_uart_bl.Usb.Rx.{RxCtx, idle, parse_header}
use ch32v20x_usb_mux_uart_bl.Usb.Rx.Invariant.{in_state}
use ch32v20x_usb_mux_uart_bl.Usb.Rx.Drain.{feed}
use ch32v20x_usb_mux_uart_bl.Usb.Rx.Frame.{
  after_frame, delivered, feed-append, feed_header_only, feed_with_payload,
}
use ch32v20x_usb_mux_uart_bl.Usb.Rx.Wire.{
  length-serialize_header, snoc, wire_header, parse-wire_header, IsFrame, IsReady,
  IsFrame-payload_len, after_frame-IsReady, append-IsBytes, drop_frame_buf,
}

-- Frames one behind the other on the wire, and what they do one after another.
pub stream : List (Hdr × List ℕ) → List ℕ
stream [] = []
stream ((h, body) ∷ fs) = (wire_header h ++ body) ++ stream fs

encoded-payload_len : (h : Hdr) → (encoded h).payload_len ≡ h.payload_len
unfolding encode_header
encoded-payload_len h = refl

module _ (h : Hdr) (v : IsHdr h) (big : 65512 ≤ h.payload_len) where
  wrapped-total_len : (encoded h).total_len < 24
  unfolding encode_header
  wrapped-total_len = omega (arith, v.payload_len_in)

  wrapped-IsAccepted : IsAccepted (encoded h) 512
  wrapped-IsAccepted = record {
    shape = encode_header-HasShape h;
    bounded = omega (arith, wrapped-total_len);
    checksum = encode_header-crc h;
  }

module _ {W : Type 0} (dispatch : Hdr → Ptr → ℕ → W → W) where
  module _ (c : RxCtx) (w : W) (h : Hdr)
      (p : parse_header (write_bytes c.frame_buf 0 (wire_header h)) ≡ (ok, h)) where
    middle : List ℕ
    middle = take 22 (drop 1 (wire_header h))

    feed-wire_header :
        h.total_len ≤ 24
        → feed dispatch (wire_header h) (in_state idle c) w
          ≡ (after_frame h (wire_header h) c, delivered dispatch h (wire_header h) c w)
    unfolding serialize_header middle
    feed-wire_header small =
        feed_header_only dispatch c w h (lo h.magic) middle (hi h.reserved) refl p small

    feed-wire_frame :
        (body : List ℕ) (z : ℕ)
        → h.total_len ≡ 25 + length body
        → h.total_len ≤ 512
        → (let bs = wire_header h ++ (body ++ z ∷ []) in
            feed dispatch bs (in_state idle c) w
            ≡ (after_frame h bs c, delivered dispatch h bs c w))
    unfolding serialize_header middle
    feed-wire_frame body z e k =
        feed_with_payload dispatch c w h (lo h.magic) middle (hi h.reserved) refl p body z e k

  module _ (c : RxCtx) (w : W) (h : Hdr) (r : IsReady c) where
    delivered_frame :
        (body : List ℕ)
        → IsFrame h body
        → delivered dispatch h (wire_header h ++ body) c w
          ≡ dispatch h
              (some (body ++ drop (length (wire_header h ++ body)) c.frame_buf))
              (length body)
              w
    delivered_frame body f =
        let n : length (wire_header h) ≡ 24 = length-serialize_header h h.header_crc16 in
        let fit : length (wire_header h ++ body) ≤ length c.frame_buf =
          omega
            (arith, length-append (wire_header h) body, r.sized, f.announced, f.accepted.bounded) in
        ap₂ (λ l k. dispatch h (some l) k w) (drop_frame_buf c.frame_buf (wire_header h) body n fit)
          (IsFrame-payload_len h body f)

    feed-delivered :
        (body : List ℕ)
        → IsFrame h body
        → (let bs = wire_header h ++ body in
            feed dispatch bs (in_state idle c) w
            ≡ (after_frame h bs c, delivered dispatch h bs c w))
    feed-delivered [] f =
        let p = parse-wire_header c.frame_buf h r.sized r.held f.fits f.accepted in
        rw (append-nil (wire_header h)) (feed-wire_header c w h p (omega (arith, f.announced)))
    feed-delivered (x ∷ xs) f =
        let p = parse-wire_header c.frame_buf h r.sized r.held f.fits f.accepted in
        let s = snoc x xs in
        let e : h.total_len ≡ 25 + length s.front =
          omega (arith, f.announced, ap length s.same, length-append s.front (s.last ∷ [])) in
        rw s.same (feed-wire_frame c w h p s.front s.last e f.accepted.bounded)

    feed_at_rest : (bs : List ℕ) → feed dispatch bs c w ≡ feed dispatch bs (in_state idle c) w
    feed_at_rest bs = ap (λ s. feed dispatch bs (in_state s c) w) r.at_rest

    -- From the receiver at rest, a frame whose header is in order and announces its payload
    -- is handed on once, with its header and its payload, and the receiver is at rest again.
    -- Behind the payload lies what the buffer held before.
    pub feed_frame :
        (body : List ℕ)
        → IsFrame h body
        → (let bs = wire_header h ++ body in
            let (c', w') = feed dispatch bs c w in
            IsReady c'
            × (w' ≡ dispatch h (some (body ++ drop (length bs) c.frame_buf)) (length body) w))
    feed_frame body f =
        let bs : List ℕ = wire_header h ++ body in
        let e = feed_at_rest bs ∙ feed-delivered body f in
        let b =
          append-IsBytes (wire_header h) body (serialize_header-IsBytes h h.header_crc16 f.fits)
            f.bytes in
        (rw e (after_frame-IsReady h bs c r b), ap (λ q. q.1) e ∙ delivered_frame body f)

    -- From the receiver at rest, an encoded header with a payload length of 65512 or more, of
    -- fields that fit their types: the 16-bit total length wraps below 24, the header is
    -- accepted, and it is handed on at once with a payload that never was received.
    pub feed_wrapped :
        IsHdr h
        → 65512 ≤ h.payload_len
        → (let g = encoded h in
            let (c', w') = feed dispatch (wire_header g) c w in
            IsReady c' × (w' ≡ dispatch g (some (drop 24 c.frame_buf)) h.payload_len w))
    feed_wrapped v big =
        let g : Hdr = encoded h in
        let a = wrapped-IsAccepted h v big in
        let fits = encode_header-IsHdr h v in
        let n : length (wire_header g) ≡ 24 = length-serialize_header g g.header_crc16 in
        let fit : length (wire_header g ++ []) ≤ length c.frame_buf =
          omega (arith, length-append (wire_header g) [], r.sized) in
        let behind : drop 24 (write_bytes c.frame_buf 0 (wire_header g)) ≡ drop 24 c.frame_buf =
          ap (λ l. drop 24 (write_bytes c.frame_buf 0 l)) (sym (append-nil (wire_header g)))
          ∙ drop_frame_buf c.frame_buf (wire_header g) [] n fit
          ∙ ap (λ k. drop k c.frame_buf) (ap length (append-nil (wire_header g)) ∙ n) in
        let p = parse-wire_header c.frame_buf g r.sized r.held fits a in
        let e =
          feed_at_rest (wire_header g)
          ∙ feed-wire_header c w g p (omega (arith, wrapped-total_len h v big)) in
        (
          rw e (
              after_frame-IsReady g (wire_header g) c r
                (serialize_header-IsBytes g g.header_crc16 fits)),
          ap (λ q. q.1) e ∙ ap₂ (λ l k. dispatch g (some l) k w) behind (encoded-payload_len h),
        )

  pub dispatch_all : List (Hdr × List ℕ) → W → W
  dispatch_all [] w = w
  dispatch_all ((h, body) ∷ fs) w = dispatch_all fs (dispatch h (some body) (length body) w)

  -- From the receiver at rest, a stream of frames, each with a header in order that announces
  -- its payload, is handed on frame by frame, in order and with nothing lost, if what takes a
  -- frame reads no more of the payload than its length. The receiver is at rest again.
  pub feed-stream :
      (fs : List (Hdr × List ℕ)) (c : RxCtx) (w : W)
      → IsReady c
      → All (λ f. IsFrame f.0 f.1) fs
      → ((h : Hdr) (body rest : List ℕ) (u : W)
          → dispatch h (some (body ++ rest)) (length body) u
            ≡ dispatch h (some body) (length body) u)
      → (let (c', w') = feed dispatch (stream fs) c w in IsReady c' × (w' ≡ dispatch_all fs w))
  unfolding feed stream dispatch_all
  feed-stream [] c w r fits local = (r, refl)
  feed-stream ((h, body) ∷ fs) c w r fits local =
      let bs : List ℕ = wire_header h ++ body in
      let one = feed_frame c w h r body fits.0 in
      let e = one.1 ∙ local h body (drop (length bs) c.frame_buf) w in
      let (c', w') = feed dispatch bs c w in
      let rest = feed-stream fs c' w' one.0 fits.1 local in
      let joined = feed-append dispatch bs (stream fs) c w in
      rw joined (rest.0, rest.1 ∙ ap (dispatch_all fs) e)
