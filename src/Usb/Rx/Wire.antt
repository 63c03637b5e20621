-- ===== src/Usb/Rx/Wire.antt =====
-- A frame on the wire as the receive buffer holds it.
use ch32v20x_usb_mux_uart_bl.Prelude.{
  ℕ, zero, suc, ◌+◌, ◌≤◌, ◌≡◌, refl, sym, ap, ◌∙◌, List, [], ◌∷◌, ◌++◌, arith, length, append_assoc,
  drop, drop_append, write_bytes, length-write_bytes, write_bytes_front, ok, IsBytes,
}
use ch32v20x_usb_mux_uart_bl.Proto.{Hdr, IsHdr}
use ch32v20x_usb_mux_uart_bl.Proto.Codec.{serialize_header, deserialize_header}
use ch32v20x_usb_mux_uart_bl.Proto.Codec.Layout.{deserialize-serialize}
use ch32v20x_usb_mux_uart_bl.Proto.Codec.Roundtrip.{IsAccepted, serialize_header-IsBytes}
use ch32v20x_usb_mux_uart_bl.Usb.Rx.{RxCtx, idle, parse_header, reset_frame}
use ch32v20x_usb_mux_uart_bl.Usb.Rx.Parse.{parse_header_accepts}
use ch32v20x_usb_mux_uart_bl.Usb.Rx.Frame.{after_frame}

write_bytes-IsBytes :
    (dst : List ℕ) (i : ℕ) (src : List ℕ)
    → IsBytes dst
    → IsBytes src
    → IsBytes (write_bytes dst i src)
write_bytes-IsBytes [] i src hd hs k = omega arith
write_bytes-IsBytes (x ∷ dst) zero [] hd hs k = hd k
write_bytes-IsBytes (x ∷ dst) zero (s ∷ src) hd hs zero = hs zero
write_bytes-IsBytes (x ∷ dst) zero (s ∷ src) hd hs (suc k) =
    write_bytes-IsBytes dst zero src (λ j. hd (suc j)) (λ j. hs (suc j)) k
write_bytes-IsBytes (x ∷ dst) (suc i) src hd hs zero = hd zero
write_bytes-IsBytes (x ∷ dst) (suc i) src hd hs (suc k) =
    write_bytes-IsBytes dst i src (λ j. hd (suc j)) hs k

pub length-serialize_header : (h : Hdr) (crc : ℕ) → length (serialize_header h crc) ≡ 24
unfolding serialize_header
length-serialize_header h crc = refl

-- A list by its last element.
pub record Snoc (xs : List ℕ) : Type 0 where
  pub front : List ℕ
  pub last : ℕ
  pub same : xs ≡ front ++ last ∷ []

pub snoc : (x : ℕ) (xs : List ℕ) → Snoc (x ∷ xs)
snoc x [] = record { front = []; last = x; same = refl }
snoc x (y ∷ xs) =
    let s = snoc y xs in
    record { front = x ∷ s.front; last = s.last; same = ap (λ l. x ∷ l) s.same }

-- The bytes of a header that is complete, with its checksum.
abbrev pub wire_header : Hdr → List ℕ
wire_header h = serialize_header h h.header_crc16

pub parse-wire_header :
    (buf : List ℕ) (h : Hdr)
    → length buf ≡ 512
    → IsBytes buf
    → IsHdr h
    → IsAccepted h 512
    → parse_header (write_bytes buf 0 (wire_header h)) ≡ (ok, h)
parse-wire_header buf h n hb v a =
    let len : length (wire_header h) ≤ length buf =
      omega (arith, length-serialize_header h h.header_crc16) in
    let e =
      ap deserialize_header (write_bytes_front buf (wire_header h) len)
      ∙ deserialize-serialize h h.header_crc16 (drop (length (wire_header h)) buf) v
          v.header_crc16_in in
    let bytes =
      write_bytes-IsBytes buf 0 (wire_header h) hb (serialize_header-IsBytes h h.header_crc16 v) in
    parse_header_accepts (write_bytes buf 0 (wire_header h)) bytes (rw e a) ∙ ap (λ g. (ok, g)) e

-- A frame on the wire: its header is in order and announces the bytes that follow it.
pub record IsFrame (h : Hdr) (body : List ℕ) : Type 0 where
  pub fits : IsHdr h
  pub accepted : IsAccepted h 512
  pub bytes : IsBytes body
  pub announced : h.total_len ≡ 24 + length body

-- The receiver between two frames.
pub record IsReady (c : RxCtx) : Type 0 where
  pub at_rest : c.state ≡ idle
  pub sized : length c.frame_buf ≡ 512
  pub held : IsBytes c.frame_buf

pub IsFrame-payload_len : (h : Hdr) (body : List ℕ) → IsFrame h body → h.payload_len ≡ length body
IsFrame-payload_len h body f =
    omega
      (arith, f.fits.payload_len_in, f.announced, f.accepted.bounded, f.accepted.shape.total_len_ok)

pub after_frame-IsReady :
    (h : Hdr) (bs : List ℕ) (c : RxCtx) → IsReady c → IsBytes bs → IsReady (after_frame h bs c)
unfolding reset_frame
after_frame-IsReady h bs c r b = record {
  at_rest = refl;
  sized = length-write_bytes c.frame_buf 0 bs ∙ r.sized;
  held = write_bytes-IsBytes c.frame_buf 0 bs r.held b;
}

pub append-IsBytes : (xs ys : List ℕ) → IsBytes xs → IsBytes ys → IsBytes (xs ++ ys)
append-IsBytes [] ys hx hy k = hy k
append-IsBytes (x ∷ xs) ys hx hy zero = hx zero
append-IsBytes (x ∷ xs) ys hx hy (suc k) = append-IsBytes xs ys (λ j. hx (suc j)) hy k

-- What lies behind the header, once the whole frame is in the buffer.
pub drop_frame_buf :
    (buf head body : List ℕ)
    → length head ≡ 24
    → length (head ++ body) ≤ length buf
    → drop 24 (write_bytes buf 0 (head ++ body)) ≡ body ++ drop (length (head ++ body)) buf
drop_frame_buf buf head body n fit =
    let rest : List ℕ = drop (length (head ++ body)) buf in
    ap (drop 24) (write_bytes_front buf (head ++ body) fit ∙ append_assoc head body rest)
    ∙ ap (λ k. drop k (head ++ (body ++ rest))) (sym n)
    ∙ drop_append head (body ++ rest)
