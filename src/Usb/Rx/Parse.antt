-- ===== src/Usb/Rx/Parse.antt =====
-- `USBRX_ParseHeader` against `VP_DecodeHeader`: two routines for one check.
use ch32v20x_usb_mux_uart_bl.Prelude.{
  ℕ, ◌≡◌, ◌↔◌, sym, ap, ◌∙◌, some, List, arith, set, ok, IsBytes, read_bytes,
}
use ch32v20x_usb_mux_uart_bl.Proto.{Hdr}
use ch32v20x_usb_mux_uart_bl.Proto.Codec.{deserialize_header, crc16, decode_header}
use ch32v20x_usb_mux_uart_bl.Proto.Codec.Layout.{serialize-deserialize}
use ch32v20x_usb_mux_uart_bl.Proto.Codec.Roundtrip.{IsAccepted, own_crc, decode_header_iff}
use ch32v20x_usb_mux_uart_bl.Usb.Rx.{check_header, parse_header}

-- The checksum that `USBRX_ParseHeader` computes is that of the header with its checksum cleared.
window_crc :
    (buf : List ℕ)
    → IsBytes buf
    → crc16 (some (set (set (read_bytes buf 0 24) 20 0) 21 0)) 24 ≡ own_crc (deserialize_header buf)
window_crc buf hb = ap (λ bs. crc16 (some bs) 24) (sym (serialize-deserialize buf hb))

check_header_sound :
    (buf : List ℕ) (h : Hdr)
    → crc16 (some (set (set (read_bytes buf 0 24) 20 0) 21 0)) 24 ≡ own_crc h
    → check_header buf h ≡ ok
    → IsAccepted h 512
unfolding check_header
check_header_sound buf h e a = ground arith

check_header_complete :
    (buf : List ℕ) (h : Hdr)
    → crc16 (some (set (set (read_bytes buf 0 24) 20 0) 21 0)) 24 ≡ own_crc h
    → IsAccepted h 512
    → check_header buf h ≡ ok
unfolding check_header
check_header_complete buf h e a = ground (arith, a.shape)

abbrev window : List ℕ → Hdr
window buf = deserialize_header buf

pub parse_header_accepts :
    (buf : List ℕ) → IsBytes buf → IsAccepted (window buf) 512 → parse_header buf ≡ (ok, window buf)
unfolding parse_header
parse_header_accepts buf hb a =
    ap (λ rc. (rc, window buf)) (check_header_complete buf (window buf) (window_crc buf hb) a)

parse_header_inv :
    (buf : List ℕ) (h : Hdr)
    → IsBytes buf
    → parse_header buf ≡ (ok, h)
    → (h ≡ window buf) × IsAccepted (window buf) 512
unfolding parse_header
parse_header_inv buf h hb e =
    let rc : check_header buf (window buf) ≡ ok = ap (λ r. r.0) e in
    let same : window buf ≡ h = ap (λ r. r.1) e in
    (sym same, check_header_sound buf (window buf) (window_crc buf hb) rc)

-- On a window of bytes, the receiver's own parser accepts exactly when `VP_DecodeHeader` does for
-- a frame of at most 512 bytes, and it finds the same header.
pub parse_header_iff :
    (buf : List ℕ) (h : Hdr)
    → IsBytes buf
    → (parse_header buf ≡ (ok, h)) ↔ (decode_header (some buf) 512 ≡ some h)
parse_header_iff buf h hb = (to, from)
  where
    to : parse_header buf ≡ (ok, h) → decode_header (some buf) 512 ≡ some h
    to e =
        let i = parse_header_inv buf h hb e in
        (decode_header_iff buf 512 h).1 (omega arith, i.0, rw i.0 i.1)

    from : decode_header (some buf) 512 ≡ some h → parse_header buf ≡ (ok, h)
    from e =
        let d = (decode_header_iff buf 512 h).0 e in
        parse_header_accepts buf hb (rw d.1 at d.2) ∙ rw (← d.1)
