-- ===== src/Examples/Frames.antt =====
-- A frame of two bytes on the system channel, through the codec.
use ch32v20x_usb_mux_uart_bl.Prelude.{
  ℕ, ◌≡◌, ◌≢◌, ◌≤◌, ◌↔◌, refl, some, List, [], ◌∷◌, ◌++◌, arith, set, IsBytes, All-IsBytes, ok,
}
use ch32v20x_usb_mux_uart_bl.Proto.{Hdr, IsHdr, vp_header_len}
use ch32v20x_usb_mux_uart_bl.Proto.Codec.{
  serialize_header, deserialize_header, encode_header, decode_header, crc16,
}
use ch32v20x_usb_mux_uart_bl.Proto.Codec.Crc.{crc16_detects_byte}
use ch32v20x_usb_mux_uart_bl.Proto.Codec.Roundtrip.{
  IsAccepted, encoded, encode_header-IsHdr, encode_header-IsAccepted, decode-encode,
  decode_header_iff,
}
use ch32v20x_usb_mux_uart_bl.Usb.Rx.{parse_header}
use ch32v20x_usb_mux_uart_bl.Usb.Rx.Parse.{parse_header_iff}
use ch32v20x_usb_mux_uart_bl.Usb.Rx.Wire.{IsFrame}

-- A heartbeat request before it is encoded, with a payload of `n` bytes.
abbrev pub ping : ℕ → Hdr
ping n = record {
  magic = 0;
  version = 0;
  header_len = 0;
  total_len = 0;
  seq = 5;
  ref_seq = 0;
  ch_type = 0;
  ch_id = 0;
  msg_type = 1;
  opcode = 3;
  flags = 0;
  status = 0;
  payload_len = n;
  header_crc16 = 0;
  reserved = 0;
}

pub ping-IsHdr : IsHdr (ping 2)
ping-IsHdr = omega arith

pub large-IsHdr : IsHdr (ping 65530)
large-IsHdr = omega arith

abbrev pub body : List ℕ
body = 17 ∷ 34 ∷ []

pub body-IsBytes : IsBytes body
body-IsBytes = All-IsBytes body (omega arith)

total_len_ping : (encoded (ping 2)).total_len ≡ 26
unfolding encode_header
total_len_ping = refl

pub ping-IsFrame : IsFrame (encoded (ping 2)) body
ping-IsFrame = record {
  fits = encode_header-IsHdr (ping 2) ping-IsHdr;
  accepted = encode_header-IsAccepted (ping 2) 512 (omega arith) (omega arith);
  bytes = body-IsBytes;
  announced = total_len_ping;
}

decode-encode_example :
    let h' = encoded (ping 2) in
    decode_header (some (serialize_header h' h'.header_crc16 ++ body)) 26 ≡ some h'
decode-encode_example = decode-encode (ping 2) body 26 ping-IsHdr (omega arith) (omega arith)

crc16_detects_byte_example : crc16 (some (set body 1 35)) 2 ≢ crc16 (some body) 2
crc16_detects_byte_example =
    crc16_detects_byte body body-IsBytes 2 1 35 (omega arith) (omega arith) (omega arith)
      (λ e. omega (arith, e))

decode_header_iff_example :
    (decode_header (some body) 512 ≡ some (ping 2))
    ↔ ((vp_header_len ≤ 512) × (ping 2 ≡ deserialize_header body) × IsAccepted (ping 2) 512)
decode_header_iff_example = decode_header_iff body 512 (ping 2)

parse_header_iff_example :
    (parse_header body ≡ (ok, ping 2)) ↔ (decode_header (some body) 512 ≡ some (ping 2))
parse_header_iff_example = parse_header_iff body (ping 2) body-IsBytes
