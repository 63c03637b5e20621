-- ===== src/Proto/Codec/Roundtrip.antt =====
-- `VP_EncodeHeader` and `VP_DecodeHeader`: what is accepted, and that an encoded header is.
use ch32v20x_usb_mux_uart_bl.Prelude.{
  ℕ, ◌+◌, ◌≤◌, ◌<◌, ◌≡◌, refl, sym, ◌∙◌, some, none, List, ◌++◌, arith, u16, ◌↔◌, IsU16, IsBytes,
  All-IsBytes, dec_le, ok,
}
use ch32v20x_usb_mux_uart_bl.Proto.{Hdr, IsHdr, vp_magic, vp_version, vp_header_len}
use ch32v20x_usb_mux_uart_bl.Proto.Codec.{
  serialize_header, deserialize_header, check_header_shape, crc16, encode_header, decode_header,
  verify_header,
}
use ch32v20x_usb_mux_uart_bl.Proto.Codec.Crc.{crc16-IsU16}
use ch32v20x_usb_mux_uart_bl.Proto.Codec.Layout.{deserialize-serialize}

-- What the fields say of one another in a header that the firmware accepts.
pub record HasShape (h : Hdr) : Type 0 where
  pub magic_ok : h.magic ≡ vp_magic
  pub version_ok : h.version ≡ vp_version
  pub header_len_ok : h.header_len ≡ vp_header_len
  pub total_len_ok : h.total_len ≡ u16 (vp_header_len + h.payload_len)

pub check_header_shape_sound : (h : Hdr) → check_header_shape h ≡ ok → HasShape h
unfolding check_header_shape
check_header_shape_sound h e = ground arith

pub check_header_shape_complete : (h : Hdr) → HasShape h → check_header_shape h ≡ ok
unfolding check_header_shape
check_header_shape_complete h s = ground arith

pub serialize_header-IsBytes : (h : Hdr) (crc : ℕ) → IsHdr h → IsBytes (serialize_header h crc)
unfolding serialize_header
serialize_header-IsBytes h crc v = All-IsBytes (serialize_header h crc) (omega arith)

-- What `VP_EncodeHeader` makes of a header.
abbrev pub encoded : Hdr → Hdr
encoded h = (encode_header h).1

-- The header is completed with the constants, the length and the checksum of its bytes, all of
-- which fit their types; the other fields stay.
pub encode_header-IsHdr : (h : Hdr) → IsHdr h → IsHdr (encoded h)
unfolding encode_header
encode_header-IsHdr h v = record {
  magic_in = omega arith;
  version_in = omega arith;
  header_len_in = omega arith;
  total_len_in = omega arith;
  seq_in = v.seq_in;
  ref_seq_in = v.ref_seq_in;
  ch_type_in = v.ch_type_in;
  ch_id_in = v.ch_id_in;
  msg_type_in = v.msg_type_in;
  opcode_in = v.opcode_in;
  flags_in = v.flags_in;
  status_in = v.status_in;
  payload_len_in = v.payload_len_in;
  header_crc16_in =
      crc16-IsU16 (serialize_header blank 0) (serialize_header-IsBytes blank 0 fits) 24;
  reserved_in = v.reserved_in;
}
  where
    blank : Hdr
    blank = record h {
      magic = vp_magic;
      version = vp_version;
      header_len = vp_header_len;
      total_len = u16 (vp_header_len + h.payload_len);
      header_crc16 = 0;
    }

    fits : IsHdr blank
    fits = omega arith

pub encode_header-HasShape : (h : Hdr) → HasShape (encoded h)
unfolding encode_header
encode_header-HasShape h = record {
  magic_ok = refl;
  version_ok = refl;
  header_len_ok = refl;
  total_len_ok = refl;
}

-- The checksum that a header must hold.
abbrev pub own_crc : Hdr → ℕ
own_crc h = crc16 (some (serialize_header h 0)) vp_header_len

pub encode_header-crc : (h : Hdr) → own_crc (encoded h) ≡ (encoded h).header_crc16
unfolding encode_header serialize_header
encode_header-crc h = refl

-- What the firmware checks of a header that it has read.
pub record IsAccepted (h : Hdr) (len : ℕ) : Type 0 where
  pub shape : HasShape h
  pub bounded : h.total_len ≤ len
  pub checksum : own_crc h ≡ h.header_crc16

pub encode_header-IsAccepted :
    (h : Hdr) (len : ℕ)
    → IsU16 (vp_header_len + h.payload_len)
    → vp_header_len + h.payload_len ≤ len
    → IsAccepted (encoded h) len
encode_header-IsAccepted h len fits room = record {
  shape = encode_header-HasShape h;
  bounded = unfold encode_header in omega arith;
  checksum = encode_header-crc h;
}

verify_header_sound :
    (h g : Hdr) (len : ℕ) → verify_header h len ≡ some g → (g ≡ h) × IsAccepted h len
unfolding verify_header check_header_shape
verify_header_sound h g len e = ground arith

verify_header_complete : (h : Hdr) (len : ℕ) → IsAccepted h len → verify_header h len ≡ some h
unfolding verify_header check_header_shape
verify_header_complete h len a = ground (arith, a.shape)

decode_header_long :
    (buf : List ℕ) (len : ℕ)
    → vp_header_len ≤ len
    → decode_header (some buf) len ≡ verify_header (deserialize_header buf) len
unfolding decode_header
decode_header_long buf len h = ground arith

decode_header_short :
    (buf : List ℕ) (len : ℕ) → len < vp_header_len → decode_header (some buf) len ≡ none
unfolding decode_header
decode_header_short buf len h = ground arith

-- `VP_DecodeHeader` accepts exactly the buffers of 24 bytes or more whose header has the right
-- constants, lengths and checksum and announces no more than `len` bytes, and returns that header.
pub decode_header_iff :
    (buf : List ℕ) (len : ℕ) (h : Hdr)
    → (decode_header (some buf) len ≡ some h)
      ↔ ((vp_header_len ≤ len) × (h ≡ deserialize_header buf) × IsAccepted h len)
decode_header_iff buf len h = (to, from)
  where
    to :
        decode_header (some buf) len ≡ some h
        → (vp_header_len ≤ len) × (h ≡ deserialize_header buf) × IsAccepted h len
    to e = elim (dec_le vp_header_len len) [
      | yes l ↦
          (let s =
              verify_header_sound (deserialize_header buf) h len
                (sym (decode_header_long buf len l) ∙ e) in
            (l, s.0, rw s.0 s.1))
      | no s ↦ absurd (cc (decode_header_short buf len (omega arith)))
    ]

    from :
        (vp_header_len ≤ len) × (h ≡ deserialize_header buf) × IsAccepted h len
        → decode_header (some buf) len ≡ some h
    from (l, e, a) = rw (decode_header_long buf len l, ← e) (verify_header_complete h len a)

-- Decoding is the inverse of encoding: the bytes of an encoded header, with anything behind them,
-- decode to it, if its fields fit their types and its payload fits the 16-bit length and the
-- buffer.
pub decode-encode :
    (h : Hdr) (rest : List ℕ) (len : ℕ)
    → IsHdr h
    → IsU16 (vp_header_len + h.payload_len)
    → vp_header_len + h.payload_len ≤ len
    → let h' = encoded h in
      decode_header (some (serialize_header h' h'.header_crc16 ++ rest)) len ≡ some h'
decode-encode h rest len v fits room =
    let h' : Hdr = encoded h in
    let v' = encode_header-IsHdr h v in
    (decode_header_iff (serialize_header h' h'.header_crc16 ++ rest) len h').1 (
      omega arith,
      sym (deserialize-serialize h' h'.header_crc16 rest v' v'.header_crc16_in),
      encode_header-IsAccepted h len fits room,
    )
