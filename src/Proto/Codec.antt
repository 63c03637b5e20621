-- ===== src/Proto/Codec.antt =====
-- App/usb_mux_dev/proto/vendor_proto_codec.c. A header that is passed by address is not null in
-- the model; the pointer to bytes may be.
pub mod Crc
pub mod Layout
pub mod Roundtrip
use ch32v20x_usb_mux_uart_bl.Prelude.{
  ℕ, zero, suc, ◌+◌, ◌*◌, ◌/◌, ◌%◌, Bool, Option, none, some, List, [], ◌∷◌, not, bit_xor, ltb,
  ◌==◌, if◌then◌else◌, get_or, u8, u16, Rc, ok, err, Ptr,
}
use ch32v20x_usb_mux_uart_bl.Proto.{Hdr, vp_magic, vp_version, vp_header_len}

-- The two bytes that `VP_WriteLe16` stores.
abbrev pub lo : ℕ → ℕ
lo v = v % 256

abbrev pub hi : ℕ → ℕ
hi v = u8 (v / 256)

-- `VP_ReadLe16(&src[i])`: the two bytes share no bit, so `|` is `+`.
unfoldable pub read_le16 : List ℕ → ℕ → ℕ
read_le16 src i = u16 (get_or src i 0 + get_or src (i + 1) 0 * 256)

-- `VP_SerializeHeader` stores the fields at consecutive offsets that cover all 24 bytes.
unfoldable pub serialize_header : Hdr → ℕ → List ℕ
serialize_header h crc =
    lo h.magic
    ∷ hi h.magic
    ∷ h.version
    ∷ h.header_len
    ∷ lo h.total_len
    ∷ hi h.total_len
    ∷ lo h.seq
    ∷ hi h.seq
    ∷ lo h.ref_seq
    ∷ hi h.ref_seq
    ∷ h.ch_type
    ∷ h.ch_id
    ∷ h.msg_type
    ∷ h.opcode
    ∷ lo h.flags
    ∷ hi h.flags
    ∷ lo h.status
    ∷ hi h.status
    ∷ lo h.payload_len
    ∷ hi h.payload_len
    ∷ lo crc
    ∷ hi crc
    ∷ lo h.reserved
    ∷ hi h.reserved
    ∷ []

unfoldable pub deserialize_header : List ℕ → Hdr
unfolding read_le16
deserialize_header buf = record {
  magic = read_le16 buf 0;
  version = get_or buf 2 0;
  header_len = get_or buf 3 0;
  total_len = read_le16 buf 4;
  seq = read_le16 buf 6;
  ref_seq = read_le16 buf 8;
  ch_type = get_or buf 10 0;
  ch_id = get_or buf 11 0;
  msg_type = get_or buf 12 0;
  opcode = get_or buf 13 0;
  flags = read_le16 buf 14;
  status = read_le16 buf 16;
  payload_len = read_le16 buf 18;
  header_crc16 = read_le16 buf 20;
  reserved = read_le16 buf 22;
}

unfoldable pub check_header_shape : Hdr → Rc
check_header_shape h =
    if not (h.magic == vp_magic)
    then err
    else (if not (h.version == vp_version)
        then err
        else (if not (h.header_len == vp_header_len)
            then err
            else (if not (h.total_len == u16 (h.header_len + h.payload_len)) then err else ok)))

-- One round of the inner loop of `VP_Crc16`; `crc & 0x8000` tests bit 15.
unfoldable pub crc_bit : ℕ → ℕ
crc_bit crc = if crc / 0x8000 % 2 == 0 then u16 (crc * 2) else u16 (bit_xor (crc * 2) 0x1021)

unfoldable pub crc_bits : ℕ → ℕ → ℕ
crc_bits zero crc = crc
crc_bits (suc n) crc = crc_bits n (crc_bit crc)

-- One round of the outer loop.
unfoldable pub crc_byte : ℕ → ℕ → ℕ
unfolding crc_bits crc_bit
crc_byte crc x = crc_bits 8 (bit_xor crc (x * 256))

-- The outer loop from index `i` on, with `n` bytes to go.
unfoldable pub crc_loop : List ℕ → ℕ → ℕ → ℕ → ℕ
unfolding crc_byte
crc_loop bytes i zero crc = crc
crc_loop bytes i (suc n) crc = crc_loop bytes (i + 1) n (crc_byte crc (get_or bytes i 0))

unfoldable pub crc16 : Ptr → ℕ → ℕ
unfolding crc_loop
crc16 none len = 0
crc16 (some bytes) len = crc_loop bytes 0 len 0xFFFF

unfoldable pub encode_header : Hdr → Rc × Hdr
encode_header hdr =
    let h = record hdr {
      magic = vp_magic;
      version = vp_version;
      header_len = vp_header_len;
      total_len = u16 (vp_header_len + hdr.payload_len);
      header_crc16 = 0;
    } in
    let crc : ℕ = crc16 (some (serialize_header h 0)) vp_header_len in
    (ok, record h { header_crc16 = crc })

unfoldable pub check_frame_bounds : Hdr → ℕ → Rc
unfolding check_header_shape
check_frame_bounds h max_len = elim (check_header_shape h) [
  | err ↦ err
  | ok ↦ if ltb max_len h.total_len then err else ok
]

-- The checks that `VP_DecodeHeader` makes of the header that it has read.
unfoldable pub verify_header : Hdr → ℕ → Option Hdr
unfolding check_frame_bounds
verify_header h len = elim (check_frame_bounds h len) [
  | err ↦ none
  | ok ↦
      (if not (crc16 (some (serialize_header h 0)) vp_header_len == h.header_crc16)
        then none
        else some h)
]

-- `none` is the return value -1, with the header of the caller left alone.
unfoldable pub decode_header : Ptr → ℕ → Option Hdr
decode_header none len = none
decode_header (some buf) len =
    if ltb len vp_header_len then none else verify_header (deserialize_header buf) len
