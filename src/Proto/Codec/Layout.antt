-- ===== src/Proto/Codec/Layout.antt =====
-- The layout of a header in memory: reading is the inverse of writing, both ways.
use ch32v20x_usb_mux_uart_bl.Prelude.{
  ℕ, ◌+◌, ◌*◌, ◌≡◌, List, [], ◌∷◌, ◌++◌, arith, get_or, set, u16, IsU8, IsU16, IsBytes, read_bytes,
}
use ch32v20x_usb_mux_uart_bl.Proto.{Hdr, IsHdr}
use ch32v20x_usb_mux_uart_bl.Proto.Codec.{lo, hi, serialize_header, deserialize_header}

le16 : (v : ℕ) → IsU16 v → u16 (lo v + hi v * 256) ≡ v
le16 v h = omega arith

module _ (a b : ℕ) (ha : IsU8 a) (hb : IsU8 b) where
  lo_of_le16 : lo (u16 (a + b * 256)) ≡ a
  lo_of_le16 = omega arith

  hi_of_le16 : hi (u16 (a + b * 256)) ≡ b
  hi_of_le16 = omega arith

-- A header whose fields fit their types is read back as it was written, whatever follows it.
pub deserialize-serialize :
    (h : Hdr) (crc : ℕ) (rest : List ℕ)
    → IsHdr h
    → IsU16 crc
    → deserialize_header (serialize_header h crc ++ rest) ≡ record h { header_crc16 = crc }
unfolding deserialize_header serialize_header
deserialize-serialize h crc rest v hc = λ i. record {
  magic = le16 h.magic v.magic_in i;
  version = h.version;
  header_len = h.header_len;
  total_len = le16 h.total_len v.total_len_in i;
  seq = le16 h.seq v.seq_in i;
  ref_seq = le16 h.ref_seq v.ref_seq_in i;
  ch_type = h.ch_type;
  ch_id = h.ch_id;
  msg_type = h.msg_type;
  opcode = h.opcode;
  flags = le16 h.flags v.flags_in i;
  status = le16 h.status v.status_in i;
  payload_len = le16 h.payload_len v.payload_len_in i;
  header_crc16 = le16 crc hc i;
  reserved = le16 h.reserved v.reserved_in i;
}

-- A header that was read is written as the 24 bytes that it was read from, but for the checksum.
pub serialize-deserialize :
    (buf : List ℕ)
    → IsBytes buf
    → serialize_header (deserialize_header buf) 0 ≡ set (set (read_bytes buf 0 24) 20 0) 21 0
unfolding deserialize_header serialize_header
serialize-deserialize buf hb = λ i.
    l 0 i
    ∷ r 0 i
    ∷ b 2
    ∷ b 3
    ∷ l 4 i
    ∷ r 4 i
    ∷ l 6 i
    ∷ r 6 i
    ∷ l 8 i
    ∷ r 8 i
    ∷ b 10
    ∷ b 11
    ∷ b 12
    ∷ b 13
    ∷ l 14 i
    ∷ r 14 i
    ∷ l 16 i
    ∷ r 16 i
    ∷ l 18 i
    ∷ r 18 i
    ∷ 0
    ∷ 0
    ∷ l 22 i
    ∷ r 22 i
    ∷ []
  where
    b : ℕ → ℕ
    b k = get_or buf k 0

    l : (k : ℕ) → lo (u16 (b k + b (k + 1) * 256)) ≡ b k
    l k = lo_of_le16 (b k) (b (k + 1)) (hb k) (hb (k + 1))

    r : (k : ℕ) → hi (u16 (b k + b (k + 1) * 256)) ≡ b (k + 1)
    r k = hi_of_le16 (b k) (b (k + 1)) (hb k) (hb (k + 1))

-- The header that was read fits its types.
pub deserialize-IsHdr : (buf : List ℕ) → IsBytes buf → IsHdr (deserialize_header buf)
unfolding deserialize_header
deserialize-IsHdr buf hb = record {
  magic_in = omega arith;
  version_in = hb 2;
  header_len_in = hb 3;
  total_len_in = omega arith;
  seq_in = omega arith;
  ref_seq_in = omega arith;
  ch_type_in = hb 10;
  ch_id_in = hb 11;
  msg_type_in = hb 12;
  opcode_in = hb 13;
  flags_in = omega arith;
  status_in = omega arith;
  payload_len_in = omega arith;
  header_crc16_in = omega arith;
  reserved_in = omega arith;
}
