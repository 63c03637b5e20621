-- ===== src/Usb/Tx.antt =====
-- The transmit queues of App/usb_mux_dev/usb/usb_tx_sched.c: what its functions do to
-- `g_usb_tx_ctx`. Three queues of four frames, and the bitmaps that the host is told of.
pub mod Invariant
pub mod Content
pub mod Refine
pub mod Release
use ch32v20x_usb_mux_uart_bl.Prelude.{
  ℕ, zero, suc, ◌+◌, ◌-◌, ◌%◌, Option, none, some, List, [], ◌∷◌, not, bit_or, ltb, leb, ◌==◌,
  if◌then◌else◌, get_or, set, replicate, u8, u16, Rc, ok, err, Ptr, read_bytes, write_bytes,
}
use ch32v20x_usb_mux_uart_bl.Proto.{Hdr, Status, status_code, vp_header_len}
use ch32v20x_usb_mux_uart_bl.Proto.Codec.{serialize_header, encode_header}

-- APP_USB_MAX_FRAME_LEN, board_caps.h.
abbrev pub max_frame_len : ℕ
max_frame_len = 512

-- USBTX_QUEUE_DEPTH
abbrev pub queue_depth : ℕ
queue_depth = 4

-- `usbtx_frame_t`
pub record Frame : Type 0 where
  pub len : ℕ
  pub bytes : List ℕ

-- `usbtx_queue_t`
pub record TxQueue : Type 0 where
  pub slots : List Frame
  pub head : ℕ
  pub tail : ℕ
  pub count : ℕ

-- `usbtx_ctx_t`
pub record TxCtx : Type 0 where
  pub rsp_q : TxQueue
  pub evt_q : TxQueue
  pub data_q : TxQueue
  pub seq : ℕ
  pub pending_bitmap : ℕ
  pub dropped_bitmap : ℕ
  pub hint_dirty : ℕ

-- Which of the three queues a `usbtx_queue_t *` points to.
pub data Lane : Type 0 where
  rsp evt bulk : Lane

abbrev pub queue_of : Lane → TxCtx → TxQueue
queue_of rsp c = c.rsp_q
queue_of evt c = c.evt_q
queue_of bulk c = c.data_q

abbrev pub with_queue : Lane → TxQueue → TxCtx → TxCtx
with_queue rsp q c = record c { rsp_q = q }
with_queue evt q c = record c { evt_q = q }
with_queue bulk q c = record c { data_q = q }

-- USBTX_PENDING_RSP, USBTX_PENDING_EVT and USBTX_PENDING_DATA.
abbrev pub pending_bit : Lane → ℕ
pending_bit rsp = 1
pending_bit evt = 2
pending_bit bulk = 4

abbrev pub blank_frame : Frame
blank_frame = record { len = 0; bytes = replicate 512 0 }

abbrev pub blank_queue : TxQueue
blank_queue = record {
  slots = blank_frame ∷ blank_frame ∷ blank_frame ∷ blank_frame ∷ [];
  head = 0;
  tail = 0;
  count = 0;
}

-- `USBTX_Init`
unfoldable pub init : TxCtx
init = record {
  rsp_q = blank_queue;
  evt_q = blank_queue;
  data_q = blank_queue;
  seq = 1;
  pending_bitmap = 0;
  dropped_bitmap = 0;
  hint_dirty = 1;
}

-- `pending`, as `USBTX_UpdatePendingBitmap` collects it.
abbrev pub pending_of : TxCtx → ℕ
pending_of c =
    bit_or (bit_or (if ltb 0 c.rsp_q.count then 1 else 0) (if ltb 0 c.evt_q.count then 2 else 0))
      (if ltb 0 c.data_q.count then 4 else 0)

unfoldable pub update_pending_bitmap : TxCtx → TxCtx
update_pending_bitmap c =
    if c.pending_bitmap == pending_of c
    then c
    else record c { pending_bitmap = pending_of c; hint_dirty = 1 }

-- A frame is lost, and the next hint will say so.
abbrev pub drop_frame : ℕ → TxCtx → TxCtx
drop_frame dropped_bit c = record c {
  dropped_bitmap = bit_or c.dropped_bitmap dropped_bit;
  hint_dirty = 1;
}

-- The header that `USBTX_QueueFrame` fills in before it is encoded.
abbrev pub new_header : ℕ → ℕ → ℕ → ℕ → ℕ → ℕ → Status → ℕ → Hdr
new_header seq ch_type ch_id msg_type opcode ref_seq status payload_len = record {
  magic = 0;
  version = 0;
  header_len = 0;
  total_len = 0;
  seq = seq;
  ref_seq = ref_seq;
  ch_type = ch_type;
  ch_id = ch_id;
  msg_type = msg_type;
  opcode = opcode;
  flags = 0;
  status = status_code status;
  payload_len = payload_len;
  header_crc16 = 0;
  reserved = 0;
}

-- The bytes of the slot after the header and the payload are stored over `old`. A null payload
-- leaves the bytes behind the header as they were.
abbrev pub fill_frame : List ℕ → Hdr → Ptr → List ℕ
fill_frame old h none = write_bytes old 0 (serialize_header h h.header_crc16)
fill_frame old h (some payload) =
    write_bytes (write_bytes old 0 (serialize_header h h.header_crc16)) vp_header_len
      (read_bytes payload 0 h.payload_len)

-- Stores the frame of header `h` into the slot at `tail`.
abbrev pub put_frame : Hdr → Ptr → TxQueue → TxQueue
put_frame h payload q =
    let slot : Frame = get_or q.slots q.tail blank_frame in
    record q {
      slots =
          set q.slots q.tail
            (record { len = h.total_len; bytes = fill_frame slot.bytes h payload });
      tail = u8 ((q.tail + 1) % queue_depth);
      count = u8 (q.count + 1);
    }

-- The part of `USBTX_QueueFrame` that is reached when the queue has a free slot.
unfoldable pub store_frame : Lane → ℕ → ℕ → ℕ → ℕ → ℕ → ℕ → Status → Ptr → ℕ → TxCtx → Rc × TxCtx
unfolding update_pending_bitmap
store_frame lane dropped_bit ch_type ch_id msg_type opcode ref_seq status payload payload_len c =
    let hdr : Hdr = new_header c.seq ch_type ch_id msg_type opcode ref_seq status payload_len in
    let c' : TxCtx = record c { seq = u16 (c.seq + 1) } in
    let (rc, h) = encode_header hdr in
    elim rc [
      | err ↦ (err, drop_frame dropped_bit c')
      | ok ↦
          (ok, update_pending_bitmap (with_queue lane (put_frame h payload (queue_of lane c')) c'))
    ]

-- `USBTX_QueueFrame` without the call of `AppTask_KickUsbTx`, which is made on `ok`.
unfoldable pub queue_frame : Lane → ℕ → ℕ → ℕ → ℕ → ℕ → ℕ → Status → Ptr → ℕ → TxCtx → Rc × TxCtx
queue_frame lane dropped_bit ch_type ch_id msg_type opcode ref_seq status payload payload_len c =
    if ltb (max_frame_len - vp_header_len) payload_len
    then (err, drop_frame dropped_bit c)
    else (if leb queue_depth (queue_of lane c).count
        then (err, drop_frame dropped_bit c)
        else store_frame lane dropped_bit ch_type ch_id msg_type opcode ref_seq status payload
            payload_len c)

unfoldable pub peek_queue : TxQueue → Option Frame
peek_queue q = if q.count == 0 then none else some (get_or q.slots q.head blank_frame)

unfoldable pub pop_queue : Lane → TxCtx → TxCtx
unfolding update_pending_bitmap
pop_queue lane c =
    let q : TxQueue = queue_of lane c in
    if q.count == 0
    then c
    else (update_pending_bitmap (
        with_queue lane (record q { head = u8 ((q.head + 1) % queue_depth); count = q.count - 1 })
          c))
