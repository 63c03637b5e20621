-- ===== src/Usb/Tx/Invariant.antt =====
-- The invariant of the transmit queues: it holds after `USBTX_Init`, and every function keeps it.
use ch32v20x_usb_mux_uart_bl.Prelude.{
  ℕ, zero, suc, ◌+◌, ◌-◌, ◌%◌, ◌≤◌, ◌<◌, ◌≡◌, refl, ap, some, none, List, [], ◌∷◌, arith, length,
  length-set, get_or, set, ltb, leb, lt→ltb, dec_le, dec_lt, false, All, u8, u16, IsU16, ok, err,
  Ptr, length-write_bytes, read_bytes, write_bytes, ◌∙◌, ◌==◌, ==_iff, Bool-cases, inl, inr,
}
use ch32v20x_usb_mux_uart_bl.Proto.{Hdr, Status}
use ch32v20x_usb_mux_uart_bl.Proto.Codec.{serialize_header, encode_header}
use ch32v20x_usb_mux_uart_bl.Usb.Tx.{
  Frame, TxQueue, TxCtx, Lane, rsp, evt, bulk, queue_of, with_queue, blank_frame, init, pending_of,
  update_pending_bitmap, drop_frame, new_header, fill_frame, put_frame, store_frame, queue_frame,
  pop_queue,
}

-- Four slots of 512 bytes; the queue's frames lie from `head` up to `tail`, going round.
pub record IsQueue (q : TxQueue) : Type 0 where
  pub depth : length q.slots ≡ 4
  pub stored : All (λ f. length (Frame.bytes f) ≡ 512) q.slots
  pub head_in : q.head < 4
  pub count_in : q.count ≤ 4
  pub tail_at : q.tail ≡ (q.head + q.count) % 4

-- The pending bitmap tells exactly which queues hold a frame.
pub record IsTx (c : TxCtx) : Type 0 where
  pub rsp_ok : IsQueue c.rsp_q
  pub evt_ok : IsQueue c.evt_q
  pub data_ok : IsQueue c.data_q
  pub seq_in : IsU16 c.seq
  pub pending_ok : c.pending_bitmap ≡ pending_of c

pub init-IsTx : IsTx init
unfolding init
init-IsTx = record {
  rsp_ok = blank;
  evt_ok = blank;
  data_ok = blank;
  seq_in = omega arith;
  pending_ok = refl;
}
  where
    blank : IsQueue (init.rsp_q)
    blank = record {
      depth = refl;
      stored = (refl, (refl, (refl, (refl, tt))));
      head_in = omega arith;
      count_in = omega arith;
      tail_at = refl;
    }

All-set :
    (fs : List Frame) (i : ℕ) (f : Frame)
    → All (λ f. length (Frame.bytes f) ≡ 512) fs
    → length f.bytes ≡ 512
    → All (λ f. length (Frame.bytes f) ≡ 512) (set fs i f)
All-set [] i f h e = tt
All-set (g ∷ fs) zero f h e = (e, h.1)
All-set (g ∷ fs) (suc i) f h e = (h.0, All-set fs i f h.1 e)

-- A slot holds 512 bytes.
pub slot-length :
    (fs : List Frame) (i : ℕ)
    → All (λ f. length (Frame.bytes f) ≡ 512) fs
    → length (get_or fs i blank_frame).bytes ≡ 512
slot-length [] i h = refl
slot-length (g ∷ fs) zero h = h.0
slot-length (g ∷ fs) (suc i) h = slot-length fs i h.1

length-fill_frame : (old : List ℕ) (h : Hdr) (p : Ptr) → length (fill_frame old h p) ≡ length old
length-fill_frame old h none = length-write_bytes old 0 (serialize_header h h.header_crc16)
length-fill_frame old h (some bs) =
    length-write_bytes (write_bytes old 0 head) 24 (read_bytes bs 0 h.payload_len)
    ∙ length-write_bytes old 0 head
  where
    head : List ℕ
    head = serialize_header h h.header_crc16

pub put_frame-IsQueue :
    (h : Hdr) (p : Ptr) (q : TxQueue) → IsQueue q → q.count < 4 → IsQueue (put_frame h p q)
put_frame-IsQueue h p q v room = record {
  depth = length-set q.slots q.tail _ ∙ v.depth;
  stored = All-set q.slots q.tail _ v.stored (
      length-fill_frame (get_or q.slots q.tail blank_frame).bytes h p
      ∙ slot-length q.slots q.tail v.stored);
  head_in = v.head_in;
  count_in = omega (arith, v.count_in);
  tail_at = omega (arith, v.tail_at);
}

pub update_pending_bitmap-queue_of :
    (c : TxCtx) (l : Lane) → queue_of l (update_pending_bitmap c) ≡ queue_of l c
unfolding update_pending_bitmap
update_pending_bitmap-queue_of c rsp = ground arith
update_pending_bitmap-queue_of c evt = ground arith
update_pending_bitmap-queue_of c bulk = ground arith

-- Whatever the bitmap held before, it is right afterwards.
update_pending_bitmap-IsTx :
    (c : TxCtx)
    → IsQueue c.rsp_q
    → IsQueue c.evt_q
    → IsQueue c.data_q
    → IsU16 c.seq
    → IsTx (update_pending_bitmap c)
unfolding update_pending_bitmap
update_pending_bitmap-IsTx c a b d s = elim (Bool-cases (c.pending_bitmap == pending_of c)) [
  | inl e ↦
      rw e record { rsp_ok = a; evt_ok = b; data_ok = d; seq_in = s; pending_ok = (==_iff _ _).0 e }
  | inr e ↦ rw e record { rsp_ok = a; evt_ok = b; data_ok = d; seq_in = s; pending_ok = refl }
]

-- Putting a well-formed queue in place of one of the three, and updating the bitmap.
with_queue-IsTx :
    (l : Lane) (q : TxQueue) (c : TxCtx)
    → IsTx c
    → IsQueue q
    → IsTx (update_pending_bitmap (with_queue l q c))
with_queue-IsTx rsp q c v w =
    update_pending_bitmap-IsTx (with_queue rsp q c) w v.evt_ok v.data_ok v.seq_in
with_queue-IsTx evt q c v w =
    update_pending_bitmap-IsTx (with_queue evt q c) v.rsp_ok w v.data_ok v.seq_in
with_queue-IsTx bulk q c v w =
    update_pending_bitmap-IsTx (with_queue bulk q c) v.rsp_ok v.evt_ok w v.seq_in

pub queue_of-IsQueue : (l : Lane) (c : TxCtx) → IsTx c → IsQueue (queue_of l c)
queue_of-IsQueue rsp c v = v.rsp_ok
queue_of-IsQueue evt c v = v.evt_ok
queue_of-IsQueue bulk c v = v.data_ok

drop_frame-IsTx : (b : ℕ) (c : TxCtx) → IsTx c → IsTx (drop_frame b c)
drop_frame-IsTx b c v = record {
  rsp_ok = v.rsp_ok;
  evt_ok = v.evt_ok;
  data_ok = v.data_ok;
  seq_in = v.seq_in;
  pending_ok = v.pending_ok;
}

next_seq : TxCtx → TxCtx
next_seq c = record c { seq = u16 (c.seq + 1) }

queue_of-next_seq : (l : Lane) (c : TxCtx) → queue_of l (next_seq c) ≡ queue_of l c
unfolding next_seq
queue_of-next_seq rsp c = refl
queue_of-next_seq evt c = refl
queue_of-next_seq bulk c = refl

next_seq-IsTx : (c : TxCtx) → IsTx c → IsTx (next_seq c)
unfolding next_seq
next_seq-IsTx c v = record {
  rsp_ok = v.rsp_ok;
  evt_ok = v.evt_ok;
  data_ok = v.data_ok;
  seq_in = omega arith;
  pending_ok = v.pending_ok;
}

module _ (l : Lane) (bit ch_type ch_id msg_type opcode ref_seq : ℕ) (status : Status) (p : Ptr)
    (n : ℕ) (c : TxCtx) where
  -- The header of the frame that is stored.
  abbrev pub sent_header : Hdr
  sent_header = (encode_header (new_header c.seq ch_type ch_id msg_type opcode ref_seq status n)).1

  -- The context behind a frame that was stored.
  abbrev pub after_store : TxCtx
  after_store =
      update_pending_bitmap
        (with_queue l (put_frame sent_header p (queue_of l c)) (record c { seq = u16 (c.seq + 1) }))

  pub store_frame_lem :
      store_frame l bit ch_type ch_id msg_type opcode ref_seq status p n c ≡ (ok, after_store)
  unfolding store_frame encode_header next_seq
  store_frame_lem =
      ap (λ q. (ok, update_pending_bitmap (with_queue l (put_frame sent_header p q) (next_seq c))))
        (queue_of-next_seq l c)

  pub after_store-IsTx : IsTx c → (queue_of l c).count < 4 → IsTx after_store
  after_store-IsTx v room =
      with_queue-IsTx l (put_frame sent_header p (queue_of l c))
        (record c { seq = u16 (c.seq + 1) }) (unfold next_seq in next_seq-IsTx c v)
        (put_frame-IsQueue sent_header p (queue_of l c) (queue_of-IsQueue l c v) room)

  -- The three ways through `USBTX_QueueFrame`.
  pub queue_frame_long :
      488 < n
      → queue_frame l bit ch_type ch_id msg_type opcode ref_seq status p n c
        ≡ (err, drop_frame bit c)
  unfolding queue_frame
  queue_frame_long h = rw (lt→ltb 488 n h)

  pub queue_frame_full :
      n ≤ 488
      → 4 ≤ (queue_of l c).count
      → queue_frame l bit ch_type ch_id msg_type opcode ref_seq status p n c
        ≡ (err, drop_frame bit c)
  unfolding queue_frame
  queue_frame_full h full = ground arith

  pub queue_frame_room :
      n ≤ 488
      → (queue_of l c).count < 4
      → queue_frame l bit ch_type ch_id msg_type opcode ref_seq status p n c ≡ (ok, after_store)
  unfolding queue_frame
  queue_frame_room h room =
      let short : ltb 488 n ≡ false = ground arith in
      let free : leb 4 (queue_of l c).count ≡ false = ground arith in
      rw (short, free) store_frame_lem

  -- `USBTX_QueueFrame` keeps the invariant of the queues, whether it stores the frame or drops
  -- it.
  pub queue_frame-IsTx :
      IsTx c → IsTx (queue_frame l bit ch_type ch_id msg_type opcode ref_seq status p n c).1
  queue_frame-IsTx v = elim (dec_le n 488) [
    | yes short ↦ elim (dec_lt (queue_of l c).count 4) [
      | yes room ↦ rw (queue_frame_room short room) (after_store-IsTx v room)
      | no full ↦ rw (queue_frame_full short (omega arith)) (drop_frame-IsTx bit c v)
    ]
    | no long ↦ rw (queue_frame_long (omega arith)) (drop_frame-IsTx bit c v)
  ]

pop-IsQueue :
    (q : TxQueue)
    → IsQueue q
    → 0 < q.count
    → IsQueue (record q { head = u8 ((q.head + 1) % 4); count = q.count - 1 })
pop-IsQueue q v h = record {
  depth = v.depth;
  stored = v.stored;
  head_in = omega arith;
  count_in = omega (arith, v.count_in);
  tail_at = omega (arith, v.tail_at, v.head_in);
}

-- `USBTX_PopQueue` keeps the invariant of the queues.
pub pop_queue-IsTx : (l : Lane) (c : TxCtx) → IsTx c → IsTx (pop_queue l c)
unfolding pop_queue
pop_queue-IsTx l c v = elim (Bool-cases ((queue_of l c).count == 0)) [
  | inl e ↦ rw e v
  | inr e ↦
      rw e (
        with_queue-IsTx l _ c v
          (pop-IsQueue (queue_of l c) (queue_of-IsQueue l c v) (ground arith)))
]
