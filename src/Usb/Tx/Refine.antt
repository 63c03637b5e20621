-- ===== src/Usb/Tx/Refine.antt =====
-- The transmit context against its specification: three bounded queues of byte strings, of which
-- `USBTX_QueueFrame` changes one, and the report of the frames that were lost.
use ch32v20x_usb_mux_uart_bl.Prelude.{
  ℕ, suc, ◌+◌, ◌≤◌, ◌<◌, ◌≡◌, ◌≢◌, refl, ap, ◌∙◌, some, none, Option, List, [], ◌∷◌, ◌++◌, arith,
  length, get_or, set, ltb, lt→ltb, false, dec_le, dec_lt, take, if◌then◌else◌, u8, u16, Rc, ok,
  err, Ptr, map,
}
use mathlib.Core.List.{map-append}
use ch32v20x_usb_mux_uart_bl.Prelude.Circular.{cells, length-cells, cells-set}
use ch32v20x_usb_mux_uart_bl.Fifo
use ch32v20x_usb_mux_uart_bl.Proto.{Hdr, Status}
use ch32v20x_usb_mux_uart_bl.Proto.Codec.{encode_header}
use ch32v20x_usb_mux_uart_bl.Usb.Tx.{
  Frame, TxQueue, TxCtx, Lane, rsp, evt, bulk, queue_of, with_queue, blank_frame, drop_frame,
  fill_frame, put_frame, queue_frame,
}
use ch32v20x_usb_mux_uart_bl.Usb.Tx.Content.{transmitted, frame_bytes, fill_frame_lem}
use ch32v20x_usb_mux_uart_bl.Usb.Tx.Invariant.{
  IsQueue, IsTx, queue_of-IsQueue, slot-length, sent_header, after_store,
  update_pending_bitmap-queue_of, queue_frame_long, queue_frame_full, queue_frame_room,
}

-- The frames of a queue, oldest first, as the byte strings that will be sent.
abbrev pub frames : TxQueue → List Frame
frames q = cells blank_frame 4 q.slots q.head q.count

abbrev pub waiting : Lane → TxCtx → List (List ℕ)
waiting l c = map transmitted (frames (queue_of l c))

length-map {ℓ κ} :
    {A : Type ℓ} {B : Type κ} (f : A → B) (xs : List A) → length (map f xs) ≡ length xs
length-map f [] = refl
length-map f (x ∷ xs) = ap suc (length-map f xs)

pub length-waiting : (l : Lane) (c : TxCtx) → length (waiting l c) ≡ (queue_of l c).count
length-waiting l c =
    length-map transmitted (frames (queue_of l c))
    ∙ length-cells blank_frame 4 (queue_of l c).slots (queue_of l c).head (queue_of l c).count

frames-put_frame :
    (h : Hdr) (p : Ptr) (q : TxQueue)
    → IsQueue q
    → q.count < 4
    → frames (put_frame h p q)
      ≡ frames q
        ++ (record {
          len = h.total_len;
          bytes = fill_frame (get_or q.slots q.tail blank_frame).bytes h p;
        }
            ∷ [])
frames-put_frame h p q v room =
    let one : u8 (q.count + 1) ≡ suc q.count = omega arith in
    ap (cells blank_frame 4 (set q.slots q.tail slot) q.head) one
    ∙ cells-set blank_frame 4 q.slots slot q.head q.tail q.count (omega (arith, v.depth)) v.head_in
        (omega (arith, v.tail_at)) (ground (arith, v.tail_at, v.head_in))
  where
    slot : Frame
    slot = record {
      len = h.total_len;
      bytes = fill_frame (get_or q.slots q.tail blank_frame).bytes h p;
    }

pub queue_of-with_queue : (l : Lane) (q : TxQueue) (c : TxCtx) → queue_of l (with_queue l q c) ≡ q
queue_of-with_queue rsp q c = refl
queue_of-with_queue evt q c = refl
queue_of-with_queue bulk q c = refl

pub queue_of-with_queue_ne :
    (l m : Lane) (q : TxQueue) (c : TxCtx) → m ≢ l → queue_of m (with_queue l q c) ≡ queue_of m c
queue_of-with_queue_ne rsp rsp q c h = absurd (h refl)
queue_of-with_queue_ne rsp evt q c h = refl
queue_of-with_queue_ne rsp bulk q c h = refl
queue_of-with_queue_ne evt rsp q c h = refl
queue_of-with_queue_ne evt evt q c h = absurd (h refl)
queue_of-with_queue_ne evt bulk q c h = refl
queue_of-with_queue_ne bulk rsp q c h = refl
queue_of-with_queue_ne bulk evt q c h = refl
queue_of-with_queue_ne bulk bulk q c h = absurd (h refl)

-- What the caller of `Fifo.push` sees, beside the queue.
abbrev pub outcome : List (List ℕ) → Option (List (List ℕ)) → Rc × List (List ℕ)
outcome old none = (err, old)
outcome old (some q) = (ok, q)

waiting-drop_frame : (l : Lane) (bit : ℕ) (c : TxCtx) → waiting l (drop_frame bit c) ≡ waiting l c
waiting-drop_frame rsp bit c = refl
waiting-drop_frame evt bit c = refl
waiting-drop_frame bulk bit c = refl

abbrev next_seq : TxCtx → TxCtx
next_seq c = record c { seq = u16 (c.seq + 1) }

queue_of-next_seq : (l : Lane) (c : TxCtx) → queue_of l (next_seq c) ≡ queue_of l c
queue_of-next_seq rsp c = refl
queue_of-next_seq evt c = refl
queue_of-next_seq bulk c = refl

module _ (l : Lane) (bit ch_type ch_id msg_type opcode ref_seq : ℕ) (status : Status) (p : Ptr)
    (n : ℕ) (c : TxCtx) (v : IsTx c) (nonull : p ≡ none → n ≡ 0) where
  abbrev hdr : Hdr
  hdr = sent_header l bit ch_type ch_id msg_type opcode ref_seq status p n c

  abbrev stored : TxCtx
  stored = after_store l bit ch_type ch_id msg_type opcode ref_seq status p n c

  pub waiting-stored :
      n ≤ 488
      → (queue_of l c).count < 4
      → waiting l stored ≡ waiting l c ++ (frame_bytes hdr p ∷ [])
  unfolding encode_header
  waiting-stored fits room =
      let q : TxQueue = queue_of l c in
      let w = queue_of-IsQueue l c v in
      let old : List ℕ = (get_or q.slots q.tail blank_frame).bytes in
      let bytes : take hdr.total_len (fill_frame old hdr p) ≡ frame_bytes hdr p =
        fill_frame_lem old hdr (slot-length q.slots q.tail w.stored) p fits (omega arith) nonull in
      ap (λ k. map transmitted (frames k))
        (update_pending_bitmap-queue_of (with_queue l (put_frame hdr p q) (next_seq c)) l
          ∙ queue_of-with_queue l (put_frame hdr p q) (next_seq c))
      ∙ ap (map transmitted) (frames-put_frame hdr p q w room)
      ∙ map-append transmitted (frames q) _
      ∙ ap (λ b. waiting l c ++ (b ∷ [])) bytes

  -- On well-formed queues, with a payload that is null only if it is empty, `USBTX_QueueFrame`
  -- refines the push on a bounded queue of four: it refuses a payload of more than 488 bytes
  -- and a full queue, and else appends the encoded header and the payload.
  pub queue_frame_refines :
      let (rc, c') = queue_frame l bit ch_type ch_id msg_type opcode ref_seq status p n c in
      (rc, waiting l c')
      ≡ outcome
          (waiting l c)
          (if ltb 488 n then none else Fifo.push 4 (waiting l c) (frame_bytes hdr p))
  unfolding Fifo.push
  queue_frame_refines = elim (dec_le n 488) [
    | yes short ↦ elim (dec_lt (queue_of l c).count 4) [
      | yes room ↦
          (let s : ltb 488 n ≡ false = ground arith in
            rw
              (
                queue_frame_room l bit ch_type ch_id msg_type opcode ref_seq status p n c short
                    room,
                s,
                length-waiting l c,
                lt→ltb (queue_of l c).count 4 room,
              )
              (ap (λ q. (ok, q)) (waiting-stored short room)))
      | no full ↦
          (let s : ltb 488 n ≡ false = ground arith in
            let f : ltb (queue_of l c).count 4 ≡ false = ground arith in
            rw
              (
                queue_frame_full l bit ch_type ch_id msg_type opcode ref_seq status p n c short
                    (omega arith),
                s,
                length-waiting l c,
                f,
              )
              (ap (λ q. (err, q)) (waiting-drop_frame l bit c)))
    ]
    | no long ↦
        rw
          (
            queue_frame_long l bit ch_type ch_id msg_type opcode ref_seq status p n c (omega arith),
            lt→ltb 488 n (omega arith),
          )
          (ap (λ q. (err, q)) (waiting-drop_frame l bit c))
  ]

  -- On well-formed queues, `USBTX_QueueFrame` leaves the queues other than its own as they are.
  pub queue_frame_others :
      (m : Lane)
      → m ≢ l
      → waiting m (queue_frame l bit ch_type ch_id msg_type opcode ref_seq status p n c).1
        ≡ waiting m c
  queue_frame_others m ne = elim (dec_le n 488) [
    | yes short ↦ elim (dec_lt (queue_of l c).count 4) [
      | yes room ↦
          rw (queue_frame_room l bit ch_type ch_id msg_type opcode ref_seq status p n c short room)
            (ap (λ k. map transmitted (frames k))
              (update_pending_bitmap-queue_of
                  (with_queue l (put_frame hdr p (queue_of l c)) (next_seq c)) m
                ∙ queue_of-with_queue_ne l m (put_frame hdr p (queue_of l c)) (next_seq c) ne
                ∙ queue_of-next_seq m c))
      | no full ↦
          rw
            (queue_frame_full l bit ch_type ch_id msg_type opcode ref_seq status p n c short
              (omega arith))
            (waiting-drop_frame m bit c)
    ]
    | no long ↦
        rw (queue_frame_long l bit ch_type ch_id msg_type opcode ref_seq status p n c (omega arith))
          (waiting-drop_frame m bit c)
  ]
