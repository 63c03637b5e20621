-- ===== src/Usb/Sched/Delivered.antt =====
-- Where the response to a request ends up: in the queue of responses of usb_tx_sched.c, or lost and
-- noted in `dropped_bitmap`.
use ch32v20x_usb_mux_uart_bl.Prelude.{
  ℕ, ◌+◌, ◌≤◌, ◌<◌, ◌≡◌, refl, ap, ◌∙◌, none, List, [], ◌∷◌, ◌++◌, arith, length, dec_lt, bit_or,
  Ptr, subst, map,
}
use ch32v20x_usb_mux_uart_bl.Proto.{Hdr, Status}
use ch32v20x_usb_mux_uart_bl.Proto.Msg
use ch32v20x_usb_mux_uart_bl.Proto.Codec.{encode_header}
use ch32v20x_usb_mux_uart_bl.Firmware.{Firmware}
use ch32v20x_usb_mux_uart_bl.Usb.Tx.{TxCtx, rsp, evt, bulk}
use ch32v20x_usb_mux_uart_bl.Usb.Tx.Content.{frame_bytes, transmitted}
use ch32v20x_usb_mux_uart_bl.Usb.Tx.Invariant.{
  IsTx, sent_header, queue_frame_full, queue_frame_room,
}
use ch32v20x_usb_mux_uart_bl.Usb.Tx.Refine.{
  frames, waiting, length-waiting, waiting-stored, queue_frame_others,
}
use ch32v20x_usb_mux_uart_bl.Usb.Sched.Replies.{after_rsp, RspCall, RspAfter}

-- The bytes of a response to `req`: a header of the type RSP with the channel, the opcode and the
-- sequence number of the request, and a payload that fits a frame.
pub record IsResponse (req : Hdr) (bytes : List ℕ) : Type 0 where
  pub hdr : Hdr
  pub payload : Ptr
  pub encoded : bytes ≡ frame_bytes hdr payload
  pub total : hdr.total_len ≡ 24 + hdr.payload_len
  pub fits : hdr.payload_len ≤ 488
  pub type_rsp : hdr.msg_type ≡ 2
  pub channel : hdr.ch_type ≡ req.ch_type
  pub port : hdr.ch_id ≡ req.ch_id
  pub operation : hdr.opcode ≡ req.opcode
  pub refers : hdr.ref_seq ≡ req.seq

-- What becomes of one frame for a queue of four: it is the last one of the queue, or the queue is as
-- it was and full, and the bit of lost responses is set for the next hint.
pub data Enqueued (frame : List ℕ) (old new : List (List ℕ)) (dropped dirty : ℕ) : Type 0 where
  stored : length old < 4 → new ≡ old ++ (frame ∷ []) → Enqueued frame old new dropped dirty
  lost :
      (before : ℕ)
      → length old ≡ 4
      → new ≡ old
      → dropped ≡ bit_or before 1
      → dirty ≡ 1
      → Enqueued frame old new dropped dirty

-- One response to `req`, behind those that wait; the data that wait are as they were.
pub record Answered (req : Hdr) (c c' : TxCtx) : Type 0 where
  pub frame : List ℕ
  pub response : IsResponse req frame
  pub queued : Enqueued frame (waiting rsp c) (waiting rsp c') c'.dropped_bitmap c'.hint_dirty
  pub data_same : waiting bulk c' ≡ waiting bulk c

-- The same, and no event is queued either.
pub record Replied (req : Hdr) (c c' : TxCtx) : Type 0 where
  pub answered : Answered req c c'
  pub events_same : waiting evt c' ≡ waiting evt c

module _ (req : Hdr) (status : Status) (p : Ptr) (n : ℕ) (c : TxCtx) (fits : n ≤ 488) where
  abbrev sent : Hdr
  sent = sent_header rsp 1 req.ch_type req.ch_id Msg.rsp req.opcode req.seq status p n c

  sent-IsResponse : IsResponse req (frame_bytes sent p)
  unfolding encode_header
  sent-IsResponse = record {
    hdr = sent;
    payload = p;
    encoded = refl;
    total = omega (arith, fits);
    fits = fits;
    type_rsp = refl;
    channel = refl;
    port = refl;
    operation = refl;
    refers = refl;
  }

  after_rsp-Enqueued :
      IsTx c
      → (p ≡ none → n ≡ 0)
      → (let c' = after_rsp req status p n c in
          Enqueued
            (frame_bytes sent p)
            (waiting rsp c)
            (waiting rsp c')
            c'.dropped_bitmap
            c'.hint_dirty)
  after_rsp-Enqueued v nonull = elim (dec_lt c.rsp_q.count 4) [
    | yes room ↦ stored (omega (arith, room, length-waiting rsp c)) (
        ap (λ r. waiting rsp r.1)
          (queue_frame_room rsp 1 req.ch_type req.ch_id Msg.rsp req.opcode req.seq status p n c fits
            room)
        ∙ waiting-stored rsp 1 req.ch_type req.ch_id Msg.rsp req.opcode req.seq status p n c v
            nonull fits room)
    | no full ↦
        (let e =
            queue_frame_full rsp 1 req.ch_type req.ch_id Msg.rsp req.opcode req.seq status p n c
              fits (omega (arith, full)) in
          lost c.dropped_bitmap (omega (arith, full, v.rsp_ok.count_in, length-waiting rsp c))
            (ap (λ r. waiting rsp r.1) e) (ap (λ r. r.1.dropped_bitmap) e)
            (ap (λ r. r.1.hint_dirty) e))
  ]

  after_rsp-others :
      IsTx c
      → (p ≡ none → n ≡ 0)
      → (waiting bulk (after_rsp req status p n c) ≡ waiting bulk c)
        × (waiting evt (after_rsp req status p n c) ≡ waiting evt c)
  after_rsp-others v nonull =
      let others =
        queue_frame_others rsp 1 req.ch_type req.ch_id Msg.rsp req.opcode req.seq status p n c v
          nonull in
      (others bulk (λ e. cc), others evt (λ e. cc))

  after_rsp-Answered : IsTx c → (p ≡ none → n ≡ 0) → Answered req c (after_rsp req status p n c)
  after_rsp-Answered v nonull = record {
    frame = frame_bytes sent p;
    response = sent-IsResponse;
    queued = after_rsp-Enqueued v nonull;
    data_same = (after_rsp-others v nonull).0;
  }

pub RspCall-Replied :
    (req : Hdr) (fw fw' : Firmware) → IsTx fw.tx → RspCall req fw fw' → Replied req fw.tx fw'.tx
RspCall-Replied req fw fw' v r = rw (r.same) record {
  answered = after_rsp-Answered req r.status r.payload r.len fw.tx r.fits v r.nonull;
  events_same = (after_rsp-others req r.status r.payload r.len fw.tx r.fits v r.nonull).1;
}

-- The queues of responses and data do not see what was done between.
Answered-before :
    (req : Hdr) (c b c' : TxCtx)
    → b.rsp_q ≡ c.rsp_q
    → b.data_q ≡ c.data_q
    → Answered req b c'
    → Answered req c c'
Answered-before req c b c' er ed a = record {
  frame = a.frame;
  response = a.response;
  queued =
      subst (λ w. Enqueued a.frame w (waiting rsp c') c'.dropped_bitmap c'.hint_dirty)
        (ap (λ q. map transmitted (frames q)) er) a.queued;
  data_same = a.data_same ∙ ap (λ q. map transmitted (frames q)) ed;
}

pub RspAfter-Answered :
    (req : Hdr) (fw fw' : Firmware) → IsTx fw.tx → RspAfter req fw fw' → Answered req fw.tx fw'.tx
RspAfter-Answered req fw fw' v r = rw (r.same) (
    Answered-before req fw.tx r.before.tx _ r.quiet.rsp_same r.quiet.data_same (
      after_rsp-Answered req r.status r.payload r.len r.before.tx r.fits (r.quiet.kept v) r.nonull))
