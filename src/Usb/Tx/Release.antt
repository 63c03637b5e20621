-- ===== src/Usb/Tx/Release.antt =====
-- `USBTX_PeekQueue` and `USBTX_PopQueue`: the head of a queue, and the queue without it.
use ch32v20x_usb_mux_uart_bl.Prelude.{
  ℕ, zero, suc, ◌+◌, ◌-◌, ◌%◌, ◌<◌, ◌≡◌, ◌≢◌, refl, sym, ap, ◌∙◌, some, ◌∷◌, arith, length, get_or,
  ◌==◌, u8, map, false, true, dec_lt,
}
use ch32v20x_usb_mux_uart_bl.Prelude.Circular.{next, cells}
use ch32v20x_usb_mux_uart_bl.Usb.Tx.{
  Frame, TxQueue, TxCtx, Lane, queue_of, with_queue, blank_frame, update_pending_bitmap, peek_queue,
  pop_queue,
}
use ch32v20x_usb_mux_uart_bl.Usb.Tx.Content.{transmitted}
use ch32v20x_usb_mux_uart_bl.Usb.Tx.Invariant.{
  IsQueue, IsTx, queue_of-IsQueue, slot-length, update_pending_bitmap-queue_of,
}
use ch32v20x_usb_mux_uart_bl.Usb.Tx.Refine.{
  frames, waiting, queue_of-with_queue, queue_of-with_queue_ne,
}

-- The queue without its oldest frame.
abbrev released : TxQueue → TxQueue
released q = record q { head = u8 ((q.head + 1) % 4); count = q.count - 1 }

peek_queue-head :
    (q : TxQueue) (f : Frame)
    → peek_queue q ≡ some f
    → (0 < q.count) × (get_or q.slots q.head blank_frame ≡ f)
unfolding peek_queue
peek_queue-head q f e = ground arith

frames-released :
    (q : TxQueue)
    → IsQueue q
    → 0 < q.count
    → frames q ≡ get_or q.slots q.head blank_frame ∷ frames (released q)
frames-released q v pos = go q.count refl
  where
    go : (n : ℕ) → q.count ≡ n → frames q ≡ get_or q.slots q.head blank_frame ∷ frames (released q)
    go zero e = absurd (omega arith)
    go (suc n) e =
        let h : next 4 q.head ≡ u8 ((q.head + 1) % 4) = ground (arith, v.head_in) in
        let m : suc n - 1 ≡ n = omega arith in
        rw (e, m) (ap (λ i. get_or q.slots q.head blank_frame ∷ cells blank_frame 4 q.slots i n) h)

pop_queue-queue_of :
    (l : Lane) (c : TxCtx)
    → 0 < (queue_of l c).count
    → pop_queue l c ≡ update_pending_bitmap (with_queue l (released (queue_of l c)) c)
unfolding pop_queue
pop_queue-queue_of l c pos = let e : ((queue_of l c).count == 0) ≡ false = ground arith in rw e

pop_queue-empty : (l : Lane) (c : TxCtx) → (queue_of l c).count ≡ 0 → pop_queue l c ≡ c
unfolding pop_queue
pop_queue-empty l c z = let e : ((queue_of l c).count == 0) ≡ true = ground arith in rw e

waiting-pop_queue :
    (l : Lane) (c : TxCtx)
    → 0 < (queue_of l c).count
    → waiting l (pop_queue l c) ≡ map transmitted (frames (released (queue_of l c)))
waiting-pop_queue l c pos =
    ap (λ k. map transmitted (frames k))
      (ap (queue_of l) (pop_queue-queue_of l c pos)
        ∙ update_pending_bitmap-queue_of (with_queue l (released (queue_of l c)) c) l
        ∙ queue_of-with_queue l (released (queue_of l c)) c)

-- On well-formed queues, what `USBTX_PeekQueue` shows is the oldest frame of the queue, and
-- `USBTX_PopQueue` takes just this frame off.
pub peek_queue-pop_queue :
    (l : Lane) (c : TxCtx) (f : Frame)
    → IsTx c
    → peek_queue (queue_of l c) ≡ some f
    → waiting l c ≡ transmitted f ∷ waiting l (pop_queue l c)
peek_queue-pop_queue l c f v e =
    let q : TxQueue = queue_of l c in
    let p = peek_queue-head q f e in
    ap (map transmitted) (frames-released q (queue_of-IsQueue l c v) p.0)
    ∙ ap (λ g. transmitted g ∷ map transmitted (frames (released q))) p.1
    ∙ ap (λ ws. transmitted f ∷ ws) (sym (waiting-pop_queue l c p.0))

-- The other queues keep their frames.
pub waiting-pop_queue_ne :
    (l m : Lane) (c : TxCtx) → m ≢ l → waiting m (pop_queue l c) ≡ waiting m c
waiting-pop_queue_ne l m c ne = elim (dec_lt 0 (queue_of l c).count) [
  | yes pos ↦
      ap (λ k. map transmitted (frames k))
        (ap (queue_of m) (pop_queue-queue_of l c pos)
          ∙ update_pending_bitmap-queue_of (with_queue l (released (queue_of l c)) c) m
          ∙ queue_of-with_queue_ne l m (released (queue_of l c)) c ne)
  | no none_there ↦
      ap (λ k. map transmitted (frames (queue_of m k))) (pop_queue-empty l c (omega arith))
]

-- A frame that is shown fills a slot.
pub peek_queue-sized :
    (l : Lane) (c : TxCtx) (f : Frame)
    → IsTx c
    → peek_queue (queue_of l c) ≡ some f
    → length f.bytes ≡ 512
peek_queue-sized l c f v e =
    let q : TxQueue = queue_of l c in
    ap (λ g. length (Frame.bytes g)) (sym (peek_queue-head q f e).1)
    ∙ slot-length q.slots q.head (queue_of-IsQueue l c v).stored
