-- ===== src/Usb/Sched/Replies.antt =====
-- What one call of `USBTX_QueueRsp` does to the transmit queues: the response to a request.
use ch32v20x_usb_mux_uart_bl.Prelude.{
  ℕ, ◌≤◌, ◌≡◌, refl, sym, subst, none, ap, ◌∙◌, Bool, true, false, if◌then◌else◌, arith, Ptr, Rc,
  ok, err,
}
use ch32v20x_usb_mux_uart_bl.Proto.{Hdr, Status}
use ch32v20x_usb_mux_uart_bl.Proto.Msg
use ch32v20x_usb_mux_uart_bl.Firmware.{Firmware, kick_usb_tx}
use ch32v20x_usb_mux_uart_bl.Usb.Tx
use ch32v20x_usb_mux_uart_bl.Usb.Tx.{TxCtx, Lane, rsp}
use ch32v20x_usb_mux_uart_bl.Usb.Tx.Invariant.{IsTx}
use ch32v20x_usb_mux_uart_bl.Usb.Sched
use ch32v20x_usb_mux_uart_bl.Usb.Sched.{queue_rsp}

-- The transmit queues after the response to `hdr`.
abbrev pub after_rsp : Hdr → Status → Ptr → ℕ → TxCtx → TxCtx
after_rsp hdr status p n c =
    (Tx.queue_frame rsp 1 hdr.ch_type hdr.ch_id Msg.rsp hdr.opcode hdr.seq status p n c).1

-- The two states differ by one call that queues a response to `hdr`, which fits a frame.
pub record RspCall (hdr : Hdr) (fw fw' : Firmware) : Type 0 where
  pub status : Status
  pub payload : Ptr
  pub len : ℕ
  pub fits : len ≤ 488
  pub nonull : payload ≡ none → len ≡ 0
  pub same : fw'.tx ≡ after_rsp hdr status payload len fw.tx

pub kick_usb_tx-tx : (fw : Firmware) → (kick_usb_tx fw).tx ≡ fw.tx
unfolding kick_usb_tx
kick_usb_tx-tx fw = ground arith

pub kick_usb_tx-uart : (fw : Firmware) → (kick_usb_tx fw).uart ≡ fw.uart
unfolding kick_usb_tx
kick_usb_tx-uart fw = ground arith

-- `USBTX_QueueFrame` wakes the task, and changes nothing but the transmit context besides.
pub sched_queue_frame-tx :
    (l : Lane) (bit ch slot msg opcode ref : ℕ) (s : Status) (p : Ptr) (n : ℕ) (fw : Firmware)
    → (Sched.queue_frame l bit ch slot msg opcode ref s p n fw).1.tx
      ≡ (Tx.queue_frame l bit ch slot msg opcode ref s p n fw.tx).1
unfolding Sched.queue_frame
sched_queue_frame-tx l bit ch slot msg opcode ref s p n fw =
    of (Tx.queue_frame l bit ch slot msg opcode ref s p n fw.tx)
  where
    of :
        (r : Rc × TxCtx)
        → (elim r.0 as (λ _. Rc × Firmware) [
          | ok ↦ (ok, kick_usb_tx (record fw { tx = r.1 }))
          | err ↦ (err, record fw { tx = r.1 })
        ]).1.tx
          ≡ r.1
    of (ok, c) = kick_usb_tx-tx (record fw { tx = c })
    of (err, c) = refl

queue_frame-tx :
    (hdr : Hdr) (status : Status) (p : Ptr) (n : ℕ) (fw : Firmware) (r : Rc × TxCtx)
    → Tx.queue_frame rsp 1 hdr.ch_type hdr.ch_id Msg.rsp hdr.opcode hdr.seq status p n fw.tx ≡ r
    → (queue_rsp hdr status p n fw).1.tx ≡ r.1
unfolding Sched.queue_rsp
queue_frame-tx hdr status p n fw (ok, c) e =
    rw (queue_rsp, Sched.queue_frame, e) (kick_usb_tx-tx (record fw { tx = _ }) ∙ ap (λ r. r.1) e)
queue_frame-tx hdr status p n fw (err, c) e = rw (queue_rsp, Sched.queue_frame, e) (ap (λ r. r.1) e)

pub queue_rsp-RspCall :
    (hdr : Hdr) (status : Status) (p : Ptr) (n : ℕ) (fw : Firmware)
    → n ≤ 488
    → (p ≡ none → n ≡ 0)
    → RspCall hdr fw (queue_rsp hdr status p n fw).1
queue_rsp-RspCall hdr status p n fw fits nonull = record {
  status = status;
  payload = p;
  len = n;
  fits = fits;
  nonull = nonull;
  same = queue_frame-tx hdr status p n fw _ refl;
}

-- Both branches of a test reply.
pub if-RspCall :
    (hdr : Hdr) (fw : Firmware) (b : Bool) (x y : Firmware)
    → RspCall hdr fw x
    → RspCall hdr fw y
    → RspCall hdr fw (if b then x else y)
if-RspCall hdr fw true x y r s = r
if-RspCall hdr fw false x y r s = s

-- Changes elsewhere in the firmware do not matter.
pub RspCall-elsewhere :
    (hdr : Hdr) (fw fw' out : Firmware) → fw'.tx ≡ fw.tx → RspCall hdr fw' out → RspCall hdr fw out
RspCall-elsewhere hdr fw fw' out e r = record {
  status = r.status;
  payload = r.payload;
  len = r.len;
  fits = r.fits;
  nonull = r.nonull;
  same = r.same ∙ ap (after_rsp hdr r.status r.payload r.len) e;
}

-- Events may be queued before the response; the responses and the data that wait are as they were.
pub record Quiet (fw fw' : Firmware) : Type 0 where
  pub rsp_same : fw'.tx.rsp_q ≡ fw.tx.rsp_q
  pub data_same : fw'.tx.data_q ≡ fw.tx.data_q
  pub kept : IsTx fw.tx → IsTx fw'.tx

pub record RspAfter (hdr : Hdr) (fw fw' : Firmware) : Type 0 where
  pub status : Status
  pub payload : Ptr
  pub len : ℕ
  pub fits : len ≤ 488
  pub nonull : payload ≡ none → len ≡ 0
  pub before : Firmware
  pub quiet : Quiet fw before
  pub same : fw'.tx ≡ after_rsp hdr status payload len before.tx

pub Quiet-tx : (fw fw' : Firmware) → fw'.tx ≡ fw.tx → Quiet fw fw'
Quiet-tx fw fw' e = record {
  rsp_same = ap (λ c. c.rsp_q) e;
  data_same = ap (λ c. c.data_q) e;
  kept = subst IsTx (sym e);
}

pub Quiet-trans : (a b c : Firmware) → Quiet a b → Quiet b c → Quiet a c
Quiet-trans a b c q r = record {
  rsp_same = r.rsp_same ∙ q.rsp_same;
  data_same = r.data_same ∙ q.data_same;
  kept = λ v. r.kept (q.kept v);
}

pub RspCall-RspAfter : (hdr : Hdr) (fw fw' : Firmware) → RspCall hdr fw fw' → RspAfter hdr fw fw'
RspCall-RspAfter hdr fw fw' r = record {
  status = r.status;
  payload = r.payload;
  len = r.len;
  fits = r.fits;
  nonull = r.nonull;
  before = fw;
  quiet = Quiet-tx fw fw refl;
  same = r.same;
}

pub RspAfter-Quiet :
    (hdr : Hdr) (fw before fw' : Firmware)
    → Quiet fw before
    → RspCall hdr before fw'
    → RspAfter hdr fw fw'
RspAfter-Quiet hdr fw before fw' q r = record {
  status = r.status;
  payload = r.payload;
  len = r.len;
  fits = r.fits;
  nonull = r.nonull;
  before = before;
  quiet = q;
  same = r.same;
}

pub if-RspAfter :
    (hdr : Hdr) (fw : Firmware) (b : Bool) (x y : Firmware)
    → RspAfter hdr fw x
    → RspAfter hdr fw y
    → RspAfter hdr fw (if b then x else y)
if-RspAfter hdr fw true x y r s = r
if-RspAfter hdr fw false x y r s = s
