-- ===== src/Examples/Tx.antt =====
-- The transmit queues of usb_tx_sched.c and endpoint 2 of usb_dev_ll.c, with one response waiting.
use ch32v20x_usb_mux_uart_bl.Prelude.{
  ℕ, ◌≡◌, ◌≢◌, refl, some, none, List, [], ◌∷◌, arith, replicate, ltb, if◌then◌else◌,
}
use ch32v20x_usb_mux_uart_bl.Fifo
use ch32v20x_usb_mux_uart_bl.Proto.{Status}
use ch32v20x_usb_mux_uart_bl.Usb.Dev
use ch32v20x_usb_mux_uart_bl.Usb.Dev.{UsbDev, send_frame}
use ch32v20x_usb_mux_uart_bl.Usb.Tx
use ch32v20x_usb_mux_uart_bl.Usb.Tx.{
  Frame, TxCtx, rsp, evt, bulk, queue_of, blank_frame, peek_queue, pop_queue,
}
use ch32v20x_usb_mux_uart_bl.Usb.Tx.Content.{transmitted, frame_bytes}
use ch32v20x_usb_mux_uart_bl.Usb.Tx.Invariant.{IsTx, init-IsTx, sent_header, queue_frame-IsTx}
use ch32v20x_usb_mux_uart_bl.Usb.Tx.Refine.{
  waiting, outcome, queue_frame_refines, queue_frame_others,
}
use ch32v20x_usb_mux_uart_bl.Usb.Tx.Release.{peek_queue-pop_queue}

abbrev frame : Frame
frame = record { len = 100; bytes = replicate 512 7 }

-- One response of 100 bytes waits.
abbrev waiting_rsp : TxCtx
waiting_rsp = record Tx.init {
  rsp_q = record {
    slots = blank_frame ∷ frame ∷ blank_frame ∷ blank_frame ∷ [];
    head = 1;
    tail = 2;
    count = 1;
  };
  pending_bitmap = 1;
}

waiting_rsp-IsTx : IsTx waiting_rsp
unfolding Tx.init
waiting_rsp-IsTx = record {
  rsp_ok = record {
    depth = refl;
    stored = (refl, (refl, (refl, (refl, tt))));
    head_in = omega arith;
    count_in = omega arith;
    tail_at = refl;
  };
  evt_ok = init-IsTx.evt_ok;
  data_ok = init-IsTx.data_ok;
  seq_in = omega arith;
  pending_ok = refl;
}

-- The device behind SET_CONFIGURATION.
abbrev configured : UsbDev
configured = record Dev.init { configured = 1 }

head_frame : peek_queue (queue_of rsp waiting_rsp) ≡ some frame
unfolding peek_queue
head_frame = refl

abbrev payload : List ℕ
payload = 1 ∷ 2 ∷ 3 ∷ []

no_null : some payload ≡ none → ◌≡◌ {A = ℕ} 3 0
no_null e = absurd (grind (arith, e))

queue_frame_refines_example :
    let (rc, c') = Tx.queue_frame rsp 1 0 0 2 3 5 Status.ok (some payload) 3 waiting_rsp in
    (rc, waiting rsp c')
    ≡ outcome (waiting rsp waiting_rsp) (
        if ltb 488 3
        then none
        else Fifo.push 4 (waiting rsp waiting_rsp) (
            frame_bytes
              (sent_header rsp 1 0 0 2 3 5 Status.ok (some payload) 3 waiting_rsp)
              (some payload)))
queue_frame_refines_example =
    queue_frame_refines rsp 1 0 0 2 3 5 Status.ok (some payload) 3 waiting_rsp waiting_rsp-IsTx
      no_null

evt_ne_rsp : evt ≢ rsp
evt_ne_rsp e = grind (arith, e)

queue_frame_others_example :
    waiting evt (Tx.queue_frame rsp 1 0 0 2 3 5 Status.ok (some payload) 3 waiting_rsp).1
    ≡ waiting evt waiting_rsp
queue_frame_others_example =
    queue_frame_others rsp 1 0 0 2 3 5 Status.ok (some payload) 3 waiting_rsp waiting_rsp-IsTx
      no_null evt evt_ne_rsp

peek_queue-pop_queue_example :
    waiting rsp waiting_rsp ≡ transmitted frame ∷ waiting rsp (pop_queue rsp waiting_rsp)
peek_queue-pop_queue_example =
    peek_queue-pop_queue rsp waiting_rsp frame waiting_rsp-IsTx head_frame

queue_frame-IsTx_example :
    IsTx (Tx.queue_frame rsp 1 0 0 2 3 5 Status.ok (some payload) 3 waiting_rsp).1
queue_frame-IsTx_example =
    queue_frame-IsTx rsp 1 0 0 2 3 5 Status.ok (some payload) 3 waiting_rsp waiting_rsp-IsTx
