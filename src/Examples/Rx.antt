-- ===== src/Examples/Rx.antt =====
-- The receiver of usb_rx_fsm.c on two frames in a row, with a dispatch that collects the payloads.
use ch32v20x_usb_mux_uart_bl.Prelude.{
  ℕ, zero, suc, ◌≡◌, refl, sym, ap, ◌∙◌, some, List, [], ◌∷◌, ◌++◌, append-nil, arith, length, drop,
  replicate, Ptr, bytes_of, read_bytes, read_bytes_front, IsBytes,
}
use ch32v20x_usb_mux_uart_bl.Proto.{Hdr}
use ch32v20x_usb_mux_uart_bl.Proto.Codec.Roundtrip.{encoded}
use ch32v20x_usb_mux_uart_bl.RingBuffer
use ch32v20x_usb_mux_uart_bl.RingBuffer.Invariant
use ch32v20x_usb_mux_uart_bl.RingBuffer.Refine.{contents}
use ch32v20x_usb_mux_uart_bl.Usb.Rx.{RxCtx, init, process, process_byte}
use ch32v20x_usb_mux_uart_bl.Usb.Rx.Invariant.{IsRx}
use ch32v20x_usb_mux_uart_bl.Usb.Rx.Safety.{process_byte-IsRx}
use ch32v20x_usb_mux_uart_bl.Usb.Rx.Drain.{feed, process-feed}
use ch32v20x_usb_mux_uart_bl.Usb.Rx.Wire.{wire_header, IsReady}
use ch32v20x_usb_mux_uart_bl.Usb.Rx.Delivery.{feed_wrapped, feed-stream, stream, dispatch_all}
use ch32v20x_usb_mux_uart_bl.Examples.Frames.{ping, body, large-IsHdr, ping-IsFrame}

abbrev keep : Hdr → Ptr → ℕ → List ℕ → List ℕ
keep h p n w = w ++ read_bytes (bytes_of p) 0 n

keep-local :
    (h : Hdr) (bs rest : List ℕ) (u : List ℕ)
    → keep h (some (bs ++ rest)) (length bs) u ≡ keep h (some bs) (length bs) u
keep-local h bs rest u =
    ap (λ l. u ++ l)
      (read_bytes_front bs rest
        ∙ sym (ap (λ l. read_bytes l 0 (length bs)) (sym (append-nil bs)) ∙ read_bytes_front bs []))

replicate-IsBytes : (n : ℕ) → IsBytes (replicate n 0)
replicate-IsBytes zero k = omega arith
replicate-IsBytes (suc n) zero = omega arith
replicate-IsBytes (suc n) (suc k) = replicate-IsBytes n k

init-IsReady : IsReady init
unfolding init
init-IsReady = record { at_rest = refl; sized = refl; held = replicate-IsBytes 512 }

init-IsRx : IsRx init
unfolding init
init-IsRx = record { sized = refl; progress = tt }

-- The receiver with four bytes in its ring.
abbrev loaded : RxCtx
loaded = record init {
  raw_rb = record { buf = some (0xa5 ∷ 1 ∷ 2 ∷ 0x5a ∷ 7 ∷ []); size = 5; head = 3; tail = 0 };
}

loaded-IsValid : Invariant.IsValid (loaded.raw_rb)
loaded-IsValid = omega arith

abbrev two_frames : List (Hdr × List ℕ)
two_frames = (encoded (ping 2), body) ∷ (encoded (ping 2), body) ∷ []

feed-stream_example :
    let (c', w') = feed keep (stream two_frames) init [] in
    IsReady c' × (w' ≡ dispatch_all keep two_frames [])
feed-stream_example =
    feed-stream keep two_frames init [] init-IsReady (ping-IsFrame, (ping-IsFrame, tt)) keep-local

feed_wrapped_example :
    let g = encoded (ping 65530) in
    let (c', w') = feed keep (wire_header g) init [] in
    IsReady c' × (w' ≡ keep g (some (drop 24 init.frame_buf)) 65530 [])
feed_wrapped_example = feed_wrapped keep init [] (ping 65530) init-IsReady large-IsHdr (omega arith)

process_byte-IsRx_example : IsRx (process_byte keep 0xa5 init []).0
process_byte-IsRx_example = process_byte-IsRx keep 0xa5 init [] init-IsRx

process-feed_example :
    let (c', w') = process keep loaded [] in
    let (d, u) = feed keep (contents loaded.raw_rb) loaded [] in
    (RingBuffer.count c'.raw_rb ≡ 0)
    × Invariant.IsValid c'.raw_rb
    × (record c' { raw_rb = loaded.raw_rb } ≡ record d { raw_rb = loaded.raw_rb })
    × (w' ≡ u)
process-feed_example = process-feed keep loaded [] loaded-IsValid
