-- ===== src/Usb/Dev/Stream.antt =====
-- A frame goes over endpoint 2 in chunks: the host's IN tokens take it to the last byte.
use ch32v20x_usb_mux_uart_bl.Prelude.{
  ℕ, zero, suc, ◌+◌, ◌-◌, ◌*◌, ◌≤◌, ◌<◌, ◌≡◌, refl, sym, ap, ◌∙◌, true, false, some, List, [], ◌++◌,
  arith, length, take, if◌then◌else◌, ltb, ◌==◌, ok, read_bytes, write_bytes, length-read_bytes,
  length-write_bytes, read_bytes_front, read_bytes-add, take-write_bytes, write_bytes_front, drop,
  dec_lt, append-nil, u16,
}
use ch32v20x_usb_mux_uart_bl.Usb.Dev.{
  UsbDev, can_send_frame, load_ep2_chunk, send_frame, ep2_in_done,
}

-- What the controller sends on the next IN token of endpoint 2.
abbrev pub ep2_packet : UsbDev → List ℕ
ep2_packet d = take d.uep2_tx_len d.ep2_dma

-- At most `n` IN tokens: each takes a packet, and the firmware loads the next or stops.
pub serve_in : ℕ → UsbDev → List ℕ × UsbDev
serve_in zero d = ([], d)
serve_in (suc n) d =
    let (done, d') = ep2_in_done d in
    let (bs, d'') = serve_in n d' in if done then (ep2_packet d, d') else (ep2_packet d ++ bs, d'')

-- The buffers have their sizes, and the offset lies in the frame.
record IsStreaming (d : UsbDev) : Type 0 where
  staged : length d.ep2_tx_stage ≡ 512
  buffer : length d.ep2_dma ≡ 64
  len_in : d.ep2_tx_len ≤ 512
  offset_in : d.ep2_tx_offset ≤ d.ep2_tx_len

module _ (d : UsbDev) (v : IsStreaming d) where
  -- The length of the next chunk.
  abbrev step : ℕ
  step = if ltb 64 (d.ep2_tx_len - d.ep2_tx_offset) then 64 else d.ep2_tx_len - d.ep2_tx_offset

  load-IsStreaming : IsStreaming (load_ep2_chunk d)
  unfolding load_ep2_chunk
  load-IsStreaming = record {
    staged = v.staged;
    buffer = length-write_bytes d.ep2_dma 0 _ ∙ v.buffer;
    len_in = v.len_in;
    offset_in = ground (arith, v.len_in, v.offset_in);
  }

  load-packet :
      (ep2_packet (load_ep2_chunk d) ≡ read_bytes d.ep2_tx_stage d.ep2_tx_offset step)
      × ((load_ep2_chunk d).ep2_tx_offset ≡ d.ep2_tx_offset + step)
  unfolding load_ep2_chunk
  load-packet =
      let e : u16 (d.ep2_tx_len + 65536 - d.ep2_tx_offset) ≡ d.ep2_tx_len - d.ep2_tx_offset =
        omega (arith, v.len_in, v.offset_in) in
      let s : step ≤ 64 = ground arith in
      let t : step ≤ d.ep2_tx_len - d.ep2_tx_offset = ground arith in
      (
        rw e (
            take-write_bytes d.ep2_dma (read_bytes d.ep2_tx_stage d.ep2_tx_offset step) step
              (length-read_bytes d.ep2_tx_stage d.ep2_tx_offset step) (omega (arith, v.buffer, s))),
        rw e (omega (arith, s, t, v.len_in, v.offset_in)),
      )

in_done_last : (d : UsbDev) → d.ep2_tx_len ≤ d.ep2_tx_offset → (ep2_in_done d).0 ≡ true
unfolding ep2_in_done
in_done_last d h = ground arith

in_done_idle : (d : UsbDev) → d.ep2_tx_len ≤ d.ep2_tx_offset → (ep2_in_done d).1.ep2_tx_active ≡ 0
unfolding ep2_in_done
in_done_idle d h = ground arith

in_done_more :
    (d : UsbDev) → d.ep2_tx_offset < d.ep2_tx_len → ep2_in_done d ≡ (false, load_ep2_chunk d)
unfolding ep2_in_done
in_done_more d h = ground arith

record Served (d : UsbDev) (out : List ℕ × UsbDev) : Type 0 where
  idle : out.1.ep2_tx_active ≡ 0
  all_sent :
      out.0
      ≡ ep2_packet d ++ read_bytes d.ep2_tx_stage d.ep2_tx_offset (d.ep2_tx_len - d.ep2_tx_offset)

serve_last : (n : ℕ) (d : UsbDev) → d.ep2_tx_len ≤ d.ep2_tx_offset → Served d (serve_in (suc n) d)
unfolding serve_in
serve_last n d h =
    let z : d.ep2_tx_len - d.ep2_tx_offset ≡ 0 = omega arith in
    rw (in_done_last d h) record { idle = in_done_idle d h; all_sent = rw (z, append-nil) }

stage-load : (d : UsbDev) → (load_ep2_chunk d).ep2_tx_stage ≡ d.ep2_tx_stage
unfolding load_ep2_chunk
stage-load d = refl

len-load : (d : UsbDev) → (load_ep2_chunk d).ep2_tx_len ≡ d.ep2_tx_len
unfolding load_ep2_chunk
len-load d = refl

-- The chunk that is loaded next, and what follows it, are what is left of the frame.
chunk_then_rest :
    (d : UsbDev) (v : IsStreaming d)
    → (let d' = load_ep2_chunk d in
        ep2_packet d'
          ++ read_bytes d'.ep2_tx_stage d'.ep2_tx_offset (d'.ep2_tx_len - d'.ep2_tx_offset)
        ≡ read_bytes d.ep2_tx_stage d.ep2_tx_offset (d.ep2_tx_len - d.ep2_tx_offset))
chunk_then_rest d v =
    let p = load-packet d v in
    let s : step d v ≤ d.ep2_tx_len - d.ep2_tx_offset = ground arith in
    let len : d.ep2_tx_len - (d.ep2_tx_offset + step d v)
        ≡ d.ep2_tx_len - d.ep2_tx_offset - step d v =
      omega arith in
    let sum : step d v + (d.ep2_tx_len - d.ep2_tx_offset - step d v)
        ≡ d.ep2_tx_len - d.ep2_tx_offset =
      omega (arith, s) in
    rw (stage-load d, len-load d, p.0, p.1, len)
      (sym (read_bytes-add d.ep2_tx_stage d.ep2_tx_offset (step d v) _)
        ∙ ap (read_bytes d.ep2_tx_stage d.ep2_tx_offset) sum)

serve_more :
    (n : ℕ) (d : UsbDev)
    → IsStreaming d
    → d.ep2_tx_offset < d.ep2_tx_len
    → Served (load_ep2_chunk d) (serve_in n (load_ep2_chunk d))
    → Served d (serve_in (suc n) d)
unfolding serve_in
serve_more n d v h rest = rw (in_done_more d h) record {
  idle = rest.idle;
  all_sent = ap (λ l. ep2_packet d ++ l) (rest.all_sent ∙ chunk_then_rest d v);
}

serve_in-Served :
    (n : ℕ) (d : UsbDev)
    → IsStreaming d
    → d.ep2_tx_len - d.ep2_tx_offset + 64 ≤ 64 * n
    → Served d (serve_in n d)
serve_in-Served zero d v h = absurd (omega arith)
serve_in-Served (suc n) d v h = elim (dec_lt d.ep2_tx_offset d.ep2_tx_len) [
  | yes more ↦ serve_more n d v more (
      serve_in-Served n (load_ep2_chunk d) (load-IsStreaming d v)
        (let p = load-packet d v in rw (len-load d, p.1) (ground (arith, v.offset_in))))
  | no last ↦ serve_last n d (omega arith)
]

-- The context of a frame that was accepted, before its first chunk is loaded.
abbrev staged_frame : List ℕ → ℕ → UsbDev → UsbDev
staged_frame bytes len d = record d {
  ep2_tx_stage = write_bytes d.ep2_tx_stage 0 (read_bytes bytes 0 len);
  ep2_tx_len = len;
  ep2_tx_offset = 0;
  ep2_tx_active = 1;
}

pub send_frame_ok :
    (d : UsbDev) (bytes : List ℕ) (len : ℕ)
    → 0 < len
    → len ≤ 512
    → can_send_frame d ≡ true
    → send_frame (some bytes) len d ≡ (ok, load_ep2_chunk (staged_frame bytes len d))
unfolding send_frame
send_frame_ok d bytes len pos fits free =
    let a : (len == 0) ≡ false = ground arith in
    let b : ltb 512 len ≡ false = ground arith in rw (a, b, free)

staged_bytes :
    (stage bytes : List ℕ) (len : ℕ)
    → len ≤ length stage
    → read_bytes (write_bytes stage 0 (read_bytes bytes 0 len)) 0 len ≡ read_bytes bytes 0 len
staged_bytes stage bytes len h =
    let xs : List ℕ = read_bytes bytes 0 len in
    let n : length xs ≡ len = length-read_bytes bytes 0 len in
    ap (λ b. read_bytes b 0 len) (write_bytes_front stage xs (omega (arith, n)))
    ∙ ap (read_bytes (xs ++ drop (length xs) stage) 0) (sym n)
    ∙ read_bytes_front xs (drop (length xs) stage)

serve_load :
    (n : ℕ) (d : UsbDev)
    → IsStreaming d
    → d.ep2_tx_len + 64 ≤ 64 * n
    → (let (sent, d') = serve_in n (load_ep2_chunk d) in
        (sent ≡ read_bytes d.ep2_tx_stage d.ep2_tx_offset (d.ep2_tx_len - d.ep2_tx_offset))
        × (d'.ep2_tx_active ≡ 0))
serve_load n d v h =
    let p = load-packet d v in
    let s : step d v ≤ d.ep2_tx_len - d.ep2_tx_offset = ground arith in
    let w : Served (load_ep2_chunk d) (serve_in n (load_ep2_chunk d)) =
      serve_in-Served n (load_ep2_chunk d) (load-IsStreaming d v)
        (rw (len-load d, p.1) (omega (arith, s))) in
    (w.all_sent ∙ chunk_then_rest d v, w.idle)

-- With the device configured, endpoint 2 free and the buffers of their sizes, `USBDEV_SendFrame`
-- accepts a frame of 1 to 512 bytes, and it is sent whole and in order: nine IN tokens at most
-- take exactly its bytes and leave the endpoint free for the next.
pub serve_in-send_frame :
    (d : UsbDev) (bytes : List ℕ) (len : ℕ)
    → length d.ep2_tx_stage ≡ 512
    → length d.ep2_dma ≡ 64
    → 0 < len
    → len ≤ 512
    → can_send_frame d ≡ true
    → let (rc, d') = send_frame (some bytes) len d in
      let (sent, d'') = serve_in 9 d' in
      (rc ≡ ok) × (sent ≡ read_bytes bytes 0 len) × (d''.ep2_tx_active ≡ 0)
serve_in-send_frame d bytes len hs hb pos fits free =
    let w = serve_load 9 (staged_frame bytes len d) streaming (omega arith) in
    let z : len - 0 ≡ len = omega arith in
    rw (send_frame_ok d bytes len pos fits free) (
      refl,
      w.0
          ∙ ap (read_bytes (staged_frame bytes len d).ep2_tx_stage 0) z
          ∙ staged_bytes d.ep2_tx_stage bytes len (omega arith),
      w.1,
    )
  where
    streaming : IsStreaming (staged_frame bytes len d)
    streaming = record {
      staged = length-write_bytes d.ep2_tx_stage 0 (read_bytes bytes 0 len) ∙ hs;
      buffer = hb;
      len_in = fits;
      offset_in = omega arith;
    }
