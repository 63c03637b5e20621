-- ===== src/Usb/Tx/Content.antt =====
-- What a stored frame holds: the bytes that the endpoint is given.
use ch32v20x_usb_mux_uart_bl.Prelude.{
  ℕ, ◌+◌, ◌≤◌, ◌≡◌, refl, sym, ap, ◌∙◌, some, none, List, [], ◌++◌, arith, length, take, drop,
  length-append, length-drop, take_append, Ptr, bytes_of, read_bytes, write_bytes,
  length-read_bytes, write_bytes_front, write_bytes_behind, append_assoc, append-nil,
}
use ch32v20x_usb_mux_uart_bl.Proto.{Hdr}
use ch32v20x_usb_mux_uart_bl.Proto.Codec.{serialize_header}
use ch32v20x_usb_mux_uart_bl.Usb.Tx.{Frame, fill_frame}

-- The bytes of a frame that go over the bus.
abbrev pub transmitted : Frame → List ℕ
transmitted f = take f.len f.bytes

-- The header as it is stored, then the payload.
abbrev pub frame_bytes : Hdr → Ptr → List ℕ
frame_bytes h p = serialize_header h h.header_crc16 ++ read_bytes (bytes_of p) 0 h.payload_len

take_of_append : (n : ℕ) (xs ys : List ℕ) → length xs ≡ n → take n (xs ++ ys) ≡ xs
take_of_append n xs ys e = rw (← e) (take_append xs ys)

module _ (old : List ℕ) (h : Hdr) (sized : length old ≡ 512) where
  head : List ℕ
  head = serialize_header h h.header_crc16

  length-head : length head ≡ 24
  unfolding head serialize_header
  length-head = refl

  header_stored : write_bytes old 0 head ≡ head ++ drop 24 old
  header_stored = write_bytes_front old head (omega (arith, length-head, sized)) ∙ rw length-head

  payload_stored :
      (bs : List ℕ)
      → h.payload_len ≤ 488
      → write_bytes (write_bytes old 0 head) 24 (read_bytes bs 0 h.payload_len)
        ≡ (head ++ read_bytes bs 0 h.payload_len) ++ drop h.payload_len (drop 24 old)
  payload_stored bs fits =
      let body : List ℕ = read_bytes bs 0 h.payload_len in
      let n : length body ≡ h.payload_len = length-read_bytes bs 0 h.payload_len in
      let at : write_bytes (head ++ drop 24 old) 24 body
          ≡ head ++ write_bytes (drop 24 old) 0 body =
        rw (length-head) at (write_bytes_behind head (drop 24 old) body) in
      let front : write_bytes (drop 24 old) 0 body ≡ body ++ drop h.payload_len (drop 24 old) =
        write_bytes_front (drop 24 old) body (omega (arith, n, length-drop 24 old, sized)) ∙ rw n in
      ap (λ b. write_bytes b 24 body) header_stored
      ∙ at
      ∙ ap (λ b. head ++ b) front
      ∙ sym (append_assoc head body (drop h.payload_len (drop 24 old)))

  -- A slot that was filled holds the header and the payload, to the last byte.
  pub fill_frame_lem :
      (p : Ptr)
      → h.payload_len ≤ 488
      → h.total_len ≡ 24 + h.payload_len
      → (p ≡ none → h.payload_len ≡ 0)
      → take h.total_len (fill_frame old h p) ≡ frame_bytes h p
  unfolding head
  fill_frame_lem none fits total nonull =
      let z : h.payload_len ≡ 0 = nonull refl in
      ap (take h.total_len) header_stored
      ∙ take_of_append h.total_len head (drop 24 old) (omega (arith, length-head))
      ∙ sym (ap (λ k. head ++ read_bytes [] 0 k) z ∙ append-nil head)
  fill_frame_lem (some bs) fits total nonull = rw (payload_stored bs fits) (
      take_of_append h.total_len (head ++ read_bytes bs 0 h.payload_len)
        (drop h.payload_len (drop 24 old))
        (omega (
          arith,
          length-append head (read_bytes bs 0 h.payload_len),
          length-head,
          length-read_bytes bs 0 h.payload_len,
        )))
