-- ===== src/AppLog/Bounds.antt =====
-- The log ring: its indices stay in the buffer, and the chunks that are written out are the bytes
-- that were put in, in order.
use ch32v20x_usb_mux_uart_bl.Prelude.{
  ℕ, zero, suc, ◌+◌, ◌-◌, ◌≤◌, ◌<◌, ◌≡◌, sym, ap, ◌∙◌, List, [], ◌∷◌, ◌++◌, arith, length, get_or,
  u16, read_bytes, length-read_bytes, leb, lt→ltb, if◌then◌else◌, dec_lt,
}
use ch32v20x_usb_mux_uart_bl.Prelude.Circular.{next, dist, cells, length-cells}
use ch32v20x_usb_mux_uart_bl.AppLog.{LogCtx, contiguous_len, advance_tail, process}

pub record IsLog (c : LogCtx) : Type 0 where
  pub sized : length c.buf ≡ 2048
  pub head_in : c.head < 2048
  pub tail_in : c.tail < 2048

-- The bytes that wait to be written out, oldest first.
abbrev pub waiting : LogCtx → List ℕ
waiting c = cells 0 2048 c.buf c.tail (dist 2048 c.tail c.head)

abbrev wrap : ℕ → ℕ
wrap k = if leb 2048 k then 0 else k

-- Cells up to the end of the buffer are a block.
cells-straight :
    (buf : List ℕ) (i m n : ℕ)
    → i < 2048
    → i + m ≤ 2048
    → cells 0 2048 buf i (m + n) ≡ read_bytes buf i m ++ cells 0 2048 buf (wrap (i + m)) n
cells-straight buf i zero n hi h =
    let a : zero + n ≡ n = omega arith in let b : wrap (i + 0) ≡ i = ground arith in rw (a, b)
cells-straight buf i (suc zero) n hi h = let a : suc zero + n ≡ suc n = omega arith in rw a
cells-straight buf i (suc (suc m)) n hi h =
    let a : suc (suc m) + n ≡ suc (suc m + n) = omega arith in
    let b : next 2048 i ≡ i + 1 = ground arith in
    let d : i + 1 + suc m ≡ i + suc (suc m) = omega arith in
    rw (a, b)
      (ap (λ l. get_or buf i 0 ∷ l)
        (cells-straight buf (i + 1) (suc m) n (omega arith) (omega arith)
          ∙ ap (λ k. read_bytes buf (i + 1) (suc m) ++ cells 0 2048 buf (wrap k) n) d))

dist-wrap :
    (t h len : ℕ)
    → t < 2048
    → h < 2048
    → t + len ≤ 2048
    → len ≤ dist 2048 t h
    → dist 2048 (wrap (t + len)) h ≡ dist 2048 t h - len
dist-wrap t h len ht hh a b = ground arith

module _ (c : LogCtx) (v : IsLog c) where
  contiguous_len-bound :
      (contiguous_len c ≤ 96)
      × (c.tail + contiguous_len c ≤ 2048)
      × (contiguous_len c ≤ dist 2048 c.tail c.head)
  unfolding contiguous_len
  contiguous_len-bound = ground (arith, v.head_in, v.tail_in)

  contiguous_len-pos : 0 < dist 2048 c.tail c.head → 0 < contiguous_len c
  unfolding contiguous_len
  contiguous_len-pos h = ground (arith, v.head_in, v.tail_in)

  advance_tail_lem :
      (len : ℕ) → c.tail + len ≤ 2048 → advance_tail len c ≡ record c { tail = wrap (c.tail + len) }
  unfolding advance_tail
  advance_tail_lem len h =
      let e : u16 (c.tail + len) ≡ c.tail + len = omega arith in
      rw e (ap (λ t. record c { tail = t }) (ground (arith, v.tail_in)))

  process_chunk : process c ≡ (
    read_bytes c.buf c.tail (contiguous_len c),
    record c { tail = wrap (c.tail + contiguous_len c) },
  )
  unfolding process
  process_chunk = elim (dec_lt 0 (contiguous_len c)) [
    | yes pos ↦ rw (lt→ltb 0 (contiguous_len c) pos) (
        ap (λ d. (read_bytes c.buf c.tail (contiguous_len c), d))
          (advance_tail_lem (contiguous_len c) contiguous_len-bound.1))
    | no none_left ↦
        (let z : contiguous_len c ≡ 0 = omega arith in
          let t : wrap (c.tail + 0) ≡ c.tail = ground (arith, v.tail_in) in
          rw z (ap (λ k. ([], record c { tail = k })) (sym t)))
  ]

  -- With both indices in the buffer, `AppLog_Process` writes out a chunk of at most 96 bytes
  -- off the front of the bytes that wait, and it writes something if anything waits; the other
  -- bytes go on waiting, in order, and the indices stay in the buffer.
  pub process-waiting :
      (let (chunk, c') = process c in
        (waiting c ≡ chunk ++ waiting c')
        × IsLog c'
        × (length chunk ≤ 96)
        × (0 < length (waiting c) → 0 < length chunk))
  process-waiting =
      let len : ℕ = contiguous_len c in
      let b = contiguous_len-bound in
      let rest : ℕ = dist 2048 c.tail c.head - len in
      let sum : dist 2048 c.tail c.head ≡ len + rest = omega (arith, b.2) in
      let left : dist 2048 (wrap (c.tail + len)) c.head ≡ rest =
        dist-wrap c.tail c.head len v.tail_in v.head_in b.1 b.2 in
      let n = length-read_bytes c.buf c.tail len in
      rw process_chunk (
        ap (cells 0 2048 c.buf c.tail) sum
            ∙ cells-straight c.buf c.tail len rest v.tail_in b.1
            ∙ ap (λ k. read_bytes c.buf c.tail len ++ cells 0 2048 c.buf (wrap (c.tail + len)) k)
                (sym left),
        record { sized = v.sized; head_in = v.head_in; tail_in = ground (arith, v.tail_in, b.1) },
        omega (arith, n, b.0),
        λ pos. omega (
          arith,
          n,
          contiguous_len-pos
              (omega (arith, length-cells 0 2048 c.buf c.tail (dist 2048 c.tail c.head))),
        ),
      )
