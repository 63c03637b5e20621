-- ===== src/RingBuffer/Transfer.antt =====
-- `RingBuffer_Write` and `RingBuffer_Read`: how many bytes they move, and which.
use ch32v20x_usb_mux_uart_bl.Prelude.{
  ℕ, zero, suc, ◌+◌, ◌-◌, ◌≡◌, ◌<◌, refl, ap, ◌∙◌, some, none, List, [], ◌∷◌, ◌++◌, arith, min,
  take, drop, get_or, read_bytes, append-nil, append_assoc, dec_lt,
}
use ch32v20x_usb_mux_uart_bl.RingBuffer.{
  RingBuffer, storage, count, space, write_loop, write, read_loop, read,
}
use ch32v20x_usb_mux_uart_bl.RingBuffer.Invariant.{
  IsValid, count-lt-size, space-add-count, push_byte-IsValid, pop_byte-IsValid,
}
use ch32v20x_usb_mux_uart_bl.RingBuffer.Refine.{
  contents, capacity, push_byte-ok, push_byte-full, pop_byte-ok, pop_byte-empty, after_push,
  after_pop, contents-after_push, contents-after_pop, count-after_push,
}

-- What the loop of `write` has done, started at `rb` with `i` bytes written and `n` to go.
record Wrote (bytes : List ℕ) (n i : ℕ) (rb : RingBuffer) (out : ℕ × RingBuffer) : Type 0 where
  valid : IsValid out.1
  sized : out.1.size ≡ rb.size
  counted : out.0 ≡ i + min n (capacity rb - count rb)
  held : contents out.1 ≡ contents rb ++ read_bytes bytes i (min n (capacity rb - count rb))

-- A ring takes a first byte `x` when it has room for `m` more behind it.
read_bytes-min-suc :
    (bytes : List ℕ) (i n k : ℕ)
    → 0 < k
    → read_bytes bytes i (min (suc n) k)
      ≡ get_or bytes i 0 ∷ read_bytes bytes (i + 1) (min n (k - 1))
read_bytes-min-suc bytes i n k h = let e : min (suc n) k ≡ suc (min n (k - 1)) = omega arith in rw e

module _ (bytes : List ℕ) (n i : ℕ) (rb : RingBuffer) (v : IsValid rb) where
  write_loop_room :
      count rb + 1 < rb.size
      → write_loop bytes (suc n) i rb
        ≡ write_loop bytes n (i + 1) (after_push rb v (get_or bytes i 0))
  unfolding write_loop
  write_loop_room h = ground (arith, push_byte-ok rb v (get_or bytes i 0) h)

  write_loop_full : count rb + 1 ≡ rb.size → write_loop bytes (suc n) i rb ≡ (i, rb)
  unfolding write_loop
  write_loop_full h = ground (arith, push_byte-full rb v (get_or bytes i 0) h)

  after_push-IsValid : count rb + 1 < rb.size → IsValid (after_push rb v (get_or bytes i 0))
  after_push-IsValid h =
      rw (push_byte-ok rb v (get_or bytes i 0) h) at (push_byte-IsValid (get_or bytes i 0) v)

write_loop-Wrote :
    (bytes : List ℕ) (n i : ℕ) (rb : RingBuffer)
    → IsValid rb
    → Wrote bytes n i rb (write_loop bytes n i rb)
write_loop-Wrote bytes zero i rb v =
    unfold write_loop in
    record {
      valid = v;
      sized = refl;
      counted = omega arith;
      held = let e : min 0 (capacity rb - count rb) ≡ 0 = omega arith in rw (e, append-nil);
    }
write_loop-Wrote bytes (suc n) i rb v = elim (dec_lt (count rb + 1) rb.size) [
  | yes room ↦
      (let x : ℕ = get_or bytes i 0 in
        let w =
          write_loop-Wrote bytes n (i + 1) (after_push rb v x)
            (after_push-IsValid bytes n i rb v room) in
        rw (write_loop_room bytes n i rb v room) record {
          valid = w.valid;
          sized = w.sized;
          counted = omega (arith, w.counted, count-after_push rb v x room);
          held =
              w.held
              ∙ rw
                  (
                    contents-after_push rb v x room,
                    count-after_push rb v x room,
                    read_bytes-min-suc bytes i n (capacity rb - count rb) (omega arith),
                    append_assoc,
                  )
                  (ap (λ k. contents rb ++ x ∷ read_bytes bytes (i + 1) (min n k)) (omega arith));
        })
  | no full ↦
      (let e : count rb + 1 ≡ rb.size = omega (arith, count-lt-size rb v) in
        rw (write_loop_full bytes n i rb v e) record {
          valid = v;
          sized = refl;
          counted = omega arith;
          held =
              let e' : min (suc n) (capacity rb - count rb) ≡ 0 = omega arith in
              rw (e', append-nil);
        })
]

module _ (rb : RingBuffer) (v : IsValid rb) where
  -- On a valid ring, `RingBuffer_Write` takes as many bytes as there is room for, from the
  -- front of the data, and appends exactly these; the ring stays valid.
  pub write_lem :
      (bytes : List ℕ) (len : ℕ)
      → let (n, rb') = write rb (some bytes) len in
        (n ≡ min len (space rb))
        × (contents rb' ≡ contents rb ++ read_bytes bytes 0 n)
        × IsValid rb'
        × (rb'.size ≡ rb.size)
  unfolding write
  write_lem bytes len =
      let w = write_loop-Wrote bytes len 0 rb v in
      let n : (write_loop bytes len 0 rb).0 ≡ min len (capacity rb - count rb) =
        omega (arith, w.counted) in
      (omega (arith, n, space-add-count rb v), rw n w.held, w.valid, w.sized)

  pub write_null : (len : ℕ) → write rb none len ≡ (0, rb)
  unfolding write
  write_null len = refl

-- What the loop of `read` has done, with `n` bytes asked for.
record Took (n : ℕ) (rb : RingBuffer) (out : List ℕ × RingBuffer) : Type 0 where
  valid : IsValid out.1
  sized : out.1.size ≡ rb.size
  given : out.0 ≡ take n (contents rb)
  held : contents out.1 ≡ drop n (contents rb)

module _ (n k : ℕ) (rb : RingBuffer) (v : IsValid rb) where
  read_loop_some :
      count rb ≡ suc k
      → let (bs, rb') = read_loop n (after_pop rb v) in
        read_loop (suc n) rb ≡ (get_or (storage rb) rb.tail 0 ∷ bs, rb')
  unfolding read_loop
  read_loop_some h = ground (arith, pop_byte-ok rb v k h)

  read_loop_none : count rb ≡ 0 → read_loop (suc n) rb ≡ ([], rb)
  unfolding read_loop
  read_loop_none h = ground (arith, pop_byte-empty rb v h)

  after_pop-IsValid : count rb ≡ suc k → IsValid (after_pop rb v)
  after_pop-IsValid h = rw (pop_byte-ok rb v k h) at (pop_byte-IsValid v)

read_loop-Took : (n : ℕ) (rb : RingBuffer) → IsValid rb → Took n rb (read_loop n rb)
read_loop-Took zero rb v =
    unfold read_loop in record { valid = v; sized = refl; given = refl; held = refl }
read_loop-Took (suc n) rb v =
    go (count rb) refl (λ k e. read_loop-Took n (after_pop rb v) (after_pop-IsValid n k rb v e))
  where
    go :
        (c : ℕ)
        → count rb ≡ c
        → ((k : ℕ) → count rb ≡ suc k → Took n (after_pop rb v) (read_loop n (after_pop rb v)))
        → Took (suc n) rb (read_loop (suc n) rb)
    go zero e ih =
        rw (read_loop_none n zero rb v e)
          record { valid = v; sized = refl; given = rw e; held = rw e }
    go (suc k) e ih =
        let w = ih k e in
        let c = contents-after_pop rb v k e in
        rw (read_loop_some n k rb v e) record {
          valid = w.valid;
          sized = w.sized;
          given = rw c (ap (λ l. get_or (storage rb) rb.tail 0 ∷ l) w.given);
          held = rw c w.held;
        }

-- On a valid ring, `RingBuffer_Read` hands out the oldest bytes, as many as are asked for if
-- there are so many, and leaves the rest; the ring stays valid.
pub read_lem :
    (rb : RingBuffer) (len : ℕ)
    → IsValid rb
    → let (bs, rb') = read rb len in
      (bs ≡ take len (contents rb))
      × (contents rb' ≡ drop len (contents rb))
      × IsValid rb'
      × (rb'.size ≡ rb.size)
unfolding read
read_lem rb len v = let w = read_loop-Took len rb v in (w.given, w.held, w.valid, w.sized)
