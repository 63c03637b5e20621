-- ===== src/RingBuffer/Refine.antt =====
-- A valid ring buffer behaves as a bounded queue of the bytes that it holds.
use ch32v20x_usb_mux_uart_bl.Prelude.{
  ℕ, zero, suc, ◌+◌, ◌-◌, ◌<◌, ◌≡◌, refl, ap, some, none, Option, List, [], ◌∷◌, ◌++◌, arith,
  Bool-cases, inl, inr, ltb, length, Rc, ok, err, get_or, set,
}
use ch32v20x_usb_mux_uart_bl.Prelude.Circular.{next, cells, length-cells, cells-set}
use ch32v20x_usb_mux_uart_bl.Fifo
use ch32v20x_usb_mux_uart_bl.RingBuffer.{RingBuffer, storage, count, push_byte, pop_byte}
use ch32v20x_usb_mux_uart_bl.RingBuffer.Invariant.{IsValid, count-eq-dist, count-lt-size}

-- The bytes in the ring, oldest first.
abbrev pub contents : RingBuffer → List ℕ
contents rb = cells 0 rb.size (storage rb) rb.tail (count rb)

-- What a client gets who asks for at most `size - 1` bytes.
abbrev pub capacity : RingBuffer → ℕ
capacity rb = rb.size - 1

pub length-contents : (rb : RingBuffer) → length (contents rb) ≡ count rb
length-contents rb = length-cells 0 rb.size (storage rb) rb.tail (count rb)

-- `Fifo.push` in the shape of `push_byte`.
abbrev pub pushed : RingBuffer → Option (List ℕ) → Rc × List ℕ
pushed rb none = (err, contents rb)
pushed rb (some q) = (ok, q)

abbrev pub popped : Option (ℕ × List ℕ) → Option ℕ × List ℕ
popped none = (none, [])
popped (some (x, q)) = (some x, q)

module _ (rb : RingBuffer) (v : IsValid rb) where
  -- The ring after a byte that was taken.
  abbrev pub after_push : ℕ → RingBuffer
  after_push x = record rb { buf = some (set (storage rb) rb.head x); head = next rb.size rb.head }

  abbrev pub after_pop : RingBuffer
  after_pop = record rb { tail = next rb.size rb.tail }

  pub push_byte-ok : (x : ℕ) → count rb + 1 < rb.size → push_byte rb x ≡ (ok, after_push x)
  unfolding push_byte count
  push_byte-ok x h = ground arith

  pub push_byte-full : (x : ℕ) → count rb + 1 ≡ rb.size → push_byte rb x ≡ (err, rb)
  unfolding push_byte count
  push_byte-full x h = ground arith

  pub pop_byte-ok :
      (n : ℕ) → count rb ≡ suc n → pop_byte rb ≡ (some (get_or (storage rb) rb.tail 0), after_pop)
  unfolding pop_byte count
  pop_byte-ok n h = ground arith

  pub pop_byte-empty : count rb ≡ 0 → pop_byte rb ≡ (none, rb)
  unfolding pop_byte count
  pop_byte-empty h = ground arith

  pub count-after_push : (x : ℕ) → count rb + 1 < rb.size → count (after_push x) ≡ suc (count rb)
  unfolding count
  count-after_push x h = ground arith

  pub count-after_pop : (n : ℕ) → count rb ≡ suc n → count after_pop ≡ n
  unfolding count
  count-after_pop n h = ground arith

  pub contents-after_push :
      (x : ℕ) → count rb + 1 < rb.size → contents (after_push x) ≡ contents rb ++ (x ∷ [])
  contents-after_push x h = rw (count-after_push x h) (
      cells-set 0 rb.size (storage rb) x rb.tail rb.head (count rb) v.stored v.tail_in v.head_in
        (count-eq-dist rb v))

  pub contents-after_pop :
      (n : ℕ) → count rb ≡ suc n → contents rb ≡ get_or (storage rb) rb.tail 0 ∷ contents after_pop
  contents-after_pop n h = rw (h, count-after_pop n h)

-- On a valid ring, `RingBuffer_PushByte` refuses exactly when the ring holds `size - 1` bytes;
-- else it appends its byte.
pub push_byte_refines :
    (rb : RingBuffer) (x : ℕ)
    → IsValid rb
    → let (rc, rb') = push_byte rb x in
      (rc, contents rb') ≡ pushed rb (Fifo.push (capacity rb) (contents rb) x)
unfolding Fifo.push
push_byte_refines rb x v = elim (Bool-cases (ltb (count rb) (rb.size - 1))) [
  | inl room ↦
      rw (push_byte-ok rb v x (ground arith), length-contents rb, room)
        (ap (λ q. (ok, q)) (contents-after_push rb v x (ground arith)))
  | inr full ↦
      rw (push_byte-full rb v x (ground (arith, count-lt-size rb v)), length-contents rb, full)
]

-- On a valid ring, `RingBuffer_PopByte` fails exactly when the ring is empty; else it takes the
-- oldest byte.
pub pop_byte_refines :
    (rb : RingBuffer)
    → IsValid rb
    → let (b, rb') = pop_byte rb in (b, contents rb') ≡ popped (Fifo.pop (contents rb))
unfolding Fifo.pop
pop_byte_refines rb v = go (count rb) refl
  where
    go :
        (n : ℕ)
        → count rb ≡ n
        → let (b, rb') = pop_byte rb in (b, contents rb') ≡ popped (Fifo.pop (contents rb))
    go zero e = rw (pop_byte-empty rb v e, e)
    go (suc n) e = rw (pop_byte-ok rb v n e, contents-after_pop rb v n e)
