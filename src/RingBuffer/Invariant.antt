-- ===== src/RingBuffer/Invariant.antt =====
-- The representation invariant of a ring buffer, and that each operation keeps it.
use ch32v20x_usb_mux_uart_bl.Prelude.{
  ℕ, ◌+◌, ◌≤◌, ◌<◌, ◌≡◌, some, List, arith, length, length-set, IsU16,
}
use ch32v20x_usb_mux_uart_bl.Prelude.Circular.{next, dist}
use ch32v20x_usb_mux_uart_bl.RingBuffer.{
  RingBuffer, storage, next_index, init, reset, count, space, push_byte, pop_byte,
}

-- The storage holds `size` bytes, at least two, and both indices lie in it.
pub record IsValid (rb : RingBuffer) : Type 0 where
  pub two : 2 ≤ rb.size
  pub stored : rb.size ≤ length (storage rb)
  pub narrow : IsU16 rb.size
  pub head_in : rb.head < rb.size
  pub tail_in : rb.tail < rb.size

pub init-IsValid :
    (bs : List ℕ) (size : ℕ)
    → 2 ≤ size
    → size ≤ length bs
    → IsU16 size
    → IsValid (init (some bs) size)
unfolding init
init-IsValid bs size h k n = omega arith

pub reset-IsValid : {rb : RingBuffer} → IsValid rb → IsValid (reset rb)
unfolding reset
reset-IsValid v = omega arith

-- In a valid ring no index wraps at 16 bits.
pub next_index-eq-next :
    (rb : RingBuffer) (i : ℕ) → IsValid rb → i < rb.size → next_index rb i ≡ next rb.size i
unfolding next_index
next_index-eq-next rb i v h = ground arith

pub count-eq-dist : (rb : RingBuffer) → IsValid rb → count rb ≡ dist rb.size rb.tail rb.head
unfolding count
count-eq-dist rb v = ground arith

pub count-lt-size : (rb : RingBuffer) → IsValid rb → count rb < rb.size
unfolding count
count-lt-size rb v = ground arith

pub space-add-count : (rb : RingBuffer) → IsValid rb → space rb + count rb + 1 ≡ rb.size
unfolding space
space-add-count rb v = ground arith

pub push_byte-IsValid : {rb : RingBuffer} (x : ℕ) → IsValid rb → IsValid (push_byte rb x).1
unfolding push_byte
push_byte-IsValid {rb} x v = ground (arith, length-set (storage rb) rb.head x)

pub pop_byte-IsValid : {rb : RingBuffer} → IsValid rb → IsValid (pop_byte rb).1
unfolding pop_byte
pop_byte-IsValid v = ground arith

pub size-push_byte : (rb : RingBuffer) (x : ℕ) → (push_byte rb x).1.size ≡ rb.size
unfolding push_byte
size-push_byte rb x = ground arith

pub size-pop_byte : (rb : RingBuffer) → (pop_byte rb).1.size ≡ rb.size
unfolding pop_byte
size-pop_byte rb = ground arith
