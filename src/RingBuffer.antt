-- ===== src/RingBuffer.antt =====
-- App/usb_mux_dev/common/ring_buffer.c. A `ring_buffer_t *` that is null is not modelled: every
-- caller passes the address of an object. The storage and the data pointers may be null. A
-- function that updates `*rb` returns the new ring last.
pub mod Invariant
pub mod Refine
pub mod Transfer
use ch32v20x_usb_mux_uart_bl.Prelude.{
  ℕ, zero, suc, ◌+◌, ◌-◌, Bool, true, false, Option, none, some, List, [], ◌∷◌, ◌||◌, ltb, leb,
  ◌==◌, if◌then◌else◌, get_or, set, u16, Rc, ok, err, Ptr, bytes_of,
}

-- `ring_buffer_t`
pub record RingBuffer : Type 0 where
  pub buf : Option (List ℕ)
  pub size : ℕ
  pub head : ℕ
  pub tail : ℕ

-- The bytes behind `buf`.
abbrev pub storage : RingBuffer → List ℕ
storage rb = bytes_of rb.buf

abbrev pub is_null : Ptr → Bool
is_null none = true
is_null (some _) = false

unfoldable pub next_index : RingBuffer → ℕ → ℕ
next_index rb index = let i = u16 (index + 1) in if leb rb.size i then 0 else i

unfoldable pub init : Option (List ℕ) → ℕ → RingBuffer
init buf size = record { buf = buf; size = size; head = 0; tail = 0 }

unfoldable pub reset : RingBuffer → RingBuffer
reset rb = record rb { head = 0; tail = 0 }

-- `size - tail + head` is computed on int and cut to 16 bits.
unfoldable pub count : RingBuffer → ℕ
count rb =
    if ltb rb.size 2
    then 0
    else (if leb rb.tail rb.head
        then u16 (rb.head - rb.tail)
        else u16 (rb.size + 65536 - rb.tail + rb.head))

unfoldable pub space : RingBuffer → ℕ
unfolding count
space rb = if ltb rb.size 2 then 0 else u16 (rb.size - 1 + 65536 - count rb)

unfoldable pub is_empty : RingBuffer → Bool
unfolding count
is_empty rb = count rb == 0

unfoldable pub is_full : RingBuffer → Bool
unfolding space
is_full rb = space rb == 0

unfoldable pub push_byte : RingBuffer → ℕ → Rc × RingBuffer
unfolding next_index
push_byte rb x =
    if is_null rb.buf || ltb rb.size 2
    then (err, rb)
    else (let next_head = next_index rb rb.head in
        if next_head == rb.tail
        then (err, rb)
        else (ok, record rb { buf = some (set (storage rb) rb.head x); head = next_head }))

-- The option is what goes through `data`; `none` is the return value -1.
unfoldable pub pop_byte : RingBuffer → Option ℕ × RingBuffer
unfolding next_index
pop_byte rb =
    if is_null rb.buf
    then (none, rb)
    else (if rb.head == rb.tail
        then (none, rb)
        else (some (get_or (storage rb) rb.tail 0), record rb { tail = next_index rb rb.tail }))

-- The loop of `RingBuffer_Write`, on the rounds that are left of `len`.
write_loop : List ℕ → ℕ → ℕ → RingBuffer → ℕ × RingBuffer
write_loop bytes zero written rb = (written, rb)
write_loop bytes (suc left) written rb =
    let (rc, rb') = push_byte rb (get_or bytes written 0) in
    elim rc [ ok ↦ write_loop bytes left (written + 1) rb' | err ↦ (written, rb') ]

unfoldable pub write : RingBuffer → Ptr → ℕ → ℕ × RingBuffer
unfolding write_loop
write rb none len = (0, rb)
write rb (some bytes) len = write_loop bytes len 0 rb

-- The loop of `RingBuffer_Read`: the list is what it has written to `data`, and its length is the
-- value that is returned.
read_loop : ℕ → RingBuffer → List ℕ × RingBuffer
read_loop zero rb = ([], rb)
read_loop (suc left) rb =
    let (x, rb') = pop_byte rb in
    elim x [ some b ↦ (let (bs, rb'') = read_loop left rb' in (b ∷ bs, rb'')) | none ↦ ([], rb') ]

unfoldable pub read : RingBuffer → ℕ → List ℕ × RingBuffer
unfolding read_loop
read rb len = read_loop len rb
