-- ===== src/EventQueue.antt =====
-- App/usb_mux_dev/common/event_queue.c: the ring of events, the same algorithm as the ring of bytes.
-- A null `event_queue_t *` is not modelled; the storage pointer may be null.
pub mod Laws
use ch32v20x_usb_mux_uart_bl.Prelude.{
  ℕ, ◌+◌, ◌-◌, Bool, true, false, Option, none, some, List, [], ◌||◌, ltb, leb, ◌==◌, if◌then◌else◌,
  get_or, set, u16, Rc, ok, err,
}

-- `app_event_t`
pub record Event : Type 0 where
  pub id : ℕ
  pub arg : ℕ

abbrev pub no_event : Event
no_event = record { id = 0; arg = 0 }

-- `event_queue_t`
pub record EventQueue : Type 0 where
  pub buf : Option (List Event)
  pub size : ℕ
  pub head : ℕ
  pub tail : ℕ

-- The events behind `buf`.
abbrev pub events_of : Option (List Event) → List Event
events_of none = []
events_of (some es) = es

abbrev pub is_null : Option (List Event) → Bool
is_null none = true
is_null (some _) = false

unfoldable pub next_index : EventQueue → ℕ → ℕ
next_index q index = let i = u16 (index + 1) in if leb q.size i then 0 else i

unfoldable pub init : Option (List Event) → ℕ → EventQueue
init buf size = record { buf = buf; size = size; head = 0; tail = 0 }

unfoldable pub reset : EventQueue → EventQueue
reset q = record q { head = 0; tail = 0 }

unfoldable pub count : EventQueue → ℕ
count q =
    if ltb q.size 2
    then 0
    else (if leb q.tail q.head
        then u16 (q.head - q.tail)
        else u16 (q.size + 65536 - q.tail + q.head))

unfoldable pub space : EventQueue → ℕ
unfolding count
space q = if ltb q.size 2 then 0 else u16 (q.size - 1 + 65536 - count q)

unfoldable pub is_empty : EventQueue → Bool
unfolding count
is_empty q = count q == 0

unfoldable pub is_full : EventQueue → Bool
unfolding space
is_full q = space q == 0

unfoldable pub push : EventQueue → Event → Rc × EventQueue
unfolding next_index
push q e =
    if is_null q.buf || ltb q.size 2
    then (err, q)
    else (let next_head = next_index q q.head in
        if next_head == q.tail
        then (err, q)
        else (ok, record q { buf = some (set (events_of q.buf) q.head e); head = next_head }))

-- The option is what goes through `event`; `none` is the return value -1.
unfoldable pub pop : EventQueue → Option Event × EventQueue
unfolding next_index
pop q =
    if is_null q.buf
    then (none, q)
    else (if q.head == q.tail then (none, q) else (
      some (get_or (events_of q.buf) q.tail no_event),
      record q { tail = next_index q q.tail },
    ))
