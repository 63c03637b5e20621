-- ===== src/EventQueue/Laws.antt =====
-- A valid event queue refines a bounded queue of events.
use ch32v20x_usb_mux_uart_bl.Prelude.{
  ℕ, zero, suc, ◌+◌, ◌-◌, ◌≤◌, ◌<◌, ◌≡◌, refl, ap, some, none, Option, List, [], ◌∷◌, ◌++◌, arith,
  length, length-set, Rc, ok, err, get_or, set, dec_lt, ltb, leb, true, false, IsU16,
}
use ch32v20x_usb_mux_uart_bl.Prelude.Circular.{next, dist, cells, length-cells, cells-set}
use ch32v20x_usb_mux_uart_bl.Fifo
use ch32v20x_usb_mux_uart_bl.EventQueue.{
  Event, no_event, EventQueue, events_of, count, space, is_empty, is_full, push, pop,
}

-- The storage holds `size` events, at least two, and both indices lie in it.
pub record IsValid (q : EventQueue) : Type 0 where
  pub two : 2 ≤ q.size
  pub stored : q.size ≤ length (events_of q.buf)
  pub narrow : IsU16 q.size
  pub head_in : q.head < q.size
  pub tail_in : q.tail < q.size

-- The events in the queue, oldest first.
abbrev pub contents : EventQueue → List Event
contents q = cells no_event q.size (events_of q.buf) q.tail (count q)

abbrev pub pushed : EventQueue → Option (List Event) → Rc × List Event
pushed q none = (err, contents q)
pushed q (some es) = (ok, es)

abbrev pub popped : Option (Event × List Event) → Option Event × List Event
popped none = (none, [])
popped (some (e, es)) = (some e, es)

pub length-contents : (q : EventQueue) → length (contents q) ≡ count q
length-contents q = length-cells no_event q.size (events_of q.buf) q.tail (count q)

module _ (q : EventQueue) (v : IsValid q) where
  abbrev after_push : Event → EventQueue
  after_push e = record q { buf = some (set (events_of q.buf) q.head e); head = next q.size q.head }

  abbrev after_pop : EventQueue
  after_pop = record q { tail = next q.size q.tail }

  count-lt-size : count q < q.size
  unfolding count
  count-lt-size = ground arith

  -- `EventQueue_Count` and `EventQueue_Space` make up the capacity, and the two tests say when one
  -- of them is zero.
  pub space-add-count :
      (space q + count q + 1 ≡ q.size)
      × (is_empty q ≡ leb (length (contents q)) 0)
      × (is_full q ≡ leb (q.size - 1) (length (contents q)))
  unfolding is_full is_empty
  space-add-count = ground (arith, length-contents q)

  push-ok : (e : Event) → count q + 1 < q.size → push q e ≡ (ok, after_push e)
  unfolding push count
  push-ok e h = ground arith

  push-full : (e : Event) → count q + 1 ≡ q.size → push q e ≡ (err, q)
  unfolding push count
  push-full e h = ground arith

  pop-ok :
      (n : ℕ)
      → count q ≡ suc n
      → pop q ≡ (some (get_or (events_of q.buf) q.tail no_event), after_pop)
  unfolding pop count
  pop-ok n h = ground arith

  pop-empty : count q ≡ 0 → pop q ≡ (none, q)
  unfolding pop count
  pop-empty h = ground arith

  count-eq-dist : count q ≡ dist q.size q.tail q.head
  unfolding count
  count-eq-dist = ground arith

  count-after_push : (e : Event) → count q + 1 < q.size → count (after_push e) ≡ suc (count q)
  unfolding count
  count-after_push e h = ground arith

  count-after_pop : (n : ℕ) → count q ≡ suc n → count after_pop ≡ n
  unfolding count
  count-after_pop n h = ground arith

  contents-after_push :
      (e : Event) → count q + 1 < q.size → contents (after_push e) ≡ contents q ++ (e ∷ [])
  contents-after_push e h = rw (count-after_push e h) (
      cells-set no_event q.size (events_of q.buf) e q.tail q.head (count q) v.stored v.tail_in
        v.head_in count-eq-dist)

  -- Both operations keep the queue valid.
  pub push-pop-IsValid : (e : Event) → IsValid (push q e).1 × IsValid (pop q).1
  unfolding push pop
  push-pop-IsValid e = (ground (arith, length-set (events_of q.buf) q.head e), ground arith)

  -- On a valid queue, `EventQueue_Push` refuses exactly when `size - 1` events wait; else it
  -- appends its event.
  pub push_refines :
      (e : Event)
      → let (rc, q') = push q e in
        (rc, contents q') ≡ pushed q (Fifo.push (q.size - 1) (contents q) e)
  unfolding Fifo.push
  push_refines e = elim (dec_lt (count q + 1) q.size) [
    | yes room ↦
        (let t : ltb (count q) (q.size - 1) ≡ true = ground arith in
          rw (push-ok e room, length-contents q, t)
            (ap (λ es. (ok, es)) (contents-after_push e room)))
    | no full ↦
        (let t : ltb (count q) (q.size - 1) ≡ false = ground arith in
          rw (push-full e (omega (arith, count-lt-size)), length-contents q, t))
  ]

  -- On a valid queue, `EventQueue_Pop` fails exactly when no event waits; else it takes the
  -- oldest.
  pub pop_refines : let (e, q') = pop q in (e, contents q') ≡ popped (Fifo.pop (contents q))
  unfolding Fifo.pop
  pop_refines = go (count q) refl
    where
      go :
          (n : ℕ)
          → count q ≡ n
          → let (e, q') = pop q in (e, contents q') ≡ popped (Fifo.pop (contents q))
      go zero e = rw (pop-empty e, e)
      go (suc n) e = rw (pop-ok n e, e, count-after_pop n e)
