-- ===== src/Examples/Common.antt =====
-- The buffers and queues of App/usb_mux_dev/common, the log and the heartbeat on small inputs.
use ch32v20x_usb_mux_uart_bl.Prelude.{
  ◌-◌, ◌≡◌, ◌<◌, ◌≤◌, refl, true, some, [], ◌∷◌, ◌++◌, arith, replicate, take, drop, min, length,
  read_bytes,
}
use ch32v20x_usb_mux_uart_bl.Fifo
use ch32v20x_usb_mux_uart_bl.RingBuffer
use ch32v20x_usb_mux_uart_bl.RingBuffer.{RingBuffer}
use ch32v20x_usb_mux_uart_bl.RingBuffer.Invariant
use ch32v20x_usb_mux_uart_bl.RingBuffer.Refine
use ch32v20x_usb_mux_uart_bl.RingBuffer.Transfer
use ch32v20x_usb_mux_uart_bl.EventQueue
use ch32v20x_usb_mux_uart_bl.EventQueue.{EventQueue, Event, no_event}
use ch32v20x_usb_mux_uart_bl.EventQueue.Laws
use ch32v20x_usb_mux_uart_bl.AppLog
use ch32v20x_usb_mux_uart_bl.AppLog.{LogCtx}
use ch32v20x_usb_mux_uart_bl.AppLog.Bounds
use ch32v20x_usb_mux_uart_bl.AppLog.Task.{LogTask}
use ch32v20x_usb_mux_uart_bl.AppLog.Task.Drain
use ch32v20x_usb_mux_uart_bl.Heartbeat.{HeartbeatCtx}
use ch32v20x_usb_mux_uart_bl.Heartbeat.Timing
use ch32v20x_usb_mux_uart_bl.App.{App}
use ch32v20x_usb_mux_uart_bl.Usb.Rx
use ch32v20x_usb_mux_uart_bl.Hal.{led_write}
use ch32v20x_usb_mux_uart_bl.Examples.Requests.{booted}

-- A ring of four cells that holds two bytes and goes round.
abbrev ring : RingBuffer
ring = record { buf = some (6 ∷ 0 ∷ 0 ∷ 5 ∷ []); size = 4; head = 1; tail = 3 }

ring-IsValid : Invariant.IsValid ring
ring-IsValid = omega arith

push_byte_refines_example :
    let (rc, rb') = RingBuffer.push_byte ring 7 in
    (rc, Refine.contents rb')
    ≡ Refine.pushed ring (Fifo.push (Refine.capacity ring) (Refine.contents ring) 7)
push_byte_refines_example = Refine.push_byte_refines ring 7 ring-IsValid

pop_byte_refines_example :
    let (b, rb') = RingBuffer.pop_byte ring in
    (b, Refine.contents rb') ≡ Refine.popped (Fifo.pop (Refine.contents ring))
pop_byte_refines_example = Refine.pop_byte_refines ring ring-IsValid

write_lem_example :
    let (n, rb') = RingBuffer.write ring (some (1 ∷ 2 ∷ [])) 2 in
    (n ≡ min 2 (RingBuffer.space ring))
    × (Refine.contents rb' ≡ Refine.contents ring ++ read_bytes (1 ∷ 2 ∷ []) 0 n)
    × Invariant.IsValid rb'
    × (rb'.size ≡ ring.size)
write_lem_example = Transfer.write_lem ring ring-IsValid (1 ∷ 2 ∷ []) 2

read_lem_example :
    let (bs, rb') = RingBuffer.read ring 1 in
    (bs ≡ take 1 (Refine.contents ring))
    × (Refine.contents rb' ≡ drop 1 (Refine.contents ring))
    × Invariant.IsValid rb'
    × (rb'.size ≡ ring.size)
read_lem_example = Transfer.read_lem ring 1 ring-IsValid

abbrev event : Event
event = record { id = 3; arg = 9 }

-- An event queue of three cells that holds one event.
abbrev queue : EventQueue
queue = record { buf = some (no_event ∷ no_event ∷ event ∷ []); size = 3; head = 0; tail = 2 }

queue-IsValid : Laws.IsValid queue
queue-IsValid = omega arith

push_refines_example :
    let (rc, q') = EventQueue.push queue event in
    (rc, Laws.contents q')
    ≡ Laws.pushed queue (Fifo.push (queue.size - 1) (Laws.contents queue) event)
push_refines_example = Laws.push_refines queue queue-IsValid event

pop_refines_example :
    let (e, q') = EventQueue.pop queue in
    (e, Laws.contents q') ≡ Laws.popped (Fifo.pop (Laws.contents queue))
pop_refines_example = Laws.pop_refines queue queue-IsValid

-- A log whose bytes go round the end of the buffer.
abbrev log : LogCtx
log = record { buf = replicate 2048 65; head = 3; tail = 2040; dropped = 0 }

log-IsLog : Bounds.IsLog log
log-IsLog = record { sized = refl; head_in = omega arith; tail_in = omega arith }

process-waiting_example :
    let (chunk, c') = AppLog.process log in
    (Bounds.waiting log ≡ chunk ++ Bounds.waiting c')
    × Bounds.IsLog c'
    × (length chunk ≤ 96)
    × (0 < length (Bounds.waiting log) → 0 < length chunk)
process-waiting_example = Bounds.process-waiting log log-IsLog

-- The same log, with its task, which has written nothing yet.
abbrev log_task : LogTask
log_task = record { log = log; task_id = 4; calls = []; written = [] }

-- A heartbeat whose deadline lies behind the wrap of the tick counter.
abbrev beat : HeartbeatCtx
beat = record { initialized = 1; led_on = 0; next_deadline_tick = 5 }

abbrev beating : App
beating = record { rx = Rx.init; beat = beat; fw = record booted { calls = led_write true ∷ [] } }
