-- ===== src/AppLog/Task/Drain.antt =====
-- `AppLog_ProcessEvent` of App/usb_mux_dev/app_log.c, served as long as the task asks for its event.
use ch32v20x_usb_mux_uart_bl.Prelude.{ℕ, zero, suc, ◌≡◌, length, ltb, if◌then◌else◌}
use ch32v20x_usb_mux_uart_bl.Prelude.Circular.{dist, length-cells}
use ch32v20x_usb_mux_uart_bl.AppLog
use ch32v20x_usb_mux_uart_bl.AppLog.{LogCtx}
use ch32v20x_usb_mux_uart_bl.AppLog.Bounds.{waiting}
use ch32v20x_usb_mux_uart_bl.AppLog.Task.{LogTask, evt_flush, process_event}

-- TMOS serves the event again as long as the task has asked for it, at most `n` times.
unfoldable pub drain : ℕ → LogTask → LogTask
drain zero t = t
drain (suc n) t =
    let t' : LogTask = (process_event evt_flush t).1 in
    let rest : LogTask = drain n t' in if ltb (length t.calls) (length t'.calls) then rest else t'

length-waiting : (c : LogCtx) → length (waiting c) ≡ dist 2048 c.tail c.head
length-waiting c = length-cells 0 2048 c.buf c.tail (dist 2048 c.tail c.head)

-- Event, then what the task asked for.
abbrev flushed : LogTask → LogTask
flushed t = (process_event evt_flush t).1
