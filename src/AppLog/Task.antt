-- ===== src/AppLog/Task.antt =====
-- The task of App/usb_mux_dev/app_log.c: the event that wakes it, and what it writes out. The text of
-- a log line and the identifier that TMOS gives the task are arguments.
pub mod Drain
use ch32v20x_usb_mux_uart_bl.Prelude.{ℕ, List, ◌∷◌, ◌++◌, ◌==◌, length, if◌then◌else◌, bit_xor}
use ch32v20x_usb_mux_uart_bl.Hal.{Call, set_event, start_task}
use ch32v20x_usb_mux_uart_bl.Firmware.{invalid_task_id}
use ch32v20x_usb_mux_uart_bl.App.{sys_event_msg, ms_to_system_time, has_bit}
use ch32v20x_usb_mux_uart_bl.AppLog
use ch32v20x_usb_mux_uart_bl.AppLog.{LogCtx, has_data}

-- The ring, `g_log_task_id`, the calls of TMOS, the latest first, and the bytes given to `_write`.
pub record LogTask : Type 0 where
  pub log : LogCtx
  pub task_id : ℕ
  pub calls : List Call
  pub written : List ℕ

-- APP_LOG_EVT_FLUSH and APP_LOG_FLUSH_PERIOD_MS.
abbrev pub evt_flush : ℕ
evt_flush = 1

abbrev pub flush_period_ms : ℕ
flush_period_ms = 1

-- `AppLog_KickTask`
unfoldable pub kick_task : LogTask → LogTask
kick_task t =
    if t.task_id == invalid_task_id
    then t
    else record t { calls = set_event t.task_id evt_flush ∷ t.calls }

-- `AppLog_Printf` with its last call: an empty text does not wake the task.
unfoldable pub print_line : List ℕ → LogTask → LogTask
unfolding kick_task
print_line text t =
    if length text == 0 then t else kick_task (record t { log = AppLog.printf text t.log })

-- `AppLog_TaskInit`, with the line that it logs.
unfoldable pub init_task : ℕ → List ℕ → LogTask → LogTask
unfolding print_line
init_task task_id text t = print_line text (record t { task_id = task_id })

-- `AppLog_Process`, with the bytes that it writes.
unfoldable pub flush : LogTask → LogTask
flush t =
    let (chunk, log) = AppLog.process t.log in record t { log = log; written = t.written ++ chunk }

-- `AppLog_ProcessEvent`: the events left, and the task after it. The messages that SYS_EVENT_MSG
-- announces are only freed.
unfoldable pub process_event : ℕ → LogTask → ℕ × LogTask
unfolding flush
process_event events t =
    if has_bit events sys_event_msg
    then (bit_xor events sys_event_msg, t)
    else (if has_bit events evt_flush
        then (let t' : LogTask = flush t in
            (
              bit_xor events evt_flush,
              if has_data t'.log
                  then record t' {
                    calls =
                        start_task t'.task_id evt_flush (ms_to_system_time flush_period_ms)
                        ∷ t'.calls;
                  }
                  else t',
            ))
        else (0, t))

-- `AppLog_GetDroppedBytes`
abbrev pub dropped_bytes : LogTask → ℕ
dropped_bytes t = t.log.dropped
