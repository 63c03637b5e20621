-- ===== src/AppLog.antt =====
-- App/usb_mux_dev/app_log.c: the ring of log bytes. The text that `vsnprintf` makes is a parameter; the
-- critical sections are whole steps of the model.
pub mod Bounds
pub mod Print
pub mod Task
use ch32v20x_usb_mux_uart_bl.Prelude.{
  ℕ, zero, suc, ◌+◌, ◌-◌, Bool, true, false, List, [], ◌∷◌, ◌==◌, not, ltb, leb, if◌then◌else◌,
  get_or, set, length, take, replicate, u16, u32, Rc, ok, err, read_bytes,
}

-- APP_LOG_BUFFER_SIZE, APP_LOG_LINE_SIZE and APP_LOG_FLUSH_CHUNK_SIZE, config.h.
abbrev pub buffer_size : ℕ
buffer_size = 2048

abbrev pub line_size : ℕ
line_size = 160

abbrev pub flush_chunk_size : ℕ
flush_chunk_size = 96

-- `g_log_buf`, `g_log_head`, `g_log_tail` and `g_log_dropped`.
pub record LogCtx : Type 0 where
  pub buf : List ℕ
  pub head : ℕ
  pub tail : ℕ
  pub dropped : ℕ

unfoldable pub next_index : ℕ → ℕ
next_index index = let i = u16 (index + 1) in if leb buffer_size i then 0 else i

unfoldable pub push_byte : ℕ → LogCtx → Rc × LogCtx
unfolding next_index
push_byte x c =
    if next_index c.head == c.tail
    then (err, record c { dropped = u32 (c.dropped + 1) })
    else (ok, record c { buf = set c.buf c.head x; head = next_index c.head })

unfoldable pub has_data : LogCtx → Bool
has_data c = not (c.head == c.tail)

unfoldable pub contiguous_len : LogCtx → ℕ
contiguous_len c =
    if c.head == c.tail
    then 0
    else (let len : ℕ =
          if ltb c.tail c.head then u16 (c.head - c.tail) else u16 (buffer_size - c.tail) in
        if ltb flush_chunk_size len then flush_chunk_size else len)

unfoldable pub advance_tail : ℕ → LogCtx → LogCtx
advance_tail len c =
    let tail : ℕ = u16 (c.tail + len) in
    record c { tail = if leb buffer_size tail then u16 (tail - buffer_size) else tail }

-- `AppLog_Init`
unfoldable pub init : LogCtx → LogCtx
init c = record c { head = 0; tail = 0; dropped = 0 }

-- The loop of `AppLog_Printf` over the bytes of the line: it stops at the first byte that is lost.
unfoldable pub push_line : List ℕ → LogCtx → LogCtx
push_line [] c = c
push_line (x ∷ xs) c = let (rc, c') = push_byte x c in elim rc [ ok ↦ push_line xs c' | err ↦ c' ]

-- `AppLog_Printf` behind `vsnprintf`: `text` is the whole formatted text. A text of 160 bytes or more
-- is cut to 159 and counted as dropped; an empty one is ignored.
unfoldable pub printf : List ℕ → LogCtx → LogCtx
unfolding push_line push_byte
printf text c =
    if length text == 0
    then c
    else (if leb line_size (length text)
        then push_line (take 159 text) (record c { dropped = u32 (c.dropped + 1) })
        else push_line text c)

-- `AppLog_Process`: the chunk that goes to `_write`, and the context after it.
unfoldable pub process : LogCtx → List ℕ × LogCtx
unfolding contiguous_len advance_tail
process c =
    let len : ℕ = contiguous_len c in
    if ltb 0 len then (read_bytes c.buf c.tail len, advance_tail len c) else ([], c)
