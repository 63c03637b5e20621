-- ===== src/Stats.antt =====
-- App/usb_mux_dev/common/stats.c: 32-bit counters, in a block of eight. The memory behind a pointer
-- is a list of counters; a null pointer to a counter is `none`.
use ch32v20x_usb_mux_uart_bl.Prelude.{
  ℕ, ◌+◌, ◌*◌, Option, none, some, List, ◌==◌, if◌then◌else◌, replicate, write_bytes, u16, u32,
}

-- STATS_BLOCK_COUNTER_COUNT
abbrev pub counter_count : ℕ
counter_count = 8

-- `memset(stats, 0, size)` over a block of bytes; a null pointer or no bytes leave it alone.
unfoldable pub reset : Option (List ℕ) → ℕ → Option (List ℕ)
reset none size = none
reset (some bytes) size =
    if size == 0 then some bytes else some (write_bytes bytes 0 (replicate size 0))

-- `Stats_ResetBlock`: the block is 32 bytes.
unfoldable pub reset_block : List ℕ → Option (List ℕ)
unfolding reset
reset_block bytes = reset (some bytes) (u16 (4 * counter_count))

unfoldable pub add : Option ℕ → ℕ → Option ℕ
add none value = none
add (some counter) value = some (u32 (counter + value))

unfoldable pub inc : Option ℕ → Option ℕ
unfolding add
inc counter = add counter 1
