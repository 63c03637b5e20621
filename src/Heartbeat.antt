-- ===== src/Heartbeat.antt =====
-- App/usb_mux_dev/heartbeat.c: the LED that toggles every 500 ms. The counter of the real-time clock
-- is a parameter of each step; the crystal frequency is that of CLK_OSC32K = 1.
pub mod Timing
use ch32v20x_usb_mux_uart_bl.Prelude.{
  ℕ, ◌+◌, ◌-◌, ◌*◌, ◌/◌, ◌%◌, Bool, ◌==◌, not, ltb, if◌then◌else◌, u32, bit_xor,
}
use ch32v20x_usb_mux_uart_bl.Hal.{Call, led_write}

-- `heartbeat_ctx_t`
pub record HeartbeatCtx : Type 0 where
  pub initialized : ℕ
  pub led_on : ℕ
  pub next_deadline_tick : ℕ

-- APP_HEARTBEAT_PERIOD_MS, and CAB_LSIFQ of ch32v20x_rtc.h.
abbrev pub period_ms : ℕ
period_ms = 500

abbrev pub lsi_freq : ℕ
lsi_freq = 32000

-- `Heartbeat_GetPeriodTick`
unfoldable pub period_tick : ℕ
period_tick = let t : ℕ = u32 (period_ms * (lsi_freq / 2) / 1000) in if t == 0 then 1 else t

-- `Heartbeat_ApplyOutput` with an active-low LED: the level of the pin.
unfoldable pub output_level : ℕ → Bool
output_level led_on = led_on == 0

-- `Heartbeat_Init`, at tick `now`; the call is the level that is written.
unfoldable pub init : ℕ → HeartbeatCtx → HeartbeatCtx × Call
unfolding period_tick output_level
init now c = (
  record c { initialized = 1; led_on = 0; next_deadline_tick = u32 (now + period_tick) },
  led_write (output_level 0),
)

-- The test of `(int32_t)(now - deadline) < 0`: bit 31 of the difference is set.
unfoldable pub is_early : ℕ → ℕ → Bool
is_early now deadline = not (ltb (u32 (now + 4294967296 - deadline)) 2147483648)

-- `Heartbeat_Process`, at tick `now`; the Boolean tells whether the LED was toggled.
unfoldable pub process : ℕ → HeartbeatCtx → Bool × HeartbeatCtx
unfolding period_tick is_early
process now c =
    if c.initialized == 0
    then (Bool.false, c)
    else (if is_early now c.next_deadline_tick then (Bool.false, c) else (
      Bool.true,
      record c {
        led_on = bit_xor c.led_on 1;
        next_deadline_tick = u32 (c.next_deadline_tick + period_tick);
      },
    ))
