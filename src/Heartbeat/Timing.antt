-- ===== src/Heartbeat/Timing.antt =====
-- The blink period of heartbeat.c: how often the pin of the LED changes when the task looks at every
-- tick.
use ch32v20x_usb_mux_uart_bl.Prelude.{
  ℕ, zero, suc, ◌+◌, ◌<◌, ◌≡◌, Bool, true, false, List, [], ◌∷◌, u32, bit_xor, ◌==◌, if◌then◌else◌,
}
use ch32v20x_usb_mux_uart_bl.Hal.{Call, led_write}
use ch32v20x_usb_mux_uart_bl.Firmware.{emit}
use ch32v20x_usb_mux_uart_bl.Heartbeat.{HeartbeatCtx}
use ch32v20x_usb_mux_uart_bl.App.{App, run_heartbeat}

-- The level of the pin: the one that was written last.
abbrev pub pin : List Call → Bool
pin [] = true
pin (led_write level ∷ cs) = level
pin (_ ∷ cs) = pin cs

abbrev pub same : Bool → Bool → Bool
same true b = b
same false true = false
same false false = true

-- `n` calls of `Heartbeat_Process`, one at each tick from `now` on: how often the level of the pin
-- changes.
pub run : ℕ → ℕ → App → ℕ × App
run zero now a = (0, a)
run (suc n) now a =
    let a' : App = run_heartbeat (u32 now) a in
    let (k, b) = run n (now + 1) a' in
    (if same (pin a.fw.calls) (pin a'.fw.calls) then k else suc k, b)

-- The pin of the active-low LED shows `led_on`, which is 0 or 1.
pub record Shows (a : App) : Type 0 where
  pub binary : a.beat.led_on < 2
  pub level : pin a.fw.calls ≡ (a.beat.led_on == 0)

abbrev toggled_at : HeartbeatCtx → HeartbeatCtx
toggled_at c = record c {
  led_on = bit_xor c.led_on 1;
  next_deadline_tick = u32 (c.next_deadline_tick + 8000);
}

blinked : App → App
blinked a = record a {
  beat = toggled_at a.beat;
  fw = emit (led_write (bit_xor a.beat.led_on 1 == 0)) a.fw;
}
