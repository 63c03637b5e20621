-- ===== src/Uart/Manager/Requests/Table.antt =====
-- What leaves the table of ports alone: the calls of the peripheral library, and a response.
use ch32v20x_usb_mux_uart_bl.Prelude.{
  ℕ, ◌≡◌, refl, ◌∙◌, none, some, Option, arith, Ptr, Rc, ok, err,
}
use ch32v20x_usb_mux_uart_bl.Proto.{Hdr, Status}
use ch32v20x_usb_mux_uart_bl.Firmware.{Firmware}
use ch32v20x_usb_mux_uart_bl.Usb.Tx
use ch32v20x_usb_mux_uart_bl.Usb.Tx.{TxCtx, rsp}
use ch32v20x_usb_mux_uart_bl.Usb.Sched
use ch32v20x_usb_mux_uart_bl.Usb.Sched.{queue_rsp}
use ch32v20x_usb_mux_uart_bl.Proto.Msg
use ch32v20x_usb_mux_uart_bl.Uart.MapConfig.{UartMapCfg, map_cfg}
use ch32v20x_usb_mux_uart_bl.Uart.Port.{
  enable_gpio_clock, configure, apply_config, get_hw_desc, port_open, port_close,
}
use ch32v20x_usb_mux_uart_bl.Usb.Sched.Replies.{kick_usb_tx-uart}

enable_gpio_clock-uart : (gpio : ℕ) (fw : Firmware) → (enable_gpio_clock gpio fw).uart ≡ fw.uart
unfolding enable_gpio_clock
enable_gpio_clock-uart gpio fw = ground arith

configure-uart :
    (hw : ℕ) (cfg : UartMapCfg) (a b c d : ℕ) (fw : Firmware)
    → (configure hw cfg a b c d fw).uart ≡ fw.uart
unfolding configure
configure-uart hw cfg a b c d fw =
    enable_gpio_clock-uart cfg.rx_port _ ∙ enable_gpio_clock-uart cfg.tx_port _

apply_config-uart :
    (hw : Option ℕ) (cfg : UartMapCfg) (a b c d : ℕ) (fw : Firmware)
    → (apply_config hw cfg a b c d fw).1.uart ≡ fw.uart
unfolding apply_config
apply_config-uart none cfg a b c d fw = refl
apply_config-uart (some hw) cfg a b c d fw = ground (arith, configure-uart hw cfg a b c d fw)

pub port_open-uart : (i a b c d : ℕ) (fw : Firmware) → (port_open i a b c d fw).1.uart ≡ fw.uart
unfolding port_open
port_open-uart i a b c d fw =
    ground (arith, apply_config-uart (get_hw_desc i) (map_cfg i) a b c d fw)

pub port_close-uart : (i : ℕ) (fw : Firmware) → (port_close i fw).uart ≡ fw.uart
unfolding port_close
port_close-uart i fw = ground arith

queue_frame-uart :
    (hdr : Hdr) (status : Status) (p : Ptr) (n : ℕ) (fw : Firmware) (r : Rc × TxCtx)
    → Tx.queue_frame rsp 1 hdr.ch_type hdr.ch_id Msg.rsp hdr.opcode hdr.seq status p n fw.tx ≡ r
    → (queue_rsp hdr status p n fw).1.uart ≡ fw.uart
unfolding queue_rsp
queue_frame-uart hdr status p n fw (ok, c) e =
    rw (queue_rsp, Sched.queue_frame, e) (kick_usb_tx-uart (record fw { tx = _ }))
queue_frame-uart hdr status p n fw (err, c) e = rw (queue_rsp, Sched.queue_frame, e)

pub queue_rsp-uart :
    (hdr : Hdr) (status : Status) (p : Ptr) (n : ℕ) (fw : Firmware)
    → (queue_rsp hdr status p n fw).1.uart ≡ fw.uart
queue_rsp-uart hdr status p n fw = queue_frame-uart hdr status p n fw _ refl
