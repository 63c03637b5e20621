-- ===== src/App/Interrupts.antt =====
-- `USBDEV_HandleTransfer` and `USBHD_IRQHandler` of App/usb_mux_dev/usb/usb_dev_ll.c. The interrupt
-- flags, the status register and the length register are arguments; log lines are left out, and with
-- them the branches that only write a log line and clear their flag.
use ch32v20x_usb_mux_uart_bl.Prelude.{
  ℕ, ◌<◌, ◌≡◌, ap, ◌∙◌, false, some, ◌++◌, arith, min, ltb, ◌==◌, ◌&&◌, not, if◌then◌else◌, bit_and,
  bit_or, read_bytes,
}
use ch32v20x_usb_mux_uart_bl.Firmware.{Firmware, kick_usb_rx, kick_usb_tx}
use ch32v20x_usb_mux_uart_bl.RingBuffer
use ch32v20x_usb_mux_uart_bl.RingBuffer.{RingBuffer}
use ch32v20x_usb_mux_uart_bl.RingBuffer.Invariant.{IsValid}
use ch32v20x_usb_mux_uart_bl.RingBuffer.Refine.{contents}
use ch32v20x_usb_mux_uart_bl.RingBuffer.Transfer.{write_lem}
use ch32v20x_usb_mux_uart_bl.Usb.Rx
use ch32v20x_usb_mux_uart_bl.Usb.Rx.{RxCtx}
use ch32v20x_usb_mux_uart_bl.Usb.Dev.{UsbDev, ep1_in_done, ep2_in_done, reset_data_endpoints}
use ch32v20x_usb_mux_uart_bl.Usb.Dev.Control.{handle_ep0_setup, handle_ep0_in, ep0_out_done}
use ch32v20x_usb_mux_uart_bl.App.{App, usb_rx_push_bytes}

-- A change of the device alone.
abbrev pub on_dev : (UsbDev → UsbDev) → App → App
on_dev f a = record a { fw = record (a.fw) { dev = f a.fw.dev } }

-- USBDEV_EP3_SIZE bounds what an OUT token on endpoint 3 brings.
abbrev pub ep3_len : ℕ → ℕ
ep3_len rx_len = if ltb 64 rx_len then 64 else rx_len

-- The branch for endpoint 3: the bytes go to the receiver, which is woken, and the endpoint is ready.
unfoldable pub ep3_out_done : ℕ → App → App
unfolding usb_rx_push_bytes
ep3_out_done rx_len a =
    let b : App = usb_rx_push_bytes (some (a.fw.dev.ep3_dma)) (ep3_len rx_len) a in
    let c : App = record b { fw = kick_usb_rx b.fw } in
    on_dev (λ d. record d { uep3_rx_ctrl = bit_or (bit_or (bit_and d.uep3_rx_ctrl 4) 8) 0 }) c

-- The branch for an IN token on endpoint 2, with the event that the last chunk sets.
unfoldable pub ep2_in : App → App
unfolding ep2_in_done
ep2_in a =
    let (done, d) = ep2_in_done a.fw.dev in
    let fw : Firmware = record (a.fw) { dev = d } in
    record a { fw = if done then kick_usb_tx fw else fw }

-- `token` and `endpoint` are the fields of the status register.
abbrev pub by_token : ℕ → ℕ → ℕ → App → App
by_token token endpoint rx_len a =
    if token == 0x30
    then on_dev handle_ep0_setup a
    else (if endpoint == 0 && token == 0x20
        then on_dev handle_ep0_in a
        else (if endpoint == 0 && token == 0
            then on_dev ep0_out_done a
            else (if endpoint == 1 && token == 0x20
                then on_dev ep1_in_done a
                else (if endpoint == 3 && token == 0
                    then ep3_out_done rx_len a
                    else (if endpoint == 2 && token == 0x20 then ep2_in a else a)))))

-- `USBDEV_HandleTransfer`
unfoldable pub handle_transfer : ℕ → ℕ → App → App
unfolding ep3_out_done ep2_in
handle_transfer int_st rx_len a = by_token (bit_and int_st 0x30) (bit_and int_st 0x0f) rx_len a

-- `USBHD_IRQHandler`: a bus reset comes before a transfer.
unfoldable pub usb_irq : ℕ → ℕ → ℕ → App → App
unfolding handle_transfer
usb_irq int_flag int_st rx_len a =
    let b : App = if not (bit_and int_flag 1 == 0) then on_dev reset_data_endpoints a else a in
    if not (bit_and int_flag 2 == 0) then handle_transfer int_st rx_len b else b

module _ (a : App) (rx_len : ℕ) (valid : IsValid a.rx.raw_rb) where
  abbrev pushed_rb : RingBuffer
  pushed_rb = (RingBuffer.write a.rx.raw_rb (some (a.fw.dev.ep3_dma)) (ep3_len rx_len)).1

  ep3_ring : 0 < ep3_len rx_len → (ep3_out_done rx_len a).rx.raw_rb ≡ pushed_rb
  unfolding ep3_out_done Rx.push_bytes
  ep3_ring pos = let e : (ep3_len rx_len == 0) ≡ false = ground arith in rw e

  transfer_ep3 :
      (int_st : ℕ)
      → bit_and int_st 0x30 ≡ 0
      → bit_and int_st 0x0f ≡ 3
      → handle_transfer int_st rx_len a ≡ ep3_out_done rx_len a
  unfolding handle_transfer
  transfer_ep3 int_st t e = rw (handle_transfer, t, e)

  irq_transfer :
      (flag int_st : ℕ)
      → bit_and flag 1 ≡ 0
      → bit_and flag 2 ≡ 2
      → usb_irq flag int_st rx_len a ≡ handle_transfer int_st rx_len a
  unfolding usb_irq
  irq_transfer flag int_st r t = rw (usb_irq, r, t)

  -- With a valid ring, and no bus reset pending, an OUT transfer of a byte or more on endpoint
  -- 3 appends the bytes that it brought, at most 64, to those that wait for the receiver, as
  -- many as there is room for.
  pub usb_irq-ep3 :
      (flag int_st : ℕ)
      → bit_and flag 1 ≡ 0
      → bit_and flag 2 ≡ 2
      → bit_and int_st 0x30 ≡ 0
      → bit_and int_st 0x0f ≡ 3
      → 0 < rx_len
      → (let a' = usb_irq flag int_st rx_len a in
          (contents a'.rx.raw_rb
            ≡ contents a.rx.raw_rb
              ++ read_bytes a.fw.dev.ep3_dma 0 (min (min rx_len 64) (RingBuffer.space a.rx.raw_rb)))
          × IsValid a'.rx.raw_rb)
  usb_irq-ep3 flag int_st r t token ep pos =
      let e =
        ap (λ b. b.rx.raw_rb) (irq_transfer flag int_st r t ∙ transfer_ep3 int_st token ep)
        ∙ ep3_ring (ground (arith, pos)) in
      let w = write_lem a.rx.raw_rb valid (a.fw.dev.ep3_dma) (ep3_len rx_len) in
      let brought : ep3_len rx_len ≡ min rx_len 64 = ground arith in
      let taken = w.0 ∙ ap (λ k. min k (RingBuffer.space a.rx.raw_rb)) brought in
      (
        ap contents e
            ∙ w.1
            ∙ ap (λ k. contents a.rx.raw_rb ++ read_bytes a.fw.dev.ep3_dma 0 k) taken,
        rw e w.2,
      )
