-- ===== src/Usb/Dev.antt =====
-- App/usb_mux_dev/usb/usb_dev_ll.c: the device context `g_usbdev_ctx`, the endpoint buffers and the
-- registers of the USB controller that its functions write. Setting up clocks and the controller's
-- fixed modes (`USBDEV_ConfigClock`, most of `USBMUX_DeviceInit`) and log lines are left out.
pub mod Descriptors
pub mod Control
pub mod Stream
use ch32v20x_usb_mux_uart_bl.Prelude.{
  ℕ, ◌+◌, ◌-◌, Bool, Option, none, some, List, [], ◌∷◌, ◌&&◌, ◌||◌, not, ltb, leb, ◌==◌,
  if◌then◌else◌, u8, u16, replicate, Rc, ok, err, Ptr, bytes_of, bit_and, bit_or, read_bytes,
  write_bytes,
}
use ch32v20x_usb_mux_uart_bl.Proto.{IrqHint}
use ch32v20x_usb_mux_uart_bl.Proto.Codec.{lo, hi}

-- USBDEV_EP2_SIZE
abbrev pub ep2_size : ℕ
ep2_size = 64

-- The handshake and toggle bits of an endpoint's control register, ch32v20x_usb.h.
abbrev pub t_auto_tog : ℕ
t_auto_tog = 8

abbrev pub t_tog : ℕ
t_tog = 4

abbrev pub t_res_nak : ℕ
t_res_nak = 2

abbrev pub t_res_ack : ℕ
t_res_ack = 0

-- `~USBFS_UEP_T_RES_MASK` over a byte.
abbrev pub not_t_res_mask : ℕ
not_t_res_mask = 0xfc

-- `usbdev_ctx_t`, with `usbdev_ctrl_ep0_t` spread out, the endpoint buffers `g_ep0_dma` to
-- `g_ep3_dma`, and the registers UEPn_TX_LEN, UEPn_TX_CTRL, UEPn_RX_CTRL and DEV_ADDR.
pub record UsbDev : Type 0 where
  pub configured : ℕ
  pub ep1_tx_busy : ℕ
  pub ep2_tx_active : ℕ
  pub ep0_data : Ptr
  pub ep0_remaining : ℕ
  pub pending_address : ℕ
  pub ep2_tx_len : ℕ
  pub ep2_tx_offset : ℕ
  pub ep2_tx_stage : List ℕ
  pub ep0_dma : List ℕ
  pub ep1_dma : List ℕ
  pub ep2_dma : List ℕ
  pub ep3_dma : List ℕ
  pub dev_addr : ℕ
  pub uep0_tx_len : ℕ
  pub uep0_tx_ctrl : ℕ
  pub uep0_rx_ctrl : ℕ
  pub uep1_tx_len : ℕ
  pub uep1_tx_ctrl : ℕ
  pub uep2_tx_len : ℕ
  pub uep2_tx_ctrl : ℕ
  pub uep3_rx_ctrl : ℕ

unfoldable pub is_configured : UsbDev → Bool
is_configured d = not (d.configured == 0)

unfoldable pub can_send_hint : UsbDev → Bool
unfolding is_configured
can_send_hint d = is_configured d && d.ep1_tx_busy == 0

unfoldable pub can_send_frame : UsbDev → Bool
unfolding is_configured
can_send_frame d = is_configured d && d.ep2_tx_active == 0

-- The eight bytes of a `vp_irq_hint_t` in memory.
unfoldable pub hint_bytes : IrqHint → List ℕ
hint_bytes h =
    h.version
    ∷ h.urgent_flags
    ∷ lo h.pending_bitmap
    ∷ hi h.pending_bitmap
    ∷ lo h.dropped_bitmap
    ∷ hi h.dropped_bitmap
    ∷ lo h.reserved
    ∷ hi h.reserved
    ∷ []

unfoldable pub send_hint : IrqHint → UsbDev → Rc × UsbDev
unfolding can_send_hint hint_bytes
send_hint hint d =
    if can_send_hint d
    then (
      ok,
      record d {
        ep1_dma = write_bytes d.ep1_dma 0 (hint_bytes hint);
        ep1_tx_busy = 1;
        uep1_tx_len = 8;
        uep1_tx_ctrl = t_res_ack;
      },
    )
    else (err, d)

-- `USBDEV_LoadEp2Chunk`: the next 64 bytes of the staged frame, or what is left of it.
unfoldable pub load_ep2_chunk : UsbDev → UsbDev
load_ep2_chunk d =
    let left : ℕ = u16 (d.ep2_tx_len + 65536 - d.ep2_tx_offset) in
    let chunk_len : ℕ = if ltb ep2_size left then ep2_size else left in
    record d {
      ep2_dma = write_bytes d.ep2_dma 0 (read_bytes d.ep2_tx_stage d.ep2_tx_offset chunk_len);
      ep2_tx_offset = u16 (d.ep2_tx_offset + chunk_len);
      uep2_tx_len = chunk_len;
      uep2_tx_ctrl = bit_or (bit_and d.uep2_tx_ctrl not_t_res_mask) t_res_ack;
    }

-- APP_USB_MAX_FRAME_LEN bounds the length.
unfoldable pub send_frame : Ptr → ℕ → UsbDev → Rc × UsbDev
unfolding can_send_frame load_ep2_chunk
send_frame none len d = (err, d)
send_frame (some bytes) len d =
    if (len == 0 || ltb 512 len) || not (can_send_frame d) then (err, d) else (
      ok,
      load_ep2_chunk (record d {
        ep2_tx_stage = write_bytes d.ep2_tx_stage 0 (read_bytes bytes 0 len);
        ep2_tx_len = len;
        ep2_tx_offset = 0;
        ep2_tx_active = 1;
      }),
    )

-- The branch of `USBDEV_HandleTransfer` for an IN token on endpoint 1: the hint was taken.
unfoldable pub ep1_in_done : UsbDev → UsbDev
ep1_in_done d = record d { ep1_tx_busy = 0; uep1_tx_ctrl = t_res_nak }

-- The branch for an IN token on endpoint 2, without the call of `AppTask_KickUsbTx`, which is made
-- where the Boolean is true: a chunk was taken, and it was the last one.
unfoldable pub ep2_in_done : UsbDev → Bool × UsbDev
unfolding load_ep2_chunk
ep2_in_done d = if ltb d.ep2_tx_offset d.ep2_tx_len then (Bool.false, load_ep2_chunk d) else (
  Bool.true,
  record d {
    ep2_tx_active = 0;
    uep2_tx_len = 0;
    uep2_tx_ctrl = bit_or (bit_or (bit_and d.uep2_tx_ctrl t_tog) t_auto_tog) t_res_nak;
  },
)

-- USB_ADDRESS_PENDING_NONE
abbrev pub address_pending_none : ℕ
address_pending_none = 0xff

-- What `USBDEV_ResetDataEndpoints` does on a bus reset.
unfoldable pub reset_data_endpoints : UsbDev → UsbDev
reset_data_endpoints d = record d {
  configured = 0;
  ep1_tx_busy = 0;
  ep2_tx_active = 0;
  ep2_tx_len = 0;
  ep2_tx_offset = 0;
  ep0_data = none;
  ep0_remaining = 0;
  pending_address = address_pending_none;
  dev_addr = 0;
  uep0_tx_len = 0;
  uep0_tx_ctrl = t_res_nak;
  uep0_rx_ctrl = 0;
  uep1_tx_len = 0;
  uep1_tx_ctrl = t_res_nak;
  uep2_tx_len = 0;
  uep2_tx_ctrl = bit_or t_auto_tog t_res_nak;
  uep3_rx_ctrl = 8;
}

-- The context after the `memset` of `USBMUX_DeviceInit` and the reset of the endpoints.
unfoldable pub init : UsbDev
init = record {
  configured = 0;
  ep1_tx_busy = 0;
  ep2_tx_active = 0;
  ep0_data = none;
  ep0_remaining = 0;
  pending_address = address_pending_none;
  ep2_tx_len = 0;
  ep2_tx_offset = 0;
  ep2_tx_stage = replicate 512 0;
  ep0_dma = replicate 64 0;
  ep1_dma = replicate 8 0;
  ep2_dma = replicate 64 0;
  ep3_dma = replicate 64 0;
  dev_addr = 0;
  uep0_tx_len = 0;
  uep0_tx_ctrl = t_res_nak;
  uep0_rx_ctrl = 0;
  uep1_tx_len = 0;
  uep1_tx_ctrl = t_res_nak;
  uep2_tx_len = 0;
  uep2_tx_ctrl = bit_or t_auto_tog t_res_nak;
  uep3_rx_ctrl = 8;
}
