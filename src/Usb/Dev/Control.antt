-- ===== src/Usb/Dev/Control.antt =====
-- The control endpoint of usb_dev_ll.c: standard requests and the data stage on endpoint 0.
use ch32v20x_usb_mux_uart_bl.Prelude.{
  ℕ, ◌-◌, ◌/◌, Option, none, some, List, not, ltb, ◌==◌, if◌then◌else◌, get_or, set, drop, length,
  u8, Ptr, bytes_of, bit_and, bit_or, bit_xor, read_bytes, write_bytes,
}
use ch32v20x_usb_mux_uart_bl.Proto.Codec.{read_le16}
use ch32v20x_usb_mux_uart_bl.Usb.Dev.{UsbDev, t_tog, t_res_nak, t_res_ack, address_pending_none}
use ch32v20x_usb_mux_uart_bl.Usb.Dev.Descriptors.{
  dev_desc, cfg_desc, lang_desc, manu_desc, prod_desc, serial_desc,
}

-- `usb_setup_pkt_t`
pub record SetupPkt : Type 0 where
  pub request_type : ℕ
  pub request : ℕ
  pub value : ℕ
  pub index : ℕ
  pub wlength : ℕ

-- The packet in the first eight bytes of `g_ep0_dma`.
unfoldable pub setup_of : List ℕ → SetupPkt
unfolding read_le16
setup_of bs = record {
  request_type = get_or bs 0 0;
  request = get_or bs 1 0;
  value = read_le16 bs 2;
  index = read_le16 bs 4;
  wlength = read_le16 bs 6;
}

-- `USBDEV_LoadEp0Tx`
unfoldable pub load_ep0_tx : Ptr → ℕ → UsbDev → UsbDev
load_ep0_tx src len d = record d {
  ep0_dma = elim src [ none ↦ d.ep0_dma | some bs ↦ write_bytes d.ep0_dma 0 (read_bytes bs 0 len) ];
  uep0_tx_len = len;
  uep0_tx_ctrl = bit_or (bit_and d.uep0_tx_ctrl t_tog) t_res_ack;
  uep0_rx_ctrl = bit_or (bit_and d.uep0_rx_ctrl t_tog) 0;
}

-- `USBDEV_ContinueEp0Tx`
unfoldable pub continue_ep0_tx : UsbDev → UsbDev
unfolding load_ep0_tx
continue_ep0_tx d =
    if d.ep0_remaining == 0
    then load_ep0_tx none 0 d
    else (let chunk_len : ℕ = if ltb 64 d.ep0_remaining then 64 else d.ep0_remaining in
        let d' : UsbDev = load_ep0_tx d.ep0_data chunk_len d in
        record d' {
          ep0_data = some (drop chunk_len (bytes_of d.ep0_data));
          ep0_remaining = d.ep0_remaining - chunk_len;
        })

-- `USBDEV_StartEp0Data`
unfoldable pub start_ep0_data : List ℕ → ℕ → UsbDev → UsbDev
unfolding continue_ep0_tx
start_ep0_data src len d = continue_ep0_tx (record d {
  ep0_data = some src;
  ep0_remaining = len;
  uep0_tx_ctrl = bit_or t_tog t_res_nak;
  uep0_rx_ctrl = bit_or t_tog 0;
})

-- `USBDEV_StallEp0`: the handshake code 3 is STALL, both ways.
unfoldable pub stall_ep0 : UsbDev → UsbDev
stall_ep0 d = record d { uep0_tx_ctrl = bit_or t_tog 3; uep0_rx_ctrl = bit_or t_tog 3 }

-- The descriptor that a GET_DESCRIPTOR asks for by its type and index.
unfoldable pub descriptor : ℕ → ℕ → Option (List ℕ)
descriptor kind index =
    if kind == 1
    then some dev_desc
    else (if kind == 2
        then some cfg_desc
        else (if kind == 3
            then (if index == 0
                then some lang_desc
                else (if index == 1
                    then some manu_desc
                    else (if index == 2
                        then some prod_desc
                        else (if index == 3 then some serial_desc else none))))
            else none))

-- The part of `USBDEV_HandleStandardRequest` that answers GET_DESCRIPTOR.
unfoldable pub get_descriptor : SetupPkt → UsbDev → UsbDev
unfolding descriptor start_ep0_data stall_ep0
get_descriptor setup d = elim (descriptor (u8 (setup.value / 256)) (u8 setup.value)) [
  | none ↦ stall_ep0 d
  | some desc ↦
      (start_ep0_data desc (if ltb setup.wlength (length desc) then setup.wlength else length desc)
        d)
]

-- `USBDEV_HandleStandardRequest`
unfoldable pub handle_standard_request : SetupPkt → UsbDev → UsbDev
unfolding get_descriptor load_ep0_tx start_ep0_data stall_ep0
handle_standard_request setup d =
    if setup.request == 6
    then get_descriptor setup d
    else (if setup.request == 5
        then load_ep0_tx none 0 (record d { pending_address = bit_and setup.value 0x7f })
        else (if setup.request == 9
            then load_ep0_tx none 0 (record d { configured = u8 setup.value })
            else (if setup.request == 8
                then (let dma : List ℕ = set d.ep0_dma 0 d.configured in
                    start_ep0_data dma 1 (record d { ep0_dma = dma }))
                else (if setup.request == 0
                    then (let dma : List ℕ = set (set d.ep0_dma 0 0) 1 0 in
                        start_ep0_data dma 2 (record d { ep0_dma = dma }))
                    else stall_ep0 d))))

-- `USBDEV_HandleEp0Setup`
unfoldable pub handle_ep0_setup : UsbDev → UsbDev
unfolding setup_of handle_standard_request stall_ep0
handle_ep0_setup d =
    let setup : SetupPkt = setup_of d.ep0_dma in
    let d' : UsbDev = record d {
      ep0_data = none;
      ep0_remaining = 0;
      uep0_tx_ctrl = bit_or t_tog t_res_nak;
      uep0_rx_ctrl = bit_or t_tog 0;
    } in
    if not (bit_and setup.request_type 0x60 == 0)
    then stall_ep0 d'
    else handle_standard_request setup d'

-- The address that was set takes effect after the status stage.
abbrev pub apply_address : UsbDev → UsbDev
apply_address d =
    if not (d.pending_address == address_pending_none)
    then record d { dev_addr = d.pending_address; pending_address = address_pending_none }
    else d

-- `USBDEV_HandleEp0In`
unfoldable pub handle_ep0_in : UsbDev → UsbDev
unfolding continue_ep0_tx
handle_ep0_in d =
    let a : UsbDev = apply_address d in
    if ltb 0 a.ep0_remaining
    then continue_ep0_tx (record a { uep0_tx_ctrl = bit_xor a.uep0_tx_ctrl t_tog })
    else record a { uep0_tx_len = 0; uep0_tx_ctrl = t_res_nak; uep0_rx_ctrl = 0 }

-- The branch of `USBDEV_HandleTransfer` for an OUT token on endpoint 0: the status stage.
unfoldable pub ep0_out_done : UsbDev → UsbDev
ep0_out_done d = record d { uep0_rx_ctrl = 0 }
