-- ===== src/Usb/Rx.antt =====
-- App/usb_mux_dev/usb/usb_rx_fsm.c: the receive state machine. What a frame is handed to is a
-- parameter of the module, with the state that it works on: `VendorRouter_Dispatch` in the firmware.
pub mod Parse
pub mod Invariant
pub mod Safety
pub mod Drain
pub mod Frame
pub mod Wire
pub mod Delivery
use ch32v20x_usb_mux_uart_bl.Prelude.{
  ℕ, zero, suc, ◌+◌, ◌-◌, Bool, true, false, Option, none, some, List, [], ◌∷◌, ◌++◌, not, ltb, leb,
  ◌==◌, if◌then◌else◌, get_or, set, drop, replicate, u16, Rc, ok, err, Ptr, read_bytes, write_bytes,
}
use ch32v20x_usb_mux_uart_bl.Proto.{Hdr, vp_magic, vp_version, vp_header_len}
use ch32v20x_usb_mux_uart_bl.Proto.Codec.{deserialize_header, crc16}
use ch32v20x_usb_mux_uart_bl.RingBuffer
use ch32v20x_usb_mux_uart_bl.RingBuffer.{RingBuffer}

-- APP_USB_MAX_FRAME_LEN and USBRX_RAW_RING_SIZE
abbrev pub max_frame_len : ℕ
max_frame_len = 512

abbrev pub raw_ring_size : ℕ
raw_ring_size = 1024

-- `usb_rx_state_t`
pub data RxState : Type 0 where
  idle header payload dispatching dropping : RxState

-- `usb_rx_ctx_t`
pub record RxCtx : Type 0 where
  pub state : RxState
  pub raw_rb : RingBuffer
  pub frame_buf : List ℕ
  pub frame_len : ℕ
  pub frame_target_len : ℕ
  pub drop_remaining : ℕ
  pub hdr : Hdr

-- `USBRX_ParseHeader` reads the fields at the offsets of `VP_DeserializeHeader`; then it makes the
-- tests in this order. `*hdr` is written before the tests, so it is returned in any case.
unfoldable pub check_header : List ℕ → Hdr → Rc
check_header buf h =
    if not (h.magic == vp_magic)
    then err
    else (if not (h.version == vp_version)
        then err
        else (if not (h.header_len == vp_header_len)
            then err
            else (if not (h.total_len == u16 (h.header_len + h.payload_len))
                then err
                else (if ltb max_frame_len h.total_len
                    then err
                    else (if not (
                          crc16 (some (set (set (read_bytes buf 0 24) 20 0) 21 0)) 24
                          == h.header_crc16)
                        then err
                        else ok)))))

unfoldable pub parse_header : List ℕ → Rc × Hdr
parse_header buf = (check_header buf (deserialize_header buf), deserialize_header buf)

-- `USBRX_ResetFrame`
unfoldable pub reset_frame : RxCtx → RxCtx
reset_frame c = record c {
  frame_len = 0;
  frame_target_len = vp_header_len;
  drop_remaining = 0;
  state = idle;
}

-- `USBRX_ShiftHeaderWindow`
unfoldable pub shift_header_window : RxCtx → RxCtx
shift_header_window c = if c.frame_len == 0 then c else record c {
  frame_buf = write_bytes c.frame_buf 0 (read_bytes c.frame_buf 1 (c.frame_len - 1));
  frame_len = c.frame_len - 1;
}

abbrev blank_hdr : Hdr
blank_hdr = deserialize_header []

-- `USBRX_Init`
unfoldable pub init : RxCtx
unfolding reset_frame deserialize_header
init = reset_frame (record {
  state = idle;
  raw_rb = RingBuffer.init (some (replicate 1024 0)) raw_ring_size;
  frame_buf = replicate 512 0;
  frame_len = 0;
  frame_target_len = 0;
  drop_remaining = 0;
  hdr = blank_hdr;
})

-- `USBRX_PushBytes` without the call of `AppTask_KickUsbRx`, which is made where the Boolean is true.
unfoldable pub push_bytes : Ptr → ℕ → RxCtx → Bool × RxCtx
push_bytes none len c = (false, c)
push_bytes (some bytes) len c =
    if len == 0
    then (false, c)
    else (true, record c { raw_rb = (RingBuffer.write c.raw_rb (some bytes) len).1 })

-- The byte goes to `frame_buf[frame_len++]`.
unfoldable pub append_byte : ℕ → RxCtx → RxCtx
append_byte x c = record c {
  frame_buf = set c.frame_buf c.frame_len x;
  frame_len = u16 (c.frame_len + 1);
}

-- A new frame begins with the first byte after the idle state.
unfoldable pub begin_frame : RxCtx → RxCtx
begin_frame c = elim c.state [
  | idle ↦ record c { state = header; frame_len = 0; frame_target_len = vp_header_len }
  | _ ↦ c
]

unfoldable pub drop_byte : RxCtx → RxCtx
unfolding reset_frame
drop_byte c =
    let left : ℕ = if ltb 0 c.drop_remaining then c.drop_remaining - 1 else c.drop_remaining in
    if left == 0
    then reset_frame (record c { drop_remaining = left })
    else record c { drop_remaining = left }

-- What follows from the parse of the header window. A header that is refused costs one byte: the
-- window moves on.
unfoldable pub take_header : Rc × Hdr → RxCtx → RxCtx
unfolding shift_header_window
take_header (err, h) c = shift_header_window (record c { hdr = h })
take_header (ok, h) c = record c {
  hdr = h;
  frame_target_len = h.total_len;
  state = if h.total_len == vp_header_len then dispatching else payload;
}

-- The header stage: nothing is done before the window is full.
unfoldable pub header_stage : RxCtx → RxCtx
unfolding take_header
header_stage c =
    if ltb c.frame_len vp_header_len then c else take_header (parse_header c.frame_buf) c

-- The payload stage: the frame is complete.
unfoldable pub payload_stage : RxCtx → RxCtx
payload_stage c = elim c.state [
  | payload ↦ (if leb c.frame_target_len c.frame_len then record c { state = dispatching } else c)
  | _ ↦ c
]

-- What one byte does to the context before the frame is handed on. After a `continue` in the header
-- stage the state is still `header`, which the later stages leave alone.
unfoldable pub accept_byte : ℕ → RxCtx → RxCtx
unfolding begin_frame append_byte
accept_byte x c =
    let c' : RxCtx = append_byte x (begin_frame c) in
    elim c'.state [ header ↦ payload_stage (header_stage c') | _ ↦ payload_stage c' ]

module _ {W : Type 0} (dispatch : Hdr → Ptr → ℕ → W → W) where
  -- The last stage: a complete frame is handed on, and the machine is idle again.
  unfoldable pub dispatch_stage : RxCtx → W → RxCtx × W
  unfolding reset_frame
  dispatch_stage c w = elim c.state [
    | dispatching ↦ (reset_frame c, dispatch c.hdr (some (drop 24 c.frame_buf)) c.hdr.payload_len w)
    | _ ↦ (c, w)
  ]

  -- The body of the loop of `USBRX_Process`, for the byte that was read.
  unfoldable pub process_byte : ℕ → RxCtx → W → RxCtx × W
  unfolding begin_frame
  process_byte x c w = elim (begin_frame c).state [
    | dropping ↦ (drop_byte (begin_frame c), w)
    | _ ↦ dispatch_stage (accept_byte x c) w
  ]

  -- The loop of `USBRX_Process`, with fuel.
  process_loop : ℕ → RxCtx → W → RxCtx × W
  process_loop zero c w = (c, w)
  process_loop (suc fuel) c w =
      let (x, rb) = RingBuffer.pop_byte c.raw_rb in
      elim x [
        | none ↦ (record c { raw_rb = rb }, w)
        | some b ↦
            (let (c', w') = process_byte b (record c { raw_rb = rb }) w in process_loop fuel c' w')
      ]

  -- `USBRX_Process`: there is no producer in the loop, so the bytes in the ring bound its rounds.
  unfoldable pub process : RxCtx → W → RxCtx × W
  unfolding process_loop
  process c w = process_loop (RingBuffer.count c.raw_rb + 1) c w
