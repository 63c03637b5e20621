-- ===== src/Uart/Manager/Requests/States.antt =====
-- The life cycle of a port: how the control requests of the host move its state.
use ch32v20x_usb_mux_uart_bl.Prelude.{
  ℕ, ◌<◌, ◌≡◌, ◌≢◌, refl, sym, ap, ◌∙◌, subst, Bool, true, false, none, not, ◌==◌, leb,
  if◌then◌else◌, arith, Ptr, List, [], ◌∷◌, zero, suc, length, get_or, set, get_or-set_self,
  get_or-set_ne, ℕ_discrete, dec_lt, Bool-cases, inl, inr,
}
use ch32v20x_usb_mux_uart_bl.Proto.{Hdr, Status}
use ch32v20x_usb_mux_uart_bl.Proto.UartOp
use ch32v20x_usb_mux_uart_bl.Firmware.{Firmware}
use ch32v20x_usb_mux_uart_bl.Usb.Sched.{queue_rsp}
use ch32v20x_usb_mux_uart_bl.Uart.Types.{
  UartPort, UartState, disabled, draining, opened, opening, error, closed,
}
use ch32v20x_usb_mux_uart_bl.Uart.Port.{port_open, port_close}
use ch32v20x_usb_mux_uart_bl.Uart.Manager.{port_at, set_port, init_port, is_open, is_disabled}
use ch32v20x_usb_mux_uart_bl.Uart.Manager.Coding.{
  LineCoding, Parsed, refused, parsed, parse_line_coding,
}
use ch32v20x_usb_mux_uart_bl.Uart.Manager.Requests.{
  queue_status_rsp, reply_port_cap, reply_port_map, reply_stats, without_payload, open_port,
  can_open, is_ok, with_coding, handle_open, handle_set_line_coding, on_coding, reset_rings,
  handle_close, handle_flush_rx, handle_flush_tx, dispatch_ctrl, handle_ctrl,
}
use ch32v20x_usb_mux_uart_bl.Uart.Manager.Requests.Table.{
  port_open-uart, port_close-uart, queue_rsp-uart,
}

-- How one request may move the state of a port.
pub data Moves : UartState → UartState → Type 0 where
  stays : {s : UartState} → Moves s s
  opens_closed : Moves closed opened
  opens_error : Moves error opened
  fails_closed : Moves closed error
  fails_error : Moves error error
  closes : {s : UartState} → s ≢ disabled → Moves s closed

-- The guards of the code allow no other move.
opens : (s : UartState) → can_open s ≡ true → Moves s opened
opens closed e = opens_closed
opens error e = opens_error
opens disabled e = cc
opens opening e = cc
opens opened e = cc
opens draining e = cc

fails : (s : UartState) → can_open s ≡ true → Moves s error
fails closed e = fails_closed
fails error e = fails_error
fails disabled e = cc
fails opening e = cc
fails opened e = cc
fails draining e = cc

is_disabled-ne : (s : UartState) → is_disabled s ≡ false → s ≢ disabled
is_disabled-ne s alive e = cc

-- What a request does to the state of port `i`.
abbrev pub MovesAt : ℕ → Firmware → Firmware → Type 0
MovesAt i fw fw' = Moves (port_at i fw).state (port_at i fw').state

module _ (i : ℕ) (fw : Firmware) where
  MovesAt-same : (fw' : Firmware) → fw'.uart ≡ fw.uart → MovesAt i fw fw'
  MovesAt-same fw' e =
      subst (λ u. Moves (port_at i fw).state (get_or u i (init_port 0)).state) (sym e) stays

  -- A change of the table alone, seen behind changes elsewhere.
  MovesAt-behind :
      (fw' fw'' : Firmware) → fw''.uart ≡ fw'.uart → MovesAt i fw fw' → MovesAt i fw fw''
  MovesAt-behind fw' fw'' e m =
      subst (λ u. Moves (port_at i fw).state (get_or u i (init_port 0)).state) (sym e) m

  MovesAt-if :
      (b : Bool) (x y : Firmware)
      → MovesAt i fw x
      → MovesAt i fw y
      → MovesAt i fw (if b then x else y)
  MovesAt-if true x y m n = m
  MovesAt-if false x y m n = n

  MovesAt-set :
      (j : ℕ) (p : UartPort) (fw' : Firmware)
      → fw'.uart ≡ fw.uart
      → j < length fw.uart
      → Moves (port_at j fw).state p.state
      → MovesAt i fw (set_port j p fw')
  MovesAt-set j p fw' e h m = elim (ℕ_discrete j i) [
    | yes same ↦
        (let s = get_or-set_self fw.uart j p (init_port 0) h in
          let t : get_or (set fw'.uart j p) i (init_port 0) ≡ p =
            ap (λ u. get_or (set u j p) i (init_port 0)) e
            ∙ ap (λ k. get_or (set fw.uart j p) k (init_port 0)) (sym same)
            ∙ s in
          subst (λ k. Moves (port_at k fw).state (get_or (set fw'.uart j p) i (init_port 0)).state)
            same (subst (λ q. Moves (port_at j fw).state (UartPort.state q)) (sym t) m))
    | no other ↦
        (let t =
            ap (λ u. get_or (set u j p) i (init_port 0)) e
            ∙ get_or-set_ne fw.uart j i p (init_port 0) other in
          subst (λ q. Moves (port_at i fw).state (UartPort.state q)) (sym t) stays)
  ]

  status-MovesAt :
      (hdr : Hdr) (s : Status) (fw' : Firmware)
      → MovesAt i fw fw'
      → MovesAt i fw (queue_status_rsp hdr s fw')
  unfolding queue_status_rsp
  status-MovesAt hdr s fw' m =
      MovesAt-behind fw' (queue_rsp hdr s none 0 fw').1 (queue_rsp-uart hdr s none 0 fw') m

set-set : (ps : List UartPort) (j : ℕ) (p q : UartPort) → set (set ps j p) j q ≡ set ps j q
set-set [] j p q = refl
set-set (x ∷ ps) zero p q = refl
set-set (x ∷ ps) (suc j) p q = ap (λ l. x ∷ l) (set-set ps j p q)

module _ (hdr : Hdr) (i : ℕ) (fw : Firmware) (j : ℕ) (h : j < length fw.uart) where
  abbrev p : UartPort
  p = port_at j fw

  -- A port that is set, after it was set before.
  set_twice :
      (q r : UartPort) (fw' : Firmware)
      → fw'.uart ≡ set fw.uart j q
      → Moves p.state r.state
      → MovesAt i fw (set_port j r fw')
  set_twice q r fw' e m =
      MovesAt-behind i fw (set_port j r fw) (set_port j r fw')
        (ap (λ u. set u j r) e ∙ set-set fw.uart j q r) (MovesAt-set i fw j r fw refl h m)

  if_snd-MovesAt :
      (b : Bool) (x y : Status × Firmware)
      → MovesAt i fw x.1
      → MovesAt i fw y.1
      → MovesAt i fw (if b then x else y).1
  if_snd-MovesAt true x y m n = m
  if_snd-MovesAt false x y m n = n

  open_port-MovesAt : (c : LineCoding) → can_open p.state ≡ true → MovesAt i fw (open_port j c fw).1
  unfolding open_port
  open_port-MovesAt c can =
      let q : UartPort = record p { state = opening } in
      let fw' : Firmware = set_port j q fw in
      let (status, fw'') = port_open q.logic_port c.baudrate c.data_bits c.parity c.stop_bits fw' in
      let e = port_open-uart q.logic_port c.baudrate c.data_bits c.parity c.stop_bits fw' in
      if_snd-MovesAt (is_ok status) _ _
        (set_twice q (record (with_coding c q) { state = opened }) fw'' e (opens p.state can))
        (set_twice q (record q { state = error }) fw'' e (fails p.state can))

  same : (s : Status) → MovesAt i fw (queue_status_rsp hdr s fw)
  same s = status-MovesAt i fw hdr s fw stays

  handle_open-MovesAt : (c : LineCoding) → MovesAt i fw (handle_open hdr j c fw)
  unfolding handle_open
  handle_open-MovesAt c = elim (Bool-cases (can_open p.state)) [
    | inl can ↦ rw can (
        status-MovesAt i fw hdr (open_port j c fw).0 (open_port j c fw).1 (open_port-MovesAt c can))
    | inr cannot ↦ rw cannot (same Status.err_invalid_state)
  ]

  handle_set_line_coding-MovesAt :
      (c : LineCoding) → MovesAt i fw (handle_set_line_coding hdr j c fw)
  unfolding handle_set_line_coding
  handle_set_line_coding-MovesAt c =
      let (status, fw') = port_open p.logic_port c.baudrate c.data_bits c.parity c.stop_bits fw in
      let e = port_open-uart p.logic_port c.baudrate c.data_bits c.parity c.stop_bits fw in
      MovesAt-if i fw (not (is_open p.state)) _ _ (same Status.err_uart_not_open) (
        status-MovesAt i fw hdr status
          (if is_ok status then set_port j (with_coding c p) fw' else fw')
          (MovesAt-if i fw (is_ok status) _ _ (MovesAt-set i fw j (with_coding c p) fw' e h stays)
            (MovesAt-same i fw fw' e)))

  handle_close-MovesAt : is_disabled p.state ≡ false → MovesAt i fw (handle_close hdr j fw)
  unfolding handle_close
  handle_close-MovesAt alive =
      let fw' : Firmware = port_close p.logic_port fw in
      let q : UartPort = record (reset_rings (port_at j fw')) { state = closed } in
      status-MovesAt i fw hdr Status.ok (set_port j q fw') (
        MovesAt-set i fw j q fw' (port_close-uart p.logic_port fw) h
          (closes (is_disabled-ne p.state alive)))

  flushes-MovesAt :
      MovesAt i fw (handle_flush_rx hdr j fw) × MovesAt i fw (handle_flush_tx hdr j fw)
  unfolding handle_flush_rx handle_flush_tx
  flushes-MovesAt = (
    status-MovesAt i fw hdr Status.ok _
        (MovesAt-set i fw j (record p { rx_rb = _ }) fw refl h stays),
    status-MovesAt i fw hdr Status.ok _
        (MovesAt-set i fw j (record p { tx_rb = _ }) fw refl h stays),
  )

  replies-MovesAt :
      MovesAt i fw (reply_port_cap hdr p fw)
      × MovesAt i fw (reply_port_map hdr p fw)
      × MovesAt i fw (reply_stats hdr p fw)
  unfolding reply_port_cap reply_port_map reply_stats
  replies-MovesAt = (
    MovesAt-same i fw (reply_port_cap hdr p fw) (queue_rsp-uart hdr Status.ok _ 12 fw),
    MovesAt-same i fw (reply_port_map hdr p fw) (queue_rsp-uart hdr Status.ok _ 12 fw),
    MovesAt-same i fw (reply_stats hdr p fw) (queue_rsp-uart hdr Status.ok _ 20 fw),
  )

  without_payload-MovesAt :
      (n : ℕ) (answer : Firmware → Firmware)
      → MovesAt i fw (answer fw)
      → MovesAt i fw (without_payload hdr n answer fw)
  without_payload-MovesAt n answer m =
      MovesAt-if i fw (not (n == 0)) _ _ (same Status.err_invalid_param) m

  on_coding-MovesAt :
      (c : Parsed) (answer : LineCoding → Firmware → Firmware)
      → ((l : LineCoding) → MovesAt i fw (answer l fw))
      → MovesAt i fw (on_coding hdr c answer fw)
  on_coding-MovesAt (refused s) answer m = same s
  on_coding-MovesAt (parsed l) answer m = m l

  dispatch_ctrl-MovesAt :
      (b : Ptr) (n : ℕ) → is_disabled p.state ≡ false → MovesAt i fw (dispatch_ctrl hdr j b n fw)
  unfolding dispatch_ctrl
  dispatch_ctrl-MovesAt b n alive =
      let r = replies-MovesAt in
      let c : Parsed = parse_line_coding b n in
      MovesAt-if i fw (hdr.opcode == UartOp.get_port_cap) _ _
        (without_payload-MovesAt n (reply_port_cap hdr p) r.0)
        (MovesAt-if i fw (hdr.opcode == UartOp.get_port_map) _ _
          (without_payload-MovesAt n (reply_port_map hdr p) r.1)
          (MovesAt-if i fw (hdr.opcode == UartOp.open_port) _ _
            (on_coding-MovesAt c (handle_open hdr j) handle_open-MovesAt)
            (MovesAt-if i fw (hdr.opcode == UartOp.close_port) _ _ (handle_close-MovesAt alive) (
              MovesAt-if i fw (hdr.opcode == UartOp.set_line_coding) _ _
                (on_coding-MovesAt c (handle_set_line_coding hdr j) handle_set_line_coding-MovesAt)
                (MovesAt-if i fw (hdr.opcode == UartOp.get_stats) _ _
                  (without_payload-MovesAt n (reply_stats hdr p) r.2)
                  (MovesAt-if i fw (hdr.opcode == UartOp.flush_rx) _ _ flushes-MovesAt.0 (
                    MovesAt-if i fw (hdr.opcode == UartOp.flush_tx) _ _ flushes-MovesAt.1
                      (same Status.err_unsupported_opcode))))))))

-- With four ports in the table, a control request moves the state of each port as the life cycle
-- allows: a port opens, or fails to, only from closed or error; it closes from any state but
-- disabled; else it stays as it is.
pub handle_ctrl-Moves :
    (i : ℕ) (hdr : Hdr) (b : Ptr) (n : ℕ) (fw : Firmware)
    → length fw.uart ≡ 4
    → Moves (port_at i fw).state (port_at i (handle_ctrl hdr b n fw)).state
unfolding handle_ctrl
handle_ctrl-Moves i hdr b n fw four = elim (dec_lt hdr.ch_id 4) [
  | no far ↦
      (let e : leb 4 hdr.ch_id ≡ true = ground arith in
        rw e (status-MovesAt i fw hdr Status.err_invalid_param fw stays))
  | yes near ↦
      (let e : leb 4 hdr.ch_id ≡ false = ground arith in
        elim (Bool-cases (is_disabled (port_at hdr.ch_id fw).state)) [
          | inl dead ↦ rw (e, dead) (status-MovesAt i fw hdr Status.err_uart_map_invalid fw stays)
          | inr alive ↦
              rw (e, alive) (dispatch_ctrl-MovesAt hdr i fw hdr.ch_id (omega arith) b n alive)
        ])
]
