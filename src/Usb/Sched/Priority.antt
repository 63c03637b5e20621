-- ===== src/Usb/Sched/Priority.antt =====
-- `USBTX_Process`: which frame is sent next, and that it arrives.
use ch32v20x_usb_mux_uart_bl.Prelude.{◌≡◌, none}
use ch32v20x_usb_mux_uart_bl.Usb.Tx.{TxCtx, Lane, rsp, evt, bulk, peek_queue}

-- The queues that go before a queue are empty.
abbrev pub IsFirst : Lane → TxCtx → Type 0
IsFirst rsp c = Unit {0}
IsFirst evt c = peek_queue c.rsp_q ≡ none
IsFirst bulk c = (peek_queue c.rsp_q ≡ none) × (peek_queue c.evt_q ≡ none)
