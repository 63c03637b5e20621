-- ===== src/Lib.antt =====
-- Verification of the USB / UART / BLE multiplexer firmware for the CH32V208, App/usb_mux_dev.
--
-- A USB host talks to the firmware in frames: a header of 24 bytes with a checksum, and a payload of
-- at most 488 bytes. The parts, and how they interact:
--
-- * Bytes from endpoint 3 go into a ring (USBRX_PushBytes); USBRX_Process takes them out, finds the
--   frames, and hands each to VendorRouter_Dispatch. Usb/Rx.antt models usb/usb_rx_fsm.c, a function
--   for each stage of the loop body; RingBuffer.antt models common/ring_buffer.c; Proto.antt and
--   Proto/Codec.antt model proto/vendor_proto.h and proto/vendor_proto_codec.c.
-- * Router.antt models proto/vendor_router.c. UART control requests go to UartMgr_HandleCtrl
--   (Uart/Manager/Requests.antt), UART data to UartMgr_WriteFromHost (Uart/Manager.antt), both of
--   uart/uart_manager.c; system requests are answered at once, and
--   BLE management requests go to BleHostMgr_HandleMgmt (Ble/Mgmt.antt).
-- * Ble/Host.antt models the slots of ble/ble_host_manager.c and the events and messages of the BLE
--   library, Ble/Link.antt the links of ble/ble_link_fsm.c with the requests that begin a GATT
--   procedure, Ble/Gatt.antt the messages that carry a procedure on and end it, Ble/Report.antt the
--   events for the host, Ble/AttCache.antt ble/ble_att_cache.c. A link waits for one procedure at a
--   time. What a call of the BLE library returns is a parameter, a function of all calls so far.
--   Ble/History.antt has the manager over any sequence of requests, events and messages.
-- * The ports keep a ring each way between the host and the interrupt handlers. Uart/Port.antt models
--   the set-up of a USART in uart/uart_port_ch32v20x.c, Uart/Irq.antt its interrupt handler, and
--   Uart/MapConfig.antt the table of ports. Uart/History.antt has the ports over any sequence of
--   requests, data and interrupts.
-- * Responses, events and data are queued as encoded frames (USBTX_QueueFrame) in three queues of
--   four. USBTX_Process tells the host of them with a hint on endpoint 1 and sends the next frame on
--   endpoint 2. Usb/Tx.antt has the queues, Usb/Sched.antt the functions of usb/usb_tx_sched.c that
--   other parts call, Usb/Dev.antt and Usb/Dev/Control.antt the endpoints of usb/usb_dev_ll.c.
-- * App/Interrupts.antt models the interrupt handler of usb/usb_dev_ll.c, App.antt the task of
--   app_task.c that runs the parts on its events, App/Start.antt the set-up in app_init.c.
--   App/History.antt has the whole firmware over any sequence of task events, interrupts and events
--   of the BLE library; App/Sound.antt and its children follow the state that the parts share.
-- * Heartbeat.antt models heartbeat.c, AppLog.antt and AppLog/Task.antt app_log.c with its task,
--   EventQueue.antt and Stats.antt the files of common of these names.
--
-- The state that the parts share is the record of Firmware.antt; handlers take it and return it. The
-- calls of the peripheral library, of the TMOS scheduler and of the BLE library are recorded in order
-- (Hal.antt); their effect is not modelled. Numbers are natural numbers, and every store of a machine
-- word writes its wrap-around out (u8, u16, u32). A pointer to bytes is null or the bytes from where it
-- points on. A queue of the scheduler is named by its lane, and a context that the code keeps in a
-- static variable is passed; null pointers to either do not occur.
--
-- USBRX_Process is a loop on fuel, one more than the bytes in the ring: each round takes a byte, and
-- nothing is added while it runs. The other loops are structural. Each step of a handler is atomic in
-- the model; interrupt handlers come between handlers, as calls of their own functions.
--
-- Not modelled: main.c, the registers and library configurations that app_init.c sets, the clock and
-- mode registers of the USB controller, the log lines that the parts print, and the vendor's
-- libraries.
--
-- Prelude.antt and its children have the shared lists, machine words, memory blocks and circular
-- buffers, Fifo.antt the specification of a bounded queue. Proofs stand below the module that they
-- are about, under what they prove; Examples.antt applies the theorems to concrete inputs.
pub mod Prelude
pub mod Fifo
pub mod RingBuffer
pub mod Proto
pub mod Usb
pub mod Hal
pub mod Uart
pub mod Ble
pub mod Firmware
pub mod Router
pub mod EventQueue
pub mod Stats
pub mod Heartbeat
pub mod AppLog
pub mod App
mod Examples
