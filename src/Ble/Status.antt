-- ===== src/Ble/Status.antt =====
-- The constants of wchble.h that the BLE files use, and what a status of the BLE library is to the
-- host: `BleLink_MapBleStatus` and `BleHostMgr_MapBleStatus`, which are the same function.
use ch32v20x_usb_mux_uart_bl.Prelude.{ℕ, ◌==◌, ◌||◌, if◌then◌else◌}
use ch32v20x_usb_mux_uart_bl.Proto.{Status}

-- APP_BLE_MAX_LINKS, board_caps.h
abbrev pub max_links : ℕ
max_links = 3

abbrev pub success : ℕ
success = 0

abbrev pub invalid_parameter : ℕ
invalid_parameter = 2

abbrev pub msg_buffer_not_avail : ℕ
msg_buffer_not_avail = 4

abbrev pub ble_mem_alloc_error : ℕ
ble_mem_alloc_error = 0x13

abbrev pub ble_not_connected : ℕ
ble_not_connected = 0x14

abbrev pub ble_pending : ℕ
ble_pending = 0x16

abbrev pub ble_timeout : ℕ
ble_timeout = 23

abbrev pub ble_procedure_complete : ℕ
ble_procedure_complete = 0x1a

abbrev pub gap_connhandle_init : ℕ
gap_connhandle_init = 0xfffe

abbrev pub att_mtu_size : ℕ
att_mtu_size = 23

abbrev pub b_addr_len : ℕ
b_addr_len = 6

abbrev pub att_exchange_mtu_req : ℕ
att_exchange_mtu_req = 2

abbrev pub att_find_info_req : ℕ
att_find_info_req = 4

abbrev pub att_read_by_type_req : ℕ
att_read_by_type_req = 8

abbrev pub att_read_req : ℕ
att_read_req = 0xa

abbrev pub att_read_by_grp_type_req : ℕ
att_read_by_grp_type_req = 0x10

abbrev pub att_write_req : ℕ
att_write_req = 0x12

abbrev pub tgap_disc_scan : ℕ
tgap_disc_scan = 2

abbrev pub tgap_disc_scan_int : ℕ
tgap_disc_scan_int = 5

abbrev pub tgap_disc_scan_wind : ℕ
tgap_disc_scan_wind = 6

abbrev pub tgap_conn_est_int_min : ℕ
tgap_conn_est_int_min = 7

abbrev pub tgap_conn_est_int_max : ℕ
tgap_conn_est_int_max = 8

abbrev pub tgap_conn_est_superv_timeout : ℕ
tgap_conn_est_superv_timeout = 0xd

abbrev pub devdisc_mode_all : ℕ
devdisc_mode_all = 3

unfoldable pub map_ble_status : ℕ → Status
map_ble_status status =
    if status == success
    then Status.ok
    else (if status == invalid_parameter
        then Status.err_invalid_param
        else (if status == ble_not_connected
            then Status.err_ble_not_connected
            else (if status == ble_pending
                then Status.err_busy
                else (if status == msg_buffer_not_avail || status == ble_mem_alloc_error
                    then Status.err_no_resource
                    else (if status == ble_timeout
                        then Status.err_timeout
                        else Status.err_ble_att)))))
