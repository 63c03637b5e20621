-- ===== src/Usb/Dev/Descriptors.antt =====
-- The descriptors of usb_dev_ll.c, byte for byte.
use ch32v20x_usb_mux_uart_bl.Prelude.{ℕ, List, [], ◌∷◌}

abbrev pub dev_desc : List ℕ
dev_desc =
    0x12 ∷ 0x01 ∷ 0x10 ∷ 0x01 ∷ 0xff ∷ 0x00 ∷ 0x00 ∷ 0x40 ∷ 0x86 ∷ 0x1a ∷ 0x80 ∷ 0x20 ∷ 0x00 ∷ 0x01
    ∷ 0x01 ∷ 0x02 ∷ 0x03 ∷ 0x01 ∷ []

abbrev pub cfg_desc : List ℕ
cfg_desc =
    0x09 ∷ 0x02 ∷ 0x27 ∷ 0x00 ∷ 0x01 ∷ 0x01 ∷ 0x00 ∷ 0x80 ∷ 0x32 ∷ 0x09 ∷ 0x04 ∷ 0x00 ∷ 0x00 ∷ 0x03
    ∷ 0xff ∷ 0x00 ∷ 0x00 ∷ 0x00 ∷ 0x07 ∷ 0x05 ∷ 0x81 ∷ 0x03 ∷ 0x08 ∷ 0x00 ∷ 0x01 ∷ 0x07 ∷ 0x05
    ∷ 0x03 ∷ 0x02 ∷ 0x40 ∷ 0x00 ∷ 0x00 ∷ 0x07 ∷ 0x05 ∷ 0x82 ∷ 0x02 ∷ 0x40 ∷ 0x00 ∷ 0x00 ∷ []

abbrev pub lang_desc : List ℕ
lang_desc = 0x04 ∷ 0x03 ∷ 0x09 ∷ 0x04 ∷ []

abbrev pub manu_desc : List ℕ
manu_desc =
    0x14 ∷ 0x03 ∷ 0x43 ∷ 0x00 ∷ 0x6f ∷ 0x00 ∷ 0x64 ∷ 0x00 ∷ 0x65 ∷ 0x00 ∷ 0x78 ∷ 0x00 ∷ 0x20 ∷ 0x00
    ∷ 0x4c ∷ 0x00 ∷ 0x61 ∷ 0x00 ∷ 0x62 ∷ 0x00 ∷ []

abbrev pub prod_desc : List ℕ
prod_desc =
    0x22 ∷ 0x03 ∷ 0x43 ∷ 0x00 ∷ 0x48 ∷ 0x00 ∷ 0x33 ∷ 0x00 ∷ 0x32 ∷ 0x00 ∷ 0x56 ∷ 0x00 ∷ 0x32 ∷ 0x00
    ∷ 0x30 ∷ 0x00 ∷ 0x38 ∷ 0x00 ∷ 0x20 ∷ 0x00 ∷ 0x4d ∷ 0x00 ∷ 0x75 ∷ 0x00 ∷ 0x78 ∷ 0x00 ∷ 0x20
    ∷ 0x00 ∷ 0x44 ∷ 0x00 ∷ 0x65 ∷ 0x00 ∷ 0x76 ∷ 0x00 ∷ []

abbrev pub serial_desc : List ℕ
serial_desc =
    0x12 ∷ 0x03 ∷ 0x30 ∷ 0x00 ∷ 0x30 ∷ 0x00 ∷ 0x30 ∷ 0x00 ∷ 0x31 ∷ 0x00 ∷ 0x54 ∷ 0x00 ∷ 0x33 ∷ 0x00
    ∷ 0x30 ∷ 0x00 ∷ 0x30 ∷ 0x00 ∷ []
