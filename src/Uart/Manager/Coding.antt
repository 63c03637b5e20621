-- ===== src/Uart/Manager/Coding.antt =====
-- The line coding of uart_manager.c: `UartMgr_ParseLineCoding` and the little-endian helpers.
use ch32v20x_usb_mux_uart_bl.Prelude.{
  ℕ, ◌+◌, ◌*◌, ◌/◌, ◌%◌, ◌≤◌, ◌<◌, ◌≡◌, ◌≢◌, ◌↔◌, ◌⊎◌, refl, sym, ap, bytes_of, false, ◌∙◌, none,
  some, List, [], ◌∷◌, ◌++◌, ◌||◌, ◌&&◌, not, ltb, leb, ◌==◌, inl, inr, Bool-cases, if◌then◌else◌,
  get_or, u8, u32, Ptr, arith, IsU32,
}
use ch32v20x_usb_mux_uart_bl.Proto.{Status}

-- `UartMgr_ReadLe32`: the four bytes share no bit, so `|` is `+`.
unfoldable pub read_le32 : List ℕ → ℕ → ℕ
read_le32 bs i = u32 (
    get_or bs i 0
    + get_or bs (i + 1) 0 * 0x100
    + get_or bs (i + 2) 0 * 0x1_0000
    + get_or bs (i + 3) 0 * 0x100_0000)

-- `UartMgr_WriteLe32`
abbrev pub le32 : ℕ → List ℕ
le32 v = v % 256 ∷ v / 0x100 % 256 ∷ v / 0x1_0000 % 256 ∷ v / 0x100_0000 % 256 ∷ []

-- `UartMgr_WriteLe16`
abbrev pub le16 : ℕ → List ℕ
le16 v = v % 256 ∷ u8 (v / 256) ∷ []

pub record LineCoding : Type 0 where
  pub baudrate : ℕ
  pub data_bits : ℕ
  pub parity : ℕ
  pub stop_bits : ℕ

-- A status other than VP_STATUS_OK, or VP_STATUS_OK with what went through the pointers.
pub data Parsed : Type 0 where
  refused : Status → Parsed
  parsed : LineCoding → Parsed

-- The bytes that a short payload leaves out take default values.
unfoldable pub coding_of : List ℕ → ℕ → LineCoding
unfolding read_le32
coding_of bs len = record {
  baudrate = read_le32 bs 0;
  data_bits = if leb 5 len then get_or bs 4 0 else 8;
  parity = if leb 6 len then get_or bs 5 0 else 0;
  stop_bits = if leb 7 len then get_or bs 6 0 else 1;
}

-- The tests that `UartMgr_ParseLineCoding` makes of the coding that it has read.
unfoldable pub check_coding : List ℕ → ℕ → LineCoding → Parsed
check_coding bs len c =
    if ((c.baudrate == 0 || ltb c.data_bits 8) || ltb 9 c.data_bits) || ltb 2 c.parity
    then refused Status.err_invalid_param
    else (if not (c.stop_bits == 1) && not (c.stop_bits == 2)
        then refused Status.err_invalid_param
        else (if leb 8 len && not (get_or bs 7 0 == 0)
            then refused Status.err_unsupported_opcode
            else parsed c))

unfoldable pub parse_line_coding : Ptr → ℕ → Parsed
unfolding coding_of check_coding
parse_line_coding none len = refused Status.err_invalid_param
parse_line_coding (some bs) len =
    if ltb len 4 then refused Status.err_invalid_param else check_coding bs len (coding_of bs len)

-- A baud rate other than 0, 8 or 9 data bits, no, odd or even parity, and 1 or 2 stop bits.
pub record IsCoding (c : LineCoding) : Type 0 where
  pub baud_pos : 0 < c.baudrate
  pub data_bits_in : (c.data_bits ≡ 8) ⊎ (c.data_bits ≡ 9)
  pub parity_in : c.parity ≤ 2
  pub stop_bits_in : (c.stop_bits ≡ 1) ⊎ (c.stop_bits ≡ 2)

check_coding_sound :
    (bs : List ℕ) (len : ℕ) (c : LineCoding) {d : LineCoding}
    → check_coding bs len c ≡ parsed d
    → (d ≡ c) × IsCoding c
unfolding check_coding
check_coding_sound bs len c e = ground arith

check_coding_complete :
    (bs : List ℕ) (len : ℕ) (c : LineCoding)
    → IsCoding c
    → (len < 8) ⊎ (get_or bs 7 0 ≡ 0)
    → check_coding bs len c ≡ parsed c
unfolding check_coding
check_coding_complete bs len c v h = ground arith

-- The bytes of a coding, as a host sends it with flow control off.
abbrev pub coding_bytes : LineCoding → List ℕ
coding_bytes c = le32 c.baudrate ++ (c.data_bits ∷ c.parity ∷ c.stop_bits ∷ 0 ∷ [])

le32_lem :
    (v : ℕ)
    → IsU32 v
    → u32 (
        v % 256
        + v / 0x100 % 256 * 0x100
        + v / 0x1_0000 % 256 * 0x1_0000
        + v / 0x100_0000 % 256 * 0x100_0000)
      ≡ v
le32_lem v h = omega arith

coding_of-coding_bytes : (c : LineCoding) → IsU32 c.baudrate → coding_of (coding_bytes c) 8 ≡ c
unfolding coding_of
coding_of-coding_bytes c h = λ i. record {
  baudrate = le32_lem c.baudrate h i;
  data_bits = c.data_bits;
  parity = c.parity;
  stop_bits = c.stop_bits;
}

-- What the bytes of a payload say: those that a short payload leaves out stand for 8 data bits, no
-- parity and 1 stop bit.
abbrev pub told : List ℕ → ℕ → LineCoding
told bs len = record {
  baudrate = u32 (
      get_or bs 0 0
      + get_or bs 1 0 * 0x100
      + get_or bs 2 0 * 0x1_0000
      + get_or bs 3 0 * 0x100_0000);
  data_bits = if ltb len 5 then 8 else get_or bs 4 0;
  parity = if ltb len 6 then 0 else get_or bs 5 0;
  stop_bits = if ltb len 7 then 1 else get_or bs 6 0;
}

-- A payload of four bytes or more that tells such a coding, without flow control.
pub record Tells (p : Ptr) (len : ℕ) (c : LineCoding) : Type 0 where
  pub there : p ≢ none
  pub long : 4 ≤ len
  pub coding : c ≡ told (bytes_of p) len
  pub sound : IsCoding c
  pub no_flow_control : (len < 8) ⊎ (get_or (bytes_of p) 7 0 ≡ 0)

coding_of-told : (bs : List ℕ) (len : ℕ) → coding_of bs len ≡ told bs len
unfolding coding_of
coding_of-told bs len = λ i. record {
  baudrate = read_le32 bs 0;
  data_bits = bits i;
  parity = par i;
  stop_bits = stops i;
}
  where
    bits : (if leb 5 len then get_or bs 4 0 else 8) ≡ (if ltb len 5 then 8 else get_or bs 4 0)
    bits = ground arith

    par : (if leb 6 len then get_or bs 5 0 else 0) ≡ (if ltb len 6 then 0 else get_or bs 5 0)
    par = ground arith

    stops : (if leb 7 len then get_or bs 6 0 else 1) ≡ (if ltb len 7 then 1 else get_or bs 6 0)
    stops = ground arith

check_coding_flow :
    (bs : List ℕ) (len : ℕ) (c : LineCoding) {d : LineCoding}
    → check_coding bs len c ≡ parsed d
    → (len < 8) ⊎ (get_or bs 7 0 ≡ 0)
unfolding check_coding
check_coding_flow bs len c e = ground arith

parsed-Tells :
    (p : Ptr) (len : ℕ) (c : LineCoding) → parse_line_coding p len ≡ parsed c → Tells p len c
unfolding parse_line_coding
parsed-Tells none len c e = cc
parsed-Tells (some bs) len c e = elim (Bool-cases (ltb len 4)) [
  | inl short ↦ cc (rw short at e)
  | inr long ↦
      (let check = rw long at e in
        let s = check_coding_sound bs len (coding_of bs len) {d = c} check in
        record {
          there = λ n. cc;
          long = ground (arith, long);
          coding = s.0 ∙ coding_of-told bs len;
          sound = rw s.0 s.1;
          no_flow_control = check_coding_flow bs len (coding_of bs len) check;
        })
]

Tells-parsed :
    (p : Ptr) (len : ℕ) (c : LineCoding) → Tells p len c → parse_line_coding p len ≡ parsed c
unfolding parse_line_coding
Tells-parsed none len c t = absurd (t.there refl)
Tells-parsed (some bs) len c t =
    let long : ltb len 4 ≡ false = ground (arith, t.long) in
    let e : coding_of bs len ≡ c = coding_of-told bs len ∙ sym t.coding in
    rw long (ap (check_coding bs len) e ∙ check_coding_complete bs len c t.sound t.no_flow_control)

-- `UartMgr_ParseLineCoding` accepts a payload, with the coding that its bytes tell, exactly if the
-- payload is there, has four bytes or more, asks for no flow control, and tells a baud rate other than
-- 0, 8 or 9 data bits, a parity of 0, 1 or 2, and 1 or 2 stop bits. No other test is made: parity is
-- accepted with either number of data bits, and so is any baud rate but 0.
pub parse_line_coding_iff :
    (p : Ptr) (len : ℕ) (c : LineCoding) → (parse_line_coding p len ≡ parsed c) ↔ Tells p len c
parse_line_coding_iff p len c = (parsed-Tells p len c, Tells-parsed p len c)

-- The bytes of an accepted coding whose baud rate fits 32 bits are parsed back to it.
pub parse-coding_bytes :
    (c : LineCoding)
    → IsCoding c
    → IsU32 c.baudrate
    → parse_line_coding (some (coding_bytes c)) 8 ≡ parsed c
unfolding parse_line_coding
parse-coding_bytes c v h =
    ap (check_coding (coding_bytes c) 8) (coding_of-coding_bytes c h)
    ∙ check_coding_complete (coding_bytes c) 8 c v (inr refl)
