-- ===== src/Proto/Codec/Crc.antt =====
-- `VP_Crc16`: its range, and the errors that it detects.
use ch32v20x_usb_mux_uart_bl.Prelude.{
  ℕ, zero, suc, ◌+◌, ◌-◌, ◌*◌, ◌/◌, ◌%◌, ◌≤◌, ◌<◌, ◌≡◌, ◌≢◌, refl, sym, ap, ◌∙◌, some, List, arith,
  length, get_or, set, IsU8, IsU16, IsBytes, bit_xor, ◌==◌, Bool-cases, inl, inr, get_or-set_self,
  get_or-set_ne, dec_lt, ℕ_discrete,
}
use ch32v20x_usb_mux_uart_bl.Prelude.Xor.{
  bit_xor_step, bit_xor_cancel, bit_xor_injective_left, bit_xor_injective_right, bit_xor-lt,
}
use ch32v20x_usb_mux_uart_bl.Proto.Codec.{crc_bit, crc_bits, crc_byte, crc_loop, crc16}

pub crc_bit-IsU16 : (c : ℕ) → IsU16 (crc_bit c)
unfolding crc_bit
crc_bit-IsU16 c = ground arith

-- With bit 15 set, doubling drops that bit, and the polynomial sets bit 0.
abbrev folded : ℕ → ℕ
folded c = bit_xor c 0x810

folded-bounds : (c : ℕ) → 0x8000 ≤ c → IsU16 c → (0x8000 ≤ folded c) × IsU16 (folded c)
folded-bounds c h k = (low, bit_xor-lt 16 c 0x810 k (omega arith))
  where
    low : 0x8000 ≤ folded c
    low = elim (dec_lt (folded c) 0x8000) [
      | yes p ↦
          absurd
            (omega (arith, bit_xor_cancel c 0x810, bit_xor-lt 15 (folded c) 0x810 p (omega arith)))
      | no p ↦ omega arith
    ]

crc_bit_low : (c : ℕ) → c < 0x8000 → crc_bit c ≡ c * 2
unfolding crc_bit
crc_bit_low c h = ground arith

crc_bit_high : (c : ℕ) → 0x8000 ≤ c → IsU16 c → crc_bit c ≡ (folded c - 0x8000) * 2 + 1
unfolding crc_bit
crc_bit_high c h k = elim (Bool-cases (c / 0x8000 % 2 == 0)) [
  | inl t ↦ absurd (ground arith)
  | inr t ↦
      (let half : c * 2 / 2 ≡ c = omega arith in
        rw (t, bit_xor_step (c * 2) 0x1021, half) (omega (arith, folded-bounds c h k)))
]

-- A round loses nothing: the result's lowest bit tells which branch was taken.
crc_bit-injective : (c d : ℕ) → IsU16 c → IsU16 d → crc_bit c ≡ crc_bit d → c ≡ d
crc_bit-injective c d hc hd e = elim (dec_lt c 0x8000) [
  | yes p ↦ elim (dec_lt d 0x8000) [
    | yes q ↦ omega (arith, crc_bit_low c p, crc_bit_low d q)
    | no q ↦ absurd (omega (arith, crc_bit_low c p, crc_bit_high d (omega arith) hd))
  ]
  | no p ↦ elim (dec_lt d 0x8000) [
    | yes q ↦ absurd (omega (arith, crc_bit_high c (omega arith) hc, crc_bit_low d q))
    | no q ↦ bit_xor_injective_left c d 0x810 (
        omega (
          arith,
          crc_bit_high c (omega arith) hc,
          crc_bit_high d (omega arith) hd,
          folded-bounds c (omega arith) hc,
          folded-bounds d (omega arith) hd,
        ))
  ]
]

crc_bits-IsU16 : (n c : ℕ) → IsU16 c → IsU16 (crc_bits n c)
unfolding crc_bits
crc_bits-IsU16 zero c h = h
crc_bits-IsU16 (suc n) c h = crc_bits-IsU16 n (crc_bit c) (crc_bit-IsU16 c)

crc_bits-injective : (n c d : ℕ) → IsU16 c → IsU16 d → crc_bits n c ≡ crc_bits n d → c ≡ d
unfolding crc_bits
crc_bits-injective zero c d hc hd e = e
crc_bits-injective (suc n) c d hc hd e =
    crc_bit-injective c d hc hd
      (crc_bits-injective n (crc_bit c) (crc_bit d) (crc_bit-IsU16 c) (crc_bit-IsU16 d) e)

mixed-IsU16 : (c x : ℕ) → IsU16 c → IsU8 x → IsU16 (bit_xor c (x * 256))
mixed-IsU16 c x hc hx = bit_xor-lt 16 c (x * 256) hc (omega arith)

crc_byte-IsU16 : (c x : ℕ) → IsU16 c → IsU8 x → IsU16 (crc_byte c x)
unfolding crc_byte
crc_byte-IsU16 c x hc hx = crc_bits-IsU16 8 (bit_xor c (x * 256)) (mixed-IsU16 c x hc hx)

crc_byte-injective_left :
    (c d x : ℕ) → IsU16 c → IsU16 d → IsU8 x → crc_byte c x ≡ crc_byte d x → c ≡ d
unfolding crc_byte
crc_byte-injective_left c d x hc hd hx e = bit_xor_injective_left c d (x * 256) (
    crc_bits-injective 8 (bit_xor c (x * 256)) (bit_xor d (x * 256)) (mixed-IsU16 c x hc hx)
      (mixed-IsU16 d x hd hx) e)

crc_byte-injective_right :
    (c x y : ℕ) → IsU16 c → IsU8 x → IsU8 y → crc_byte c x ≡ crc_byte c y → x ≡ y
unfolding crc_byte
crc_byte-injective_right c x y hc hx hy e =
    let p : x * 256 ≡ y * 256 = bit_xor_injective_right (x * 256) (y * 256) c (
      crc_bits-injective 8 (bit_xor c (x * 256)) (bit_xor c (y * 256)) (mixed-IsU16 c x hc hx)
        (mixed-IsU16 c y hc hy) e) in
    omega arith

module _ (bs : List ℕ) (hb : IsBytes bs) where
  crc_loop-IsU16 : (i n c : ℕ) → IsU16 c → IsU16 (crc_loop bs i n c)
  unfolding crc_loop
  crc_loop-IsU16 i zero c h = h
  crc_loop-IsU16 i (suc n) c h =
      crc_loop-IsU16 (i + 1) n (crc_byte c (get_or bs i 0))
        (crc_byte-IsU16 c (get_or bs i 0) h (hb i))

  -- A checksum is a 16-bit number.
  pub crc16-IsU16 : (len : ℕ) → IsU16 (crc16 (some bs) len)
  unfolding crc16
  crc16-IsU16 len = crc_loop-IsU16 0 len 0xFFFF (omega arith)

  crc_loop-injective :
      (i n c d : ℕ) → IsU16 c → IsU16 d → crc_loop bs i n c ≡ crc_loop bs i n d → c ≡ d
  unfolding crc_loop
  crc_loop-injective i zero c d hc hd e = e
  crc_loop-injective i (suc n) c d hc hd e =
      let x : ℕ = get_or bs i 0 in
      crc_byte-injective_left c d x hc hd (hb i) (
        crc_loop-injective (i + 1) n (crc_byte c x) (crc_byte d x) (crc_byte-IsU16 c x hc (hb i))
          (crc_byte-IsU16 d x hd (hb i)) e)

  -- A byte that the loop has passed does not matter.
  crc_loop-set_before : (k v i n c : ℕ) → k < i → crc_loop (set bs k v) i n c ≡ crc_loop bs i n c
  unfolding crc_loop
  crc_loop-set_before k v i zero c h = refl
  crc_loop-set_before k v i (suc n) c h =
      rw (get_or-set_ne bs k i v 0 (omega arith))
        (crc_loop-set_before k v (i + 1) n (crc_byte c (get_or bs i 0)) (omega arith))

  crc_loop_detects :
      (k v i n c : ℕ)
      → IsU8 v
      → IsU16 c
      → k < length bs
      → i ≤ k
      → k < i + n
      → crc_loop bs i n c ≡ crc_loop (set bs k v) i n c
      → get_or bs k 0 ≡ v
  unfolding crc_loop
  crc_loop_detects k v i zero c hv hc hk lo up e = absurd (omega arith)
  crc_loop_detects k v i (suc n) c hv hc hk lo up e = elim (ℕ_discrete i k) [
    | yes p ↦
        (let x : ℕ = get_or bs i 0 in
          let at : get_or (set bs k v) i 0 ≡ v = rw p (get_or-set_self bs k v 0 hk) in
          let f =
            crc_loop-injective (i + 1) n (crc_byte c x) (crc_byte c v)
              (crc_byte-IsU16 c x hc (hb i)) (crc_byte-IsU16 c v hc hv)
              (e
                ∙ ap (λ b. crc_loop (set bs k v) (i + 1) n (crc_byte c b)) at
                ∙ crc_loop-set_before k v (i + 1) n (crc_byte c v) (omega arith)) in
          rw (← p) (crc_byte-injective_right c x v hc (hb i) hv f))
    | no p ↦
        (let x : ℕ = get_or bs i 0 in
          let same : get_or (set bs k v) i 0 ≡ x = get_or-set_ne bs k i v 0 (omega arith) in
          crc_loop_detects k v (i + 1) n (crc_byte c x) hv (crc_byte-IsU16 c x hc (hb i)) hk
            (omega arith) (omega arith)
            (e ∙ ap (λ b. crc_loop (set bs k v) (i + 1) n (crc_byte c b)) same))
  ]

  -- `VP_Crc16` detects every change of a single byte: to replace one of the bytes that are
  -- summed by another byte changes the checksum.
  pub crc16_detects_byte :
      (len k v : ℕ)
      → IsU8 v
      → k < len
      → len ≤ length bs
      → get_or bs k 0 ≢ v
      → crc16 (some (set bs k v)) len ≢ crc16 (some bs) len
  unfolding crc16
  crc16_detects_byte len k v hv hk hl ne e = ne (
      crc_loop_detects k v 0 len 0xFFFF hv (omega arith) (omega arith) (omega arith) (omega arith)
        (sym e))
