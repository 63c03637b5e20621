-- ===== src/Prelude/Memory.antt =====
-- Pointers to bytes and blocks of memory.
use Prim.Native.Nat.{ℕ, zero, suc, ◌+◌, ◌≤◌, ◌<◌}
use mathlib.Core.Path.{◌≡◌, refl, ap, ◌∙◌}
use mathlib.Core.Option.{Option, none, some}
use mathlib.Core.List.{List, [], ◌∷◌, ◌++◌}
use native.Mathlib.Omega.{arith}
use ch32v20x_usb_mux_uart_bl.Prelude.Lists.{length, get_or, take, drop, All, take_append}

-- A result of type `int`: 0 and -1.
pub data Rc : Type 0 where
  ok err : Rc

-- A `const uint8_t *`: null, or the bytes from where it points on.
abbrev pub Ptr : Type 0
Ptr = Option (List ℕ)

-- The bytes behind a pointer; there are none behind null.
abbrev pub bytes_of : Ptr → List ℕ
bytes_of none = []
bytes_of (some bs) = bs

-- `n` bytes from offset `i` on. What lies behind the block reads as 0.
abbrev pub read_bytes : List ℕ → ℕ → ℕ → List ℕ
read_bytes bs i zero = []
read_bytes bs i (suc n) = get_or bs i 0 ∷ read_bytes bs (i + 1) n

-- `memcpy(&dst[i], src, n)` for the `n` bytes of `src`; `dst` keeps its length.
abbrev pub write_bytes : List ℕ → ℕ → List ℕ → List ℕ
write_bytes [] i src = []
write_bytes (x ∷ dst) zero [] = x ∷ dst
write_bytes (x ∷ dst) zero (s ∷ src) = s ∷ write_bytes dst zero src
write_bytes (x ∷ dst) (suc i) src = x ∷ write_bytes dst i src

pub length-read_bytes : (bs : List ℕ) (i n : ℕ) → length (read_bytes bs i n) ≡ n
length-read_bytes bs i zero = refl
length-read_bytes bs i (suc n) = ap suc (length-read_bytes bs (i + 1) n)

pub length-write_bytes :
    (dst : List ℕ) (i : ℕ) (src : List ℕ) → length (write_bytes dst i src) ≡ length dst
length-write_bytes [] i src = refl
length-write_bytes (x ∷ dst) zero [] = refl
length-write_bytes (x ∷ dst) zero (s ∷ src) = ap suc (length-write_bytes dst zero src)
length-write_bytes (x ∷ dst) (suc i) src = ap suc (length-write_bytes dst i src)

-- Every byte of a block is below 256; what lies behind it reads as 0.
abbrev pub IsBytes : List ℕ → Type 0
IsBytes bs = (k : ℕ) → get_or bs k 0 < 256

pub All-IsBytes : (bs : List ℕ) → All (λ x. x < 256) bs → IsBytes bs
All-IsBytes [] h k = omega arith
All-IsBytes (x ∷ bs) h zero = h.0
All-IsBytes (x ∷ bs) h (suc k) = All-IsBytes bs h.1 k

-- A store at the front of a block that is long enough.
pub write_bytes_front :
    (dst src : List ℕ)
    → length src ≤ length dst
    → write_bytes dst 0 src ≡ src ++ drop (length src) dst
write_bytes_front [] [] h = refl
write_bytes_front [] (s ∷ src) h = absurd (omega arith)
write_bytes_front (x ∷ dst) [] h = refl
write_bytes_front (x ∷ dst) (s ∷ src) h = ap (λ l. s ∷ l) (write_bytes_front dst src (omega arith))

-- A store behind a prefix leaves the prefix.
pub write_bytes_behind :
    (pre dst src : List ℕ)
    → write_bytes (pre ++ dst) (length pre) src ≡ pre ++ write_bytes dst 0 src
write_bytes_behind [] dst src = refl
write_bytes_behind (x ∷ pre) dst src = ap (λ l. x ∷ l) (write_bytes_behind pre dst src)

pub read_bytes-cons :
    (x : ℕ) (bs : List ℕ) (i n : ℕ) → read_bytes (x ∷ bs) (suc i) n ≡ read_bytes bs i n
read_bytes-cons x bs i zero = refl
read_bytes-cons x bs i (suc n) =
    let e : suc i + 1 ≡ suc (i + 1) = omega arith in
    ap (λ l. get_or bs i 0 ∷ l)
      (ap (λ k. read_bytes (x ∷ bs) k n) e ∙ read_bytes-cons x bs (i + 1) n)

-- What is read off the front of a block.
pub read_bytes_front : (bs rest : List ℕ) → read_bytes (bs ++ rest) 0 (length bs) ≡ bs
read_bytes_front [] rest = refl
read_bytes_front (x ∷ bs) rest =
    ap (λ l. x ∷ l) (read_bytes-cons x (bs ++ rest) 0 (length bs) ∙ read_bytes_front bs rest)

-- A read in two parts.
pub read_bytes-add :
    (bs : List ℕ) (i a b : ℕ)
    → read_bytes bs i (a + b) ≡ read_bytes bs i a ++ read_bytes bs (i + a) b
read_bytes-add bs i zero b =
    let e : zero + b ≡ b = omega arith in let f : i + 0 ≡ i = omega arith in rw (e, f)
read_bytes-add bs i (suc a) b =
    let e : suc a + b ≡ suc (a + b) = omega arith in
    let f : i + 1 + a ≡ i + suc a = omega arith in
    rw e (
      ap (λ l. get_or bs i 0 ∷ l)
        (read_bytes-add bs (i + 1) a b ∙ ap (λ k. read_bytes bs (i + 1) a ++ read_bytes bs k b) f))

-- The front of a block after a store there.
pub take-write_bytes :
    (dst src : List ℕ) (n : ℕ)
    → length src ≡ n
    → n ≤ length dst
    → take n (write_bytes dst 0 src) ≡ src
take-write_bytes dst src n e h =
    rw (write_bytes_front dst src (omega arith), ← e) (take_append src (drop (length src) dst))
