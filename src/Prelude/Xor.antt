-- ===== src/Prelude/Xor.antt =====
-- The exclusive or at variables: the law of its lowest digit, and what follows by induction on the
-- digits.
use Prim.Native.Nat.{ℕ, zero, suc, ◌+◌, ◌*◌, ◌/◌, ◌%◌, ◌^◌, ◌≤◌, ◌<◌}
use Prim.Native.Nat.{bit_xor, differ, digits, bit_xor-bitwise}
use mathlib.Core.Path.{◌≡◌, refl, sym, ap, ◌∙◌}
use native.Mathlib.Nat.{pow-suc}
use native.Mathlib.Omega.{arith}

abbrev xor_digits : ℕ → ℕ → ℕ → ℕ
xor_digits n a b = digits (λ y. y) differ n a b

-- More fuel than digits makes no difference.
xor_digits_fuel : (n m a b : ℕ) → a ≤ n → a ≤ m → xor_digits n a b ≡ xor_digits m a b
xor_digits_fuel zero zero a b p q = refl
xor_digits_fuel zero (suc m) zero b p q = refl
xor_digits_fuel zero (suc m) (suc a) b p q = absurd (omega arith)
xor_digits_fuel (suc n) zero zero b p q = refl
xor_digits_fuel (suc n) zero (suc a) b p q = absurd (omega arith)
xor_digits_fuel (suc n) (suc m) zero b p q = refl
xor_digits_fuel (suc n) (suc m) (suc a) b p q =
    rw (xor_digits_fuel n m (suc a / 2) (b / 2) (omega arith) (omega arith))

pub zero-bit_xor : (b : ℕ) → bit_xor 0 b ≡ b
zero-bit_xor b = bit_xor-bitwise 0 b

abbrev digit : ℕ → ℕ → ℕ
digit a b = (a + b) % 2

differ-eq-digit : (a b : ℕ) → a < 2 → b < 2 → differ a b ≡ digit a b
differ-eq-digit zero zero h k = refl
differ-eq-digit zero (suc zero) h k = refl
differ-eq-digit (suc zero) zero h k = refl
differ-eq-digit (suc zero) (suc zero) h k = refl
differ-eq-digit zero (suc (suc b)) h k = absurd (omega arith)
differ-eq-digit (suc zero) (suc (suc b)) h k = absurd (omega arith)
differ-eq-digit (suc (suc a)) b h k = absurd (omega arith)

-- The lowest digit of the result, and the rest.
pub bit_xor_step : (a b : ℕ) → bit_xor a b ≡ bit_xor (a / 2) (b / 2) * 2 + (a + b) % 2
bit_xor_step zero b = omega (arith, zero-bit_xor b, zero-bit_xor (b / 2))
bit_xor_step (suc a) b = omega (
  arith,
  bit_xor-bitwise (suc a) b,
  bit_xor-bitwise (suc a / 2) (b / 2),
  xor_digits_fuel a (suc a / 2) (suc a / 2) (b / 2) (omega arith) (omega arith),
  differ-eq-digit (suc a % 2) (b % 2) (omega arith) (omega arith),
)

xor_zero_fuel : (n a : ℕ) → a ≤ n → bit_xor a 0 ≡ a
xor_zero_fuel n zero h = zero-bit_xor 0
xor_zero_fuel zero (suc a) h = absurd (omega arith)
xor_zero_fuel (suc n) (suc a) h =
    omega (arith, bit_xor_step (suc a) 0, xor_zero_fuel n (suc a / 2) (omega arith))

pub bit_xor-zero : (a : ℕ) → bit_xor a 0 ≡ a
bit_xor-zero a = xor_zero_fuel a a (omega arith)

xor_comm_fuel : (n a b : ℕ) → a ≤ n → bit_xor a b ≡ bit_xor b a
xor_comm_fuel n zero b h = zero-bit_xor b ∙ sym (bit_xor-zero b)
xor_comm_fuel zero (suc a) b h = absurd (omega arith)
xor_comm_fuel (suc n) (suc a) b h = omega (
  arith,
  bit_xor_step (suc a) b,
  bit_xor_step b (suc a),
  xor_comm_fuel n (suc a / 2) (b / 2) (omega arith),
)

pub bit_xor_comm : (a b : ℕ) → bit_xor a b ≡ bit_xor b a
bit_xor_comm a b = xor_comm_fuel a a b (omega arith)

-- The same number twice cancels.
xor_cancel_fuel : (n a b : ℕ) → b ≤ n → bit_xor (bit_xor a b) b ≡ a
xor_cancel_fuel n a zero h = bit_xor-zero (bit_xor a 0) ∙ bit_xor-zero a
xor_cancel_fuel zero a (suc b) h = absurd (omega arith)
xor_cancel_fuel (suc n) a (suc b) h =
    let s = bit_xor_step a (suc b) in
    let half : bit_xor a (suc b) / 2 ≡ bit_xor (a / 2) (suc b / 2) = omega (arith, s) in
    let ih = xor_cancel_fuel n (a / 2) (suc b / 2) (omega arith) in
    bit_xor_step (bit_xor a (suc b)) (suc b) ∙ rw (half, ih) (omega (arith, s))

pub bit_xor_cancel : (a b : ℕ) → bit_xor (bit_xor a b) b ≡ a
bit_xor_cancel a b = xor_cancel_fuel b a b (omega arith)

-- So the operation is injective on either side.
pub bit_xor_injective_left : (a b c : ℕ) → bit_xor a c ≡ bit_xor b c → a ≡ b
bit_xor_injective_left a b c h =
    sym (bit_xor_cancel a c) ∙ ap (λ x. bit_xor x c) h ∙ bit_xor_cancel b c

pub bit_xor_injective_right : (a b c : ℕ) → bit_xor c a ≡ bit_xor c b → a ≡ b
bit_xor_injective_right a b c h =
    bit_xor_injective_left a b c (bit_xor_comm a c ∙ h ∙ bit_xor_comm c b)

-- Numbers of `k` digits have a result of `k` digits.
pub bit_xor-lt : (k a b : ℕ) → a < 2 ^ k → b < 2 ^ k → bit_xor a b < 2 ^ k
bit_xor-lt zero a b h k =
    let za : a ≡ 0 = omega arith in let zb : b ≡ 0 = omega arith in rw (za, zb) (omega arith)
bit_xor-lt (suc k) a b ha hb = omega (
  arith,
  pow-suc 2 k,
  bit_xor_step a b,
  bit_xor-lt k (a / 2) (b / 2) (omega (arith, pow-suc 2 k)) (omega (arith, pow-suc 2 k)),
)
