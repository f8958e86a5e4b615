-- ===== src/Common/Bits.antt =====
-- `&`, `|` and `^` on words at variables: each law cuts both operands at the same bit.
mod Digits
use Digits.{bitwise_step, IsDigitwise, op_fields}
use Prim.Native.Nat.{ℕ, zero, suc, ◌+◌, ◌-◌, ◌*◌, ◌/◌, ◌%◌, ◌^◌, ◌≤◌, ◌<◌, min, max}
use Prim.Native.Nat.{bit_and, bit_or, bit_xor, bit_and-bitwise, bit_or-bitwise, bit_xor-bitwise}
use Prim.Native.Nat.{bitwise, differ}
use mathlib.Core.Path.{◌≡◌, refl, ◌∙◌}
use native.Mathlib.Nat.{one-le-pow, pow-suc, div-add-mod, mod-lt, zero-mul}
use native.Mathlib.Omega.{arith}

-- The digit laws of the three operations.
bit_and_step : IsDigitwise min bit_and
bit_and_step a b = simp bit_and-bitwise (bitwise_step (λ y. 0) min (λ y. omega arith) a b)

bit_or_step : IsDigitwise max bit_or
bit_or_step a b = simp bit_or-bitwise (bitwise_step (λ y. y) max (λ y. omega arith) a b)

differ-zero : (b : ℕ) → differ 0 b ≡ b
differ-zero b = refl

bit_xor_step : IsDigitwise differ bit_xor
bit_xor_step a b =
    simp bit_xor-bitwise
      (bitwise_step (λ y. y) differ (λ y. omega (arith, differ-zero (y % 2))) a b)

-- Both operands cut at bit `k`.
pub bit_and_fields :
    (k q r s t : ℕ)
    → r < 2 ^ k
    → t < 2 ^ k
    → bit_and (q * 2 ^ k + r) (s * 2 ^ k + t) ≡ bit_and q s * 2 ^ k + bit_and r t
bit_and_fields = op_fields min bit_and bit_and_step refl

pub bit_or_fields :
    (k q r s t : ℕ)
    → r < 2 ^ k
    → t < 2 ^ k
    → bit_or (q * 2 ^ k + r) (s * 2 ^ k + t) ≡ bit_or q s * 2 ^ k + bit_or r t
bit_or_fields = op_fields max bit_or bit_or_step refl

pub bit_xor_fields :
    (k q r s t : ℕ)
    → r < 2 ^ k
    → t < 2 ^ k
    → bit_xor (q * 2 ^ k + r) (s * 2 ^ k + t) ≡ bit_xor q s * 2 ^ k + bit_xor r t
bit_xor_fields = op_fields differ bit_xor bit_xor_step refl

-- Operations with nothing: fuel stands for the operand.
and_nothing : (n a : ℕ) → a ≤ n → bit_and a 0 ≡ 0
and_nothing n zero h = refl
and_nothing zero (suc a) h = absurd (omega arith)
and_nothing (suc n) (suc a) h =
    omega (arith, bit_and_step (suc a) 0, and_nothing n (suc a / 2) (omega arith))

or_nothing : (n a : ℕ) → a ≤ n → bit_or a 0 ≡ a
or_nothing n zero h = refl
or_nothing zero (suc a) h = absurd (omega arith)
or_nothing (suc n) (suc a) h =
    omega (arith, bit_or_step (suc a) 0, or_nothing n (suc a / 2) (omega arith))

differ_one : (d : ℕ) → d < 2 → differ d 0 ≡ d
differ_one zero h = refl
differ_one (suc zero) h = refl
differ_one (suc (suc d)) h = absurd (omega arith)

xor_nothing : (n a : ℕ) → a ≤ n → bit_xor a 0 ≡ a
xor_nothing n zero h = refl
xor_nothing zero (suc a) h = absurd (omega arith)
xor_nothing (suc n) (suc a) h = ground (
  arith,
  bit_xor_step (suc a) 0,
  differ_one (suc a % 2) (omega arith),
  xor_nothing n (suc a / 2) (omega arith),
)

pub bit_and-zero : (a : ℕ) → bit_and a 0 ≡ 0
bit_and-zero a = and_nothing a a (omega arith)

pub zero-bit_and : (b : ℕ) → bit_and 0 b ≡ 0
zero-bit_and b = bit_and-bitwise 0 b

pub bit_or-zero : (a : ℕ) → bit_or a 0 ≡ a
bit_or-zero a = or_nothing a a (omega arith)

pub zero-bit_or : (b : ℕ) → bit_or 0 b ≡ b
zero-bit_or b = bit_or-bitwise 0 b

pub bit_xor-zero : (a : ℕ) → bit_xor a 0 ≡ a
bit_xor-zero a = xor_nothing a a (omega arith)

-- A mask of `k` ones keeps the `k` low bits.
pub bit_and_ones : (k a : ℕ) → a < 2 ^ k → bit_and a (2 ^ k - 1) ≡ a
bit_and_ones zero a h = ground (arith)
bit_and_ones (suc k) a h = ground (
  arith,
  bit_and_step a (2 ^ suc k - 1),
  pow-suc 2 k,
  one-le-pow k 2,
  bit_and_ones k (a / 2) (omega (arith, pow-suc 2 k)),
)

-- Exclusive or with `k` ones is the complement in `k` bits.
differ_flip : (d : ℕ) → d < 2 → differ d 1 ≡ 1 - d
differ_flip zero h = refl
differ_flip (suc zero) h = refl
differ_flip (suc (suc d)) h = absurd (omega arith)

pub bit_xor_ones : (k a : ℕ) → a < 2 ^ k → bit_xor a (2 ^ k - 1) ≡ 2 ^ k - 1 - a
bit_xor_ones zero a h = ground (arith)
bit_xor_ones (suc k) a h = ground (
  arith,
  bit_xor_step a (2 ^ suc k - 1),
  pow-suc 2 k,
  one-le-pow k 2,
  differ_flip (a % 2) (omega arith),
  bit_xor_ones k (a / 2) (omega (arith, pow-suc 2 k)),
)

pub bit_and_mask : (k a : ℕ) → bit_and a (2 ^ k - 1) ≡ a % 2 ^ k
bit_and_mask k a = ground (
  arith,
  one-le-pow k 2,
  div-add-mod a (2 ^ k),
  mod-lt a {m = 2 ^ k} (one-le-pow k 2 (omega arith)),
  zero-mul (2 ^ k),
  bit_and_fields k (a / 2 ^ k) (a % 2 ^ k) 0 (2 ^ k - 1),
  bit_and-zero (a / 2 ^ k),
  bit_and_ones k (a % 2 ^ k),
)

-- A mask of `n` ones from bit `lo` on.
pub bit_and_window : (w lo n : ℕ) → bit_and w ((2 ^ n - 1) * 2 ^ lo) ≡ w / 2 ^ lo % 2 ^ n * 2 ^ lo
bit_and_window w lo n = ground (
  arith,
  one-le-pow lo 2,
  div-add-mod w (2 ^ lo),
  mod-lt w {m = 2 ^ lo} (one-le-pow lo 2 (omega arith)),
  bit_and_fields lo (w / 2 ^ lo) (w % 2 ^ lo) (2 ^ n - 1) 0,
  bit_and-zero (w % 2 ^ lo),
  bit_and_mask n (w / 2 ^ lo),
)

-- Operands with no common bit are added.
pub bit_or_high : (k q r : ℕ) → r < 2 ^ k → bit_or (q * 2 ^ k) r ≡ q * 2 ^ k + r
bit_or_high k q r h =
    ground (
      arith,
      one-le-pow k 2,
      bit_or_fields k q 0 0 r,
      zero-mul (2 ^ k),
      bit_or-zero q,
      zero-bit_or r,
    )

pub bit_or_low : (k q r : ℕ) → r < 2 ^ k → bit_or r (q * 2 ^ k) ≡ q * 2 ^ k + r
bit_or_low k q r h =
    ground (
      arith,
      one-le-pow k 2,
      bit_or_fields k 0 r q 0,
      zero-mul (2 ^ k),
      bit_or-zero r,
      zero-bit_or q,
    )
