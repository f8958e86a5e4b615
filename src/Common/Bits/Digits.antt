-- ===== src/Common/Bits/Digits.antt =====
-- The native `bit_and`, `bit_or` and `bit_xor` mean a recursion on binary digits with fuel.
-- One law for all three: equal cuts of both operands are combined apart.
use Prim.Native.Nat.{ℕ, zero, suc, ◌+◌, ◌*◌, ◌/◌, ◌%◌, ◌^◌, ◌≤◌, ◌<◌, digits, bitwise}
use mathlib.Core.Path.{◌≡◌, refl, ap}
use native.Mathlib.Nat.{pow-suc}
use native.Mathlib.Omega.{arith}

module _ (z : ℕ → ℕ) (f : ℕ → ℕ → ℕ) where
  -- Any fuel from the left operand on gives the same digits.
  fuel_free : (n m a b : ℕ) → a ≤ n → a ≤ m → digits z f n a b ≡ digits z f m a b
  fuel_free zero zero a b p q = refl
  fuel_free zero (suc m) zero b p q = refl
  fuel_free zero (suc m) (suc a) b p q = absurd (omega arith)
  fuel_free (suc n) zero zero b p q = refl
  fuel_free (suc n) zero (suc a) b p q = absurd (omega arith)
  fuel_free (suc n) (suc m) zero b p q = refl
  fuel_free (suc n) (suc m) (suc a) b p q =
      omega (arith, fuel_free n m (suc a / 2) (b / 2) (omega arith) (omega arith))

  pub bitwise_step :
      ((b : ℕ) → z b ≡ z (b / 2) * 2 + f 0 (b % 2))
      → (a b : ℕ) → bitwise z f a b ≡ bitwise z f (a / 2) (b / 2) * 2 + f (a % 2) (b % 2)
  bitwise_step zs zero b = zs b
  bitwise_step zs (suc a) b =
      omega (arith, fuel_free a (suc a / 2) (suc a / 2) (b / 2) (omega arith) (omega arith))

-- `op` works digit by digit.
abbrev pub IsDigitwise : (ℕ → ℕ → ℕ) → (ℕ → ℕ → ℕ) → Type 0
IsDigitwise f op = (a b : ℕ) → op a b ≡ op (a / 2) (b / 2) * 2 + f (a % 2) (b % 2)

double : (q k : ℕ) → q * 2 ^ suc k ≡ 2 * (q * 2 ^ k)
double q k = omega (arith, ap (λ (t : ℕ). q * t) (pow-suc 2 k))

module _ (f op : ℕ → ℕ → ℕ) (law : IsDigitwise f op) (at_zero : op 0 0 ≡ 0) where
  pub op_fields :
      (k q r s t : ℕ)
      → r < 2 ^ k
      → t < 2 ^ k
      → op (q * 2 ^ k + r) (s * 2 ^ k + t) ≡ op q s * 2 ^ k + op r t
  op_fields zero q r s t hr ht = ground (arith)
  op_fields (suc k) q r s t hr ht = ground (
    arith,
    law (q * 2 ^ suc k + r) (s * 2 ^ suc k + t),
    law r t,
    double q k,
    double s k,
    double (op q s) k,
    pow-suc 2 k,
    op_fields k q (r / 2) s (t / 2),
  )
