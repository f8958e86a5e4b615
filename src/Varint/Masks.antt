-- ===== src/Varint/Masks.antt =====
-- What is gathered of a word that is masked to its low bytes.
use corelib_cpp.Common.{ℕ, zero, suc, ◌+◌, ◌-◌, ◌*◌, ◌/◌, ◌%◌, ◌^◌, ◌≤◌, ◌<◌, ◌≡◌, refl, arith}
use corelib_cpp.Common.{List, [], ◌∷◌, bit_and, ap, ◌∙◌}
use corelib_cpp.Common.{length, take, All}
use corelib_cpp.Common.Bits.{bit_and_mask}
use corelib_cpp.Common.Bytes.{IsByte, from_le}
use corelib_cpp.Word.{shr, not64, gather7}
use corelib_cpp.Word.Gather.{from_groups, gather7_lem}
use native.Mathlib.Nat.{pow-suc, one-le-pow, mod-eq_of_lt, mod-lt, div-add-mod}
use native.Mathlib.Nat.{add-mul-mod_self_right}
use native.Mathlib.Numerals.{towards_suc}

pub gather7-from_groups :
    (bs : List ℕ) → length bs ≡ 8 → All IsByte bs → gather7 (from_le bs) ≡ from_groups bs
gather7-from_groups (a ∷ b ∷ c ∷ d ∷ e ∷ f ∷ g ∷ h ∷ []) l k =
    gather7_lem a b c d e f g h k.0 k.1.0 k.1.1.0 k.1.1.1.0 k.1.1.1.1.0 k.1.1.1.1.1.0
      k.1.1.1.1.1.1.0 k.1.1.1.1.1.1.1.0
gather7-from_groups bs l k = absurd (omega arith)

-- The first `n` of some bytes, with zeros behind them.
padded : ℕ → List ℕ → List ℕ
padded n [] = []
padded zero (b ∷ bs) = 0 ∷ padded zero bs
padded (suc n) (b ∷ bs) = b ∷ padded n bs

length-padded : (n : ℕ) (bs : List ℕ) → length (padded n bs) ≡ length bs
unfolding padded
length-padded zero [] = refl
length-padded (suc n) [] = refl
length-padded zero (b ∷ bs) = ap suc (length-padded zero bs)
length-padded (suc n) (b ∷ bs) = ap suc (length-padded n bs)

padded-IsByte : (n : ℕ) (bs : List ℕ) → All IsByte bs → All IsByte (padded n bs)
unfolding padded
padded-IsByte zero [] h = tt
padded-IsByte (suc n) [] h = tt
padded-IsByte zero (b ∷ bs) h = (omega arith, padded-IsByte zero bs h.1)
padded-IsByte (suc n) (b ∷ bs) h = (h.0, padded-IsByte n bs h.1)

from_groups-padded : (n : ℕ) (bs : List ℕ) → from_groups (padded n bs) ≡ from_groups (take n bs)
unfolding padded
from_groups-padded zero [] = refl
from_groups-padded (suc n) [] = refl
from_groups-padded zero (b ∷ bs) = omega (arith, from_groups-padded zero bs)
from_groups-padded (suc n) (b ∷ bs) = omega (arith, from_groups-padded n bs)

-- Masking a word to its `n` low bytes.
from_le-padded :
    (n : ℕ) (bs : List ℕ) → All IsByte bs → from_le bs % 256 ^ n ≡ from_le (padded n bs)
unfolding padded
from_le-padded zero [] h = refl
from_le-padded (suc n) [] h = mod-eq_of_lt (one-le-pow (suc n) 256 (omega arith))
from_le-padded zero (b ∷ bs) h = omega (arith, from_le-padded zero bs h.1)
from_le-padded (suc n) (b ∷ bs) h =
    rw (← from_le-padded n bs h.1) (mod_of (from_le bs / m) split below)
  where
    m : ℕ
    m = 256 ^ n

    mod_of : (q : ℕ) {a r : ℕ} → a ≡ r + q * 256 ^ suc n → r < 256 ^ suc n → a % 256 ^ suc n ≡ r
    mod_of q {r = r} e lt =
        ap (λ t. t % 256 ^ suc n) e ∙ add-mul-mod_self_right r q (256 ^ suc n) ∙ mod-eq_of_lt lt

    split : b + 256 * from_le bs ≡ b + 256 * (from_le bs % m) + from_le bs / m * 256 ^ suc n
    split = omega (arith, div-add-mod (from_le bs) m, ap (λ t. from_le bs / m * t) (pow-suc 256 n))

    below : b + 256 * (from_le bs % m) < 256 ^ suc n
    below =
        omega
          (arith, pow-suc 256 n, h.0, mod-lt (from_le bs) {m = m} (one-le-pow n 256 (omega arith)))

-- The mask of `getVarintWindowed`.
low_mask : (n : ℕ) → 1 ≤ n → n ≤ 8 → shr (not64 0) (64 - 8 * n) ≡ 2 ^ (8 * n) - 1
low_mask zero a b = absurd (omega arith)
low_mask (suc zero) a b = refl
low_mask (suc (suc zero)) a b = refl
low_mask (suc (suc (suc zero))) a b = refl
low_mask (suc (suc (suc (suc zero)))) a b = refl
low_mask (suc (suc (suc (suc (suc zero))))) a b = refl
low_mask (suc (suc (suc (suc (suc (suc zero)))))) a b = refl
low_mask (suc (suc (suc (suc (suc (suc (suc zero))))))) a b = refl
low_mask (suc (suc (suc (suc (suc (suc (suc (suc zero)))))))) a b = refl
low_mask (suc (suc (suc (suc (suc (suc (suc (suc (suc n))))))))) a b = absurd (omega arith)

mask_power : (n : ℕ) → 2 ^ (8 * n) ≡ 256 ^ n
mask_power zero = refl
mask_power (suc n) =
    let e : 8 * suc n ≡ 8 * n + 8 = omega arith in
    ap (λ t. 2 ^ t) e ∙ simp towards_suc (omega (arith, mask_power n, pow-suc 256 n))

-- What `getVarintWindowed` gathers of its first `n` bytes.
pub gather7-masked :
    (bs : List ℕ) (n : ℕ)
    → length bs ≡ 8
    → All IsByte bs
    → 1 ≤ n
    → n ≤ 8
    → gather7 (bit_and (from_le bs) (shr (not64 0) (64 - 8 * n))) ≡ from_groups (take n bs)
gather7-masked bs n l k a b =
    ap gather7 (
      ap (bit_and (from_le bs)) (low_mask n a b)
      ∙ bit_and_mask (8 * n) (from_le bs)
      ∙ ap (λ t. from_le bs % t) (mask_power n)
      ∙ from_le-padded n bs k)
    ∙ gather7-from_groups (padded n bs) (length-padded n bs ∙ l) (padded-IsByte n bs k)
    ∙ from_groups-padded n bs
