-- ===== src/Varint/Window.antt =====
-- How one word finds the end of a varint: the lowest clear continuation bit.
use corelib_cpp.Common.{ℕ, zero, suc, ◌+◌, ◌-◌, ◌*◌, ◌/◌, ◌%◌, ◌^◌, ◌≤◌, ◌<◌, ◌≡◌, refl, arith}
use corelib_cpp.Common.{List, [], ◌∷◌, ltb, if◌then◌else◌, bit_and, ap, ap₂, ◌∙◌}
use corelib_cpp.Common.{length, take, drop, All, inl, inr, lt_or_ge, replicate}
use corelib_cpp.Common.{lt→ltb, ge→ltb}
use corelib_cpp.Common.Bits.{bit_and_window, bit_and_fields}
use corelib_cpp.Common.Bytes.{IsByte, from_le, from_le-lt}
use corelib_cpp.Word.Gather.{from_groups}
use corelib_cpp.Varint.{got, countr_zero}
use corelib_cpp.Varint.Spec.{parse}
use native.Mathlib.Nat.{pow-suc}

-- The place of the first byte below 128.
unfoldable pub first_clear : List ℕ → ℕ
first_clear [] = 0
first_clear (b ∷ bs) = if ltb b 128 then 0 else suc (first_clear bs)

pub first_clear-le : (bs : List ℕ) → first_clear bs ≤ length bs
unfolding first_clear
first_clear-le [] = omega arith
first_clear-le (b ∷ bs) = ground (arith, first_clear-le bs)

-- 128 in the place of every byte below 128, 0 elsewhere.
abbrev pub clear_top : ℕ → ℕ
clear_top b = if ltb b 128 then 128 else 0

pub tops : List ℕ → List ℕ
tops [] = []
tops (b ∷ bs) = clear_top b ∷ tops bs

clear_top_lem : (b : ℕ) → b < 256 → bit_and (255 - b) 128 ≡ clear_top b
clear_top_lem b h = ground (arith, bit_and_window (255 - b) 7 1)

-- The complement, cut to the continuation bits.
pub complement_tops :
    (bs : List ℕ)
    → All IsByte bs
    → bit_and (256 ^ length bs - 1 - from_le bs) (from_le (replicate (length bs) 128))
      ≡ from_le (tops bs)
unfolding tops
complement_tops [] h = refl
complement_tops (b ∷ bs) h =
    rw (whole, tail)
      (bit_and_fields 8 _ (255 - b) _ 128 (omega arith) (omega arith)
        ∙ omega (arith, complement_tops bs h.1, clear_top_lem b h.0))
  where
    whole :
        256 ^ suc (length bs) - 1 - from_le (b ∷ bs)
        ≡ (256 ^ length bs - 1 - from_le bs) * 2 ^ 8 + (255 - b)
    whole = omega (arith, pow-suc 256 (length bs), from_le-lt bs h.1, h.0)

    tail :
        128 + 256 * from_le (replicate (length bs) 128)
        ≡ from_le (replicate (length bs) 128) * 2 ^ 8 + 128
    tail = omega arith

-- The lowest set bit of that is in the first byte below 128.
countr_zero-even : (k r : ℕ) → countr_zero (suc k) (2 * r) ≡ 1 + countr_zero k r
unfolding countr_zero
countr_zero-even k r =
    let even : 2 * r % 2 ≡ 0 = omega arith in
    let halved : 2 * r / 2 ≡ r = omega arith in rw (even, halved)

same_count : (k m w x : ℕ) → k ≡ m → w ≡ x → countr_zero k w ≡ countr_zero m x
same_count k m w x p q = ap₂ countr_zero p q

countr_zero-shift : (n k r : ℕ) → countr_zero (n + k) (2 ^ n * r) ≡ n + countr_zero k r
countr_zero-shift zero k r =
    same_count (0 + k) k (1 * r) r (omega arith) (omega arith) ∙ omega arith
countr_zero-shift (suc n) k r =
    same_count (suc n + k) (suc (n + k)) (2 ^ suc n * r) (2 * (2 ^ n * r)) (omega arith)
      (omega (arith, ap (λ t. t * r) (pow-suc 2 n)))
    ∙ countr_zero-even (n + k) (2 ^ n * r)
    ∙ omega (arith, countr_zero-shift n k r)

countr_zero-odd : (k r : ℕ) → countr_zero (suc k) (1 + 2 * r) ≡ 0
unfolding countr_zero
countr_zero-odd k r = ground arith

pub first_clear_at :
    (bs : List ℕ)
    → first_clear bs < length bs
    → countr_zero (8 * length bs) (from_le (tops bs)) ≡ 8 * first_clear bs + 7
unfolding first_clear tops
first_clear_at [] h = absurd (omega arith)
first_clear_at (b ∷ bs) h = elim (lt_or_ge b 128) [
  | inl clear ↦ rw (lt→ltb b 128 clear) (
      same_count (8 * suc (length bs)) (7 + suc (8 * length bs)) (128 + 256 * from_le (tops bs))
        (2 ^ 7 * (1 + 2 * from_le (tops bs))) (omega arith) (omega arith)
      ∙ countr_zero-shift 7 (suc (8 * length bs)) (1 + 2 * from_le (tops bs))
      ∙ omega (arith, countr_zero-odd (8 * length bs) (from_le (tops bs))))
  | inr marked ↦ rw (ge→ltb b 128 marked) (
      same_count (8 * suc (length bs)) (8 + 8 * length bs) (0 + 256 * from_le (tops bs))
        (2 ^ 8 * from_le (tops bs)) (omega arith) (omega arith)
      ∙ countr_zero-shift 8 (8 * length bs) (from_le (tops bs))
      ∙ omega (arith, first_clear_at bs (rest marked)))
]
  where
    rest : 128 ≤ b → first_clear bs < length bs
    rest m = ground arith

pub tops-zero : (bs : List ℕ) → first_clear bs ≡ length bs → from_le (tops bs) ≡ 0
unfolding first_clear tops
tops-zero [] h = refl
tops-zero (b ∷ bs) h = ground (arith, tops-zero bs)

pub tops-ne-zero : (bs : List ℕ) → first_clear bs < length bs → 0 < from_le (tops bs)
unfolding first_clear tops
tops-ne-zero [] h = absurd (omega arith)
tops-ne-zero (b ∷ bs) h = ground (arith, tops-ne-zero bs)

-- Reading a varint whose last byte is at place `j`.
pub parse-clear :
    (p : List ℕ) (k : ℕ)
    → first_clear p < length p
    → first_clear p < k
    → parse (suc k) p
      ≡ got (from_groups (take (suc (first_clear p)) p)) (drop (suc (first_clear p)) p)
unfolding parse first_clear
parse-clear [] k h l = absurd (omega arith)
parse-clear (b ∷ p) zero h l = absurd (omega arith)
parse-clear (b ∷ p) (suc k) h l = elim (lt_or_ge b 128) [
  | inl clear ↦ rw (lt→ltb b 128 clear) (ground arith)
  | inr marked ↦ rw (ge→ltb b 128 marked) (ground (arith, parse-clear p k))
]
