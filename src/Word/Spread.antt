-- ===== src/Word/Spread.antt =====
-- `spread7` in plain arithmetic.
use corelib_cpp.Common.{
  ℕ, zero, suc, ◌+◌, ◌*◌, ◌/◌, ◌%◌, ◌^◌, ◌<◌, ◌≡◌, ◌∙◌, arith, bit_and, bit_or,
}
use corelib_cpp.Common.{List, [], ◌∷◌}
use corelib_cpp.Common.Bits.{bit_and_mask, bit_and_window, bit_and_fields, bit_or_low}
use corelib_cpp.Common.Bytes.{from_le}
use corelib_cpp.Word.{shl64, u64, spread7}

-- The `n` low groups of seven bits, lowest first.
abbrev pub groups : ℕ → ℕ → List ℕ
groups zero v = []
groups (suc n) v = v % 128 ∷ groups n (v / 128)

stage1 :
    (w : ℕ)
    → w < 2 ^ 56
    → bit_or (bit_and w 0x000000000FFFFFFF) (shl64 (bit_and w 0x00FFFFFFF0000000) 4)
      ≡ w / 2 ^ 28 * 2 ^ 32 + w % 2 ^ 28
stage1 w h =
    ground
      (arith, bit_and_mask 28 w, bit_and_window w 28 28, bit_or_low 32 (w / 2 ^ 28) (w % 2 ^ 28))

stage2 :
    (hi lo : ℕ)
    → hi < 2 ^ 28
    → lo < 2 ^ 28
    → bit_and (hi * 2 ^ 32 + lo) 0x0FFFC0000FFFC000
      ≡ hi / 2 ^ 14 * 2 ^ 14 * 2 ^ 32 + lo / 2 ^ 14 * 2 ^ 14
stage2 hi lo p q = ground (
  arith,
  bit_and_fields 32 hi lo 0x0FFFC000 0x0FFFC000,
  bit_and_window hi 14 14,
  bit_and_window lo 14 14,
)

half3 :
    (b a : ℕ)
    → b < 2 ^ 14
    → a < 2 ^ 14
    → bit_and (b * 2 ^ 16 + a) 0x3F803F80 ≡ b / 2 ^ 7 * 2 ^ 7 * 2 ^ 16 + a / 2 ^ 7 * 2 ^ 7
half3 b a p q =
    ground (arith, bit_and_fields 16 b a 0x3F80 0x3F80, bit_and_window b 7 7, bit_and_window a 7 7)

stage3 :
    (d c b a : ℕ)
    → d < 2 ^ 14
    → c < 2 ^ 14
    → b < 2 ^ 14
    → a < 2 ^ 14
    → bit_and ((d * 2 ^ 16 + c) * 2 ^ 32 + (b * 2 ^ 16 + a)) 0x3F803F803F803F80
      ≡ (d / 2 ^ 7 * 2 ^ 7 * 2 ^ 16 + c / 2 ^ 7 * 2 ^ 7) * 2 ^ 32
        + (b / 2 ^ 7 * 2 ^ 7 * 2 ^ 16 + a / 2 ^ 7 * 2 ^ 7)
stage3 d c b a hd hc hb ha = ground (
  arith,
  bit_and_fields 32 (d * 2 ^ 16 + c) (b * 2 ^ 16 + a) 0x3F803F80 0x3F803F80,
  half3 d c,
  half3 b a,
)

-- The halves of a 56-bit value, then its quarters.
from_quarters :
    (d c b a : ℕ)
    → d < 2 ^ 14
    → c < 2 ^ 14
    → b < 2 ^ 14
    → a < 2 ^ 14
    → (v : ℕ) → v % 2 ^ 56 ≡ ((d * 2 ^ 14 + c) * 2 ^ 14 + b) * 2 ^ 14 + a
    → spread7 v
      ≡ (d / 2 ^ 7 * 2 ^ 8 + d % 2 ^ 7) * 2 ^ 48
        + (c / 2 ^ 7 * 2 ^ 8 + c % 2 ^ 7) * 2 ^ 32
        + (b / 2 ^ 7 * 2 ^ 8 + b % 2 ^ 7) * 2 ^ 16
        + (a / 2 ^ 7 * 2 ^ 8 + a % 2 ^ 7)
unfolding spread7
from_quarters d c b a hd hc hb ha v e =
    rw (low, first, second, mid, stage3 d c b a hd hc hb ha) (omega arith)
  where
    low : bit_and v 0x00FFFFFFFFFFFFFF ≡ (d * 2 ^ 14 + c) * 2 ^ 28 + (b * 2 ^ 14 + a)
    low = bit_and_mask 56 v ∙ omega arith

    first :
        bit_or
          (bit_and ((d * 2 ^ 14 + c) * 2 ^ 28 + (b * 2 ^ 14 + a)) 0x000000000FFFFFFF)
          (shl64 (bit_and ((d * 2 ^ 14 + c) * 2 ^ 28 + (b * 2 ^ 14 + a)) 0x00FFFFFFF0000000) 4)
        ≡ (d * 2 ^ 14 + c) * 2 ^ 32 + (b * 2 ^ 14 + a)
    first = stage1 _ (omega arith) ∙ omega arith

    second :
        bit_and ((d * 2 ^ 14 + c) * 2 ^ 32 + (b * 2 ^ 14 + a)) 0x0FFFC0000FFFC000
        ≡ d * 2 ^ 14 * 2 ^ 32 + b * 2 ^ 14
    second = stage2 _ _ (omega arith) (omega arith) ∙ omega arith

    mid :
        u64 (
          (d * 2 ^ 14 + c) * 2 ^ 32
          + (b * 2 ^ 14 + a)
          + u64 (3 * (d * 2 ^ 14 * 2 ^ 32 + b * 2 ^ 14)))
        ≡ (d * 2 ^ 16 + c) * 2 ^ 32 + (b * 2 ^ 16 + a)
    mid = omega arith

-- The spread of any word holds its eight low groups of seven bits, the lowest in the lowest byte.
pub spread7_lem : (v : ℕ) → spread7 v ≡ from_le (groups 8 v)
spread7_lem v =
    from_quarters (v / 2 ^ 42 % 2 ^ 14) (v / 2 ^ 28 % 2 ^ 14) (v / 2 ^ 14 % 2 ^ 14) (v % 2 ^ 14)
      (omega arith) (omega arith) (omega arith) (omega arith) v (omega arith)
    ∙ omega arith
