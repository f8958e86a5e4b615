-- ===== src/Zigzag/Laws.antt =====
-- `zigzagEncode` and `zigzagDecode` in plain arithmetic.
use corelib_cpp.Common.{ℕ, ◌+◌, ◌-◌, ◌*◌, ◌/◌, ◌%◌, ◌^◌, ◌<◌, ◌≡◌, arith}
use corelib_cpp.Common.{bit_and, ◌⊎◌, inl, inr, ltb, if◌then◌else◌}
use corelib_cpp.Common.Bits.{bit_and_mask, bit_xor_ones, bit_xor-zero}
use corelib_cpp.Common.Int.{ℤ, pos, negsuc}
use corelib_cpp.Zigzag.{zigzag_encode, zigzag_decode}
use corelib_cpp.Word.{u64, not64}

-- The values of `int64_t`.
abbrev pub IsI64 : ℤ → Type 0
IsI64 (pos n) = n < 2 ^ 63
IsI64 (negsuc n) = n < 2 ^ 63

-- Small magnitudes get small codes: 0, -1, 1, -2, 2 are 0, 1, 2, 3, 4.
abbrev pub zigzag : ℤ → ℕ
zigzag (pos n) = 2 * n
zigzag (negsuc n) = 2 * n + 1

-- On every `int64_t` the shifts and the exclusive or give that code.
pub zigzag_encode_lem : (v : ℤ) → IsI64 v → zigzag_encode v ≡ zigzag v
unfolding zigzag_encode
zigzag_encode_lem (pos n) h = ground (arith, bit_xor-zero (2 * n))
zigzag_encode_lem (negsuc n) h = ground (arith, bit_xor_ones 64 (2 ^ 64 - 2 - 2 * n))

mask_cases :
    (u : ℕ)
    → ((u % 2 ≡ 0) × (u64 (not64 (bit_and u 1) + 1) ≡ 0))
      ⊎ ((u % 2 ≡ 1) × (u64 (not64 (bit_and u 1) + 1) ≡ 2 ^ 64 - 1))
mask_cases u = ground (arith, bit_and_mask 1 u)

-- An even code stands for a natural number, an odd one for a negative number.
pub zigzag_decode_lem :
    (u : ℕ) → u < 2 ^ 64 → zigzag_decode u ≡ (if ltb (u % 2) 1 then pos (u / 2) else negsuc (u / 2))
unfolding zigzag_decode
zigzag_decode_lem u h = elim (mask_cases u) [
  | inl (even, m) ↦ rw (m, bit_xor-zero (u / 2)) (ground arith)
  | inr (odd, m) ↦ rw (m, bit_xor_ones 64 (u / 2) (omega arith)) (ground arith)
]

-- Decoding the zigzag code of a 64-bit signed value gives the value.
pub zigzag_decode-encode : (v : ℤ) → IsI64 v → zigzag_decode (zigzag_encode v) ≡ v
zigzag_decode-encode (pos n) h =
    rw (zigzag_encode_lem (pos n) h, zigzag_decode_lem (2 * n) (omega arith)) (ground arith)
zigzag_decode-encode (negsuc n) h =
    rw (zigzag_encode_lem (negsuc n) h, zigzag_decode_lem (2 * n + 1) (omega arith)) (ground arith)

-- Every 64-bit word decodes to a 64-bit signed value whose zigzag code it is.
pub zigzag_encode-decode :
    (u : ℕ) → u < 2 ^ 64 → IsI64 (zigzag_decode u) × (zigzag_encode (zigzag_decode u) ≡ u)
zigzag_encode-decode u h =
    rw (zigzag_decode_lem u h)
      (ground (arith, zigzag_encode_lem (pos (u / 2)), zigzag_encode_lem (negsuc (u / 2))))
