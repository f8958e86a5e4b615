-- ===== src/Varint/Padded.antt =====
-- `encodeVarintPadded`, compared with `encodeVarint`.
use corelib_cpp.Common.{ℕ, zero, suc, ◌+◌, ◌-◌, ◌*◌, ◌/◌, ◌%◌, ◌^◌, ◌≤◌, ◌<◌, ◌≡◌, refl, arith}
use corelib_cpp.Common.{List, [], ◌∷◌, ◌++◌, bit_and, bit_or, ap, ◌∙◌}
use corelib_cpp.Common.{
  length, take, set, get_or, All, inl, inr, lt_or_ge, length-set, length-take, ap₂, lt→ltb, ge→ltb,
  gt→leb, le→leb,
}
use corelib_cpp.Common.{replicate}
use corelib_cpp.Common.Bits.{bit_and_mask, bit_or_fields, bit_or_low}
use corelib_cpp.Common.Bytes.{IsByte, from_le, to_le, to_le-from_le, from_le-lt}
use corelib_cpp.Word.{Endian, store_little64}
use corelib_cpp.Word.Spread.{groups, spread7_lem}
use corelib_cpp.Word.Endianness.{store_little64_lem}
use corelib_cpp.Varint.{
  encode_varint, encode_varint_padded, countl_zero, padded_length, padded_bytes,
}
use corelib_cpp.Varint.Encode.{encode_varint-varint}
use corelib_cpp.Varint.Spec.{groups_of, varint}
use native.Mathlib.Nat.{one-le-pow, pow-le-pow_right}
use native.Mathlib.Numerals.{towards_suc}

-- The bit width that `countl_zero` gives.
countl_zero-le : (k w : ℕ) → countl_zero k w ≤ k
unfolding countl_zero
countl_zero-le zero w = omega arith
countl_zero-le (suc k) w = ground (arith, countl_zero-le k w)

countl_zero_width :
    (k w : ℕ)
    → w < 2 ^ k
    → 0 < w
    → (countl_zero k w < k) × (2 ^ (k - countl_zero k w - 1) ≤ w) × (w < 2 ^ (k - countl_zero k w))
unfolding countl_zero
countl_zero_width zero w h p = absurd (omega arith)
countl_zero_width (suc k) w h p = elim (lt_or_ge w (2 ^ k)) [
  | inl small ↦
      rw (gt→leb (2 ^ k) w small)
        (ground (arith, countl_zero_width k w small p, countl_zero-le k w))
  | inr large ↦ rw (le→leb (2 ^ k) w large) (ground arith)
]

-- Every byte of the groups with its top bit set.
marked : ℕ → ℕ → List ℕ
marked zero v = []
marked (suc n) v = (v % 128 + 128) ∷ marked n (v / 128)

or_top : (g : ℕ) → g < 128 → bit_or g 128 ≡ g + 128
or_top g h = bit_or_low 7 1 g h ∙ omega arith

or_tops :
    (n v : ℕ) → bit_or (from_le (groups n v)) (from_le (replicate n 128)) ≡ from_le (marked n v)
unfolding marked
or_tops zero v = refl
or_tops (suc n) v = ground (
  arith,
  bit_or_fields 8 (from_le (groups n (v / 128))) (v % 128) (from_le (replicate n 128)) 128,
  or_top (v % 128),
  or_tops n (v / 128),
)

marked-IsByte : (n v : ℕ) → All IsByte (marked n v)
unfolding marked
marked-IsByte zero v = tt
marked-IsByte (suc n) v = (omega arith, marked-IsByte n (v / 128))

-- What stands in memory before the last byte is mended.
run_of : ℕ → ℕ → List ℕ
run_of zero v = v % 256 ∷ []
run_of (suc m) v = (v % 128 + 128) ∷ run_of m (v / 128)

seven : (j : ℕ) → 2 ^ (7 * (j + 1)) ≡ 128 * 2 ^ (7 * j)
seven j =
    let e : 7 * (j + 1) ≡ 7 * j + 7 = omega arith in
    ap (λ t. 2 ^ t) e ∙ simp towards_suc (omega arith)

-- Mending byte `j` of the run leaves the encoding of a value of `j + 1` groups in front.
mend :
    (j m k v : ℕ)
    → j ≤ m
    → j ≤ k
    → 2 ^ (7 * j) ≤ v
    → v < 2 ^ (7 * (j + 1))
    → take (suc j) (set (run_of m v) j (bit_and (get_or (run_of m v) j 0) 0x7f % 256))
      ≡ groups_of k v
unfolding run_of groups_of
mend zero zero zero v a b c d = ground (arith, bit_and_mask 7 (v % 256))
mend zero zero (suc k) v a b c d = ground (arith, bit_and_mask 7 (v % 256))
mend zero (suc m) zero v a b c d = ground (arith, bit_and_mask 7 (v % 128 + 128))
mend zero (suc m) (suc k) v a b c d = ground (arith, bit_and_mask 7 (v % 128 + 128))
mend (suc j) zero k v a b c d = absurd (omega arith)
mend (suc j) (suc m) zero v a b c d = absurd (omega arith)
mend (suc j) (suc m) (suc k) v a b c d =
    ground (arith, seven j, seven (j + 1), one-le-pow (7 * j) 2, mend j m k (v / 128))

-- The bit width tells the number of groups: `n` with 7 * (n - 1) < bits ≤ 7 * n.
padded_length_groups :
    (v : ℕ)
    → v < 2 ^ 64
    → 0 < v
    → (j : ℕ) × (padded_length v ≡ suc j) × (j ≤ 9) × (2 ^ (7 * j) ≤ v) × (v < 2 ^ (7 * (j + 1)))
unfolding padded_length
padded_length_groups v h p =
    let c = countl_zero 64 v in
    let (inside, above, below) = countl_zero_width 64 v h p in
    let j : ℕ = ((64 - c) * 9 + 64) / 2 ^ 6 - 1 in
    let low : 7 * j ≤ 64 - c - 1 = omega arith in
    let high : 64 - c ≤ 7 * (j + 1) = omega arith in
    (
      j,
      omega arith,
      omega arith,
      omega (arith, pow-le-pow_right {n = 2} (omega arith) low),
      omega (arith, pow-le-pow_right {n = 2} (omega arith) high),
    )

-- The ten stored bytes, before the last is mended.
padded_bytes-run_of : (e : Endian) (v : ℕ) → v < 2 ^ 64 → padded_bytes e v ≡ run_of 9 v
unfolding padded_bytes marked run_of
padded_bytes-run_of e v h =
    ap (λ w. store_little64 e w ++ tail)
      (ap (λ t. bit_or t 0x8080808080808080) (spread7_lem v) ∙ or_tops 8 v)
    ∙ ap (λ t. t ++ tail) (store_little64_lem e (from_le (marked 8 v)) fits ∙ back)
    ∙ ap (λ t. marked 8 v ++ t) (ap₂ (λ x y. x ∷ y ∷ []) ninth tenth)
  where
    tail : List ℕ
    tail = bit_or (bit_and (v / 2 ^ 56 % 256) 0x7f) 0x80 % 256 ∷ v / 2 ^ 63 % 256 ∷ []

    fits : from_le (marked 8 v) < 2 ^ 64
    fits = from_le-lt (marked 8 v) (marked-IsByte 8 v)

    back : to_le 8 (from_le (marked 8 v)) ≡ marked 8 v
    back = to_le-from_le (marked 8 v) (marked-IsByte 8 v)

    ninth :
        bit_or (bit_and (v / 2 ^ 56 % 256) 0x7f) 0x80 % 256
        ≡ v / 128 / 128 / 128 / 128 / 128 / 128 / 128 / 128 % 128 + 128
    ninth =
        ap (λ t. bit_or t 0x80 % 256) (bit_and_mask 7 (v / 2 ^ 56 % 256))
        ∙ ap (λ t. t % 256) (or_top (v / 2 ^ 56 % 256 % 128) (omega arith))
        ∙ omega arith

    tenth : v / 2 ^ 63 % 256 ≡ v / 128 / 128 / 128 / 128 / 128 / 128 / 128 / 128 / 128 % 256
    tenth = omega arith

length-run_of : (m v : ℕ) → length (run_of m v) ≡ m + 1
unfolding run_of
length-run_of zero v = omega arith
length-run_of (suc m) v = omega (arith, length-run_of m (v / 128))

mended : ℕ → ℕ → List ℕ
mended j v = set (run_of 9 v) j (bit_and (get_or (run_of 9 v) j 0) 0x7f % 256)

mended_lem :
    (v j : ℕ)
    → j ≤ 9
    → 2 ^ (7 * j) ≤ v
    → v < 2 ^ (7 * (j + 1))
    → (take (suc j) (mended j v) ≡ varint v)
      × (suc j ≡ length (varint v))
      × (length (mended j v) ≤ 10)
unfolding mended varint
mended_lem v j small above below =
    let whole = mend j 9 9 v small small above below in
    let size : length (mended j v) ≡ 10 = length-set (run_of 9 v) j _ ∙ length-run_of 9 v in
    (
      whole,
      omega (arith, ap length whole, length-take (suc j) (mended j v), size),
      omega (arith, size),
    )

padded_large :
    (e : Endian) (v j : ℕ)
    → v < 2 ^ 64
    → 128 ≤ v
    → padded_length v ≡ suc j
    → encode_varint_padded e v ≡ (mended j v, suc j)
unfolding encode_varint_padded mended
padded_large e v j h large n =
    let last : suc j - 1 ≡ j = omega arith in
    rw (ge→ltb v 128 large, n, padded_bytes-run_of e v h, last)

-- For a 64-bit value and on either kind of host, the branch-free encoder stores the bytes of the
-- plain encoder first, returns their count, and stores ten bytes at most.
pub encode_varint_padded_lem :
    (e : Endian) (v : ℕ)
    → v < 2 ^ 64
    → let (stored, n) = encode_varint_padded e v in
      (take n stored ≡ encode_varint v) × (n ≡ length (encode_varint v)) × (length stored ≤ 10)
encode_varint_padded_lem e v h = elim (lt_or_ge v 128) [
  | inl small ↦
      rw (encode_varint-varint v h)
        (unfold encode_varint_padded varint groups_of in rw (lt→ltb v 128 small) (ground arith))
  | inr large ↦
      let (j, n, bound, above, below) = padded_length_groups v h (omega arith) in
      rw (encode_varint-varint v h, padded_large e v j h large n) (mended_lem v j bound above below)
]
