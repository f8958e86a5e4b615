-- ===== src/Varint/Decode.antt =====
-- `getVarint`: its fast path, its windowed path and its byte loop.
use corelib_cpp.Common.{ℕ, zero, suc, ◌+◌, ◌*◌, ◌%◌, ◌^◌, ◌≤◌, ◌<◌, ◌≡◌, refl, arith}
use corelib_cpp.Common.{List, [], ◌∷◌, ◌++◌, ap, ◌∙◌}
use corelib_cpp.Common.{
  length, All, All-front, All-back, inl, inr, lt_or_ge, lt→ltb, ge→ltb, le→leb, gt→leb,
}
use corelib_cpp.Common.Bits.{bit_and_mask, bit_and_window, bit_or_low}
use corelib_cpp.Common.Bytes.{IsByte}
use corelib_cpp.Word.{Endian}
use corelib_cpp.Word.Endianness.{load_little64_lem}
use corelib_cpp.Varint.{Read, got, overflow, cut, get_varint_windowed}
use corelib_cpp.Varint.{windowed_word, get_varint_loop, get_varint_slow, get_varint}
use corelib_cpp.Varint.Spec.{parse, under}
use corelib_cpp.Varint.Windowed.{word-parse}
use native.Mathlib.Nat.{mod-eq_of_lt, mul-le-mul_right, pow-le-pow_right}
use native.Mathlib.Numerals.{towards_suc}

-- Where ten bytes can be read, the windowed read is the format's.
pub get_varint_windowed-parse :
    (e : Endian) (p : List ℕ) → 10 ≤ length p → All IsByte p → get_varint_windowed e p ≡ parse 10 p
unfolding get_varint_windowed
get_varint_windowed-parse e (b0 ∷ b1 ∷ b2 ∷ b3 ∷ b4 ∷ b5 ∷ b6 ∷ b7 ∷ b8 ∷ b9 ∷ r) h k =
    let front = b0 ∷ b1 ∷ b2 ∷ b3 ∷ b4 ∷ b5 ∷ b6 ∷ b7 ∷ [] in
    let tail = b8 ∷ b9 ∷ r in
    let bytes : All IsByte front = All-front IsByte front tail k in
    let behind : All IsByte tail = All-back IsByte front tail k in
    ap (λ w. windowed_word w (front ++ tail)) (load_little64_lem e front refl bytes)
    ∙ word-parse b0 (b1 ∷ b2 ∷ b3 ∷ b4 ∷ b5 ∷ b6 ∷ b7 ∷ []) b8 b9 r refl bytes behind.0 behind.1.0
get_varint_windowed-parse e p h k = absurd (omega arith)

-- What is read later, above `shift` bits that are there already.
abbrev above : ℕ → ℕ → Read → Read
above v shift (got w rest) = got (v + w * 2 ^ shift) rest
above v shift (overflow rest) = overflow rest
above v shift cut = cut

seven_more : (shift : ℕ) → 2 ^ (shift + 7) ≡ 128 * 2 ^ shift
seven_more shift = simp towards_suc (omega arith)

-- A group never reaches bit 64.
group_fits : (g shift : ℕ) → g < 128 → shift + 7 ≤ 63 → g * 2 ^ shift % 2 ^ 64 ≡ g * 2 ^ shift
group_fits g shift h s = mod-eq_of_lt (
    omega (
      arith,
      seven_more shift,
      mul-le-mul_right (2 ^ shift) h,
      pow-le-pow_right {n = 2} (omega arith) s,
    ))

group_below : (g v shift : ℕ) → g < 128 → v < 2 ^ shift → g * 2 ^ shift + v < 2 ^ (shift + 7)
group_below g v shift h f = omega (arith, seven_more shift, mul-le-mul_right (2 ^ shift) h)

above-under :
    (v g shift : ℕ) (r : Read) → above v shift (under g r) ≡ above (g * 2 ^ shift + v) (shift + 7) r
above-under v g shift (got w rest) =
    ap (λ t. got t rest) (omega (arith, ap (λ t. w * t) (seven_more shift)))
above-under v g shift (overflow rest) = refl
above-under v g shift cut = refl

-- The byte loop over at most nine bytes meets no tenth byte.
get_varint_loop-parse :
    (p : List ℕ) (k v shift : ℕ)
    → length p ≤ k
    → All IsByte p
    → v < 2 ^ shift
    → shift + 7 * length p ≤ 63
    → get_varint_loop v shift p ≡ above v shift (parse (suc k) p)
unfolding get_varint_loop parse
get_varint_loop-parse [] k v shift l h f s = refl
get_varint_loop-parse (b ∷ p) zero v shift l h f s = absurd (omega arith)
get_varint_loop-parse (b ∷ p) (suc k) v shift l h f s = ground (
  arith,
  bit_and_window b 7 1,
  bit_and_mask 7 b,
  group_fits (b % 128) shift (omega arith) (omega arith),
  bit_or_low shift (b % 128) v f,
  group_below (b % 128) v shift (omega arith) f,
  above-under v (b % 128) shift (parse (suc k) p),
  get_varint_loop-parse p k (b % 128 * 2 ^ shift + v) (shift + 7),
)

above-zero : (r : Read) → above 0 0 r ≡ r
above-zero (got w rest) = ap (λ t. got t rest) (omega arith)
above-zero (overflow rest) = refl
above-zero cut = refl

get_varint_slow-parse : (e : Endian) (p : List ℕ) → All IsByte p → get_varint_slow e p ≡ parse 10 p
unfolding get_varint_slow
get_varint_slow-parse e p k = elim (lt_or_ge (length p) 10) [
  | inl short ↦ rw (gt→leb 10 (length p) short) (
      get_varint_loop-parse p 9 0 0 (omega arith) k (omega arith) (omega arith)
      ∙ above-zero (parse 10 p))
  | inr long ↦ rw (le→leb 10 (length p) long) (get_varint_windowed-parse e p long k)
]

-- On any bytes and either kind of host, the reader with its one-byte case, its windowed case and
-- its loop is the byte-by-byte parser of the format: the value and the bytes behind it, an
-- overflow, or a varint that the bytes end inside.
pub get_varint-parse : (e : Endian) (p : List ℕ) → All IsByte p → get_varint e p ≡ parse 10 p
unfolding get_varint
get_varint-parse e [] k = get_varint_slow-parse e [] k
get_varint-parse e (b ∷ p) k = elim (lt_or_ge b 128) [
  | inl one ↦ rw (lt→ltb b 128 one) (unfold parse in ground arith)
  | inr more ↦ rw (ge→ltb b 128 more) (get_varint_slow-parse e (b ∷ p) k)
]
