-- ===== src/IStream/Scalars/Fields.antt =====
-- A number or a `bool` as the encoder writes it, read back behind its header.
use mathlib.Core.Path.{subst}
use native.Mathlib.Nat.{mod-eq_of_lt}
use corelib_cpp.Common.{
  ℕ, ◌-◌, ◌^◌, ◌≤◌, ◌<◌, ◌≡◌, refl, sym, ap, ◌∙◌, arith, ◌⊎◌, inl, inr, Bool, true, false, some,
  if◌then◌else◌,
}
use corelib_cpp.Common.{List, ◌++◌, All, All-append}
use corelib_cpp.Common.Int.{ℤ, pos, negsuc}
use corelib_cpp.Common.Bytes.{IsByte}
use corelib_cpp.Word.{Endian}
use corelib_cpp.Wire.{id_max}
use corelib_cpp.Zigzag.{zigzag_encode}
use corelib_cpp.Zigzag.Laws.{IsI64, zigzag_encode_lem, zigzag_decode-encode}
use corelib_cpp.Varint.{encode_varint}
use corelib_cpp.Varint.RoundTrip.{get_varint-encode_varint, encode_varint_shape}
use corelib_cpp.IStream.{IStream}
use corelib_cpp.IStream.Header.{parse_field_header}
use corelib_cpp.IStream.Header.Heads.{Head, IsHead, encode_head, headed}
use corelib_cpp.IStream.Header.RoundTrip.{parse_field_header-encode_head}
use corelib_cpp.IStream.Payload.{tag_matches}
use corelib_cpp.IStream.Scalars.{
  Scalar, uint, sint, bool, Value, whole, integer, truth, cast_signed, value_of, scalar_got,
  read_scalar,
}

-- The widths of the integer types.
unfoldable pub IsWidth : ℕ → Type 0
IsWidth w = (w ≡ 8) ⊎ (w ≡ 16) ⊎ (w ≡ 32) ⊎ (w ≡ 64)

abbrev pub IsSigned : ℕ → ℤ → Type 0
IsSigned w (pos n) = n < 2 ^ (w - 1)
IsSigned w (negsuc n) = n < 2 ^ (w - 1)

-- The values of a type.
pub data IsOf : Scalar → Value → Type 0 where
  of_uint : {w n : ℕ} → IsWidth w → n < 2 ^ w → IsOf (uint w) (whole n)
  of_sint : {w : ℕ} {z : ℤ} → IsWidth w → IsSigned w z → IsOf (sint w) (integer z)
  of_bool : {b : Bool} → IsOf bool (truth b)

-- The word that is written for a value.
abbrev pub word_of : Value → ℕ
word_of (whole n) = n
word_of (integer z) = zigzag_encode z
word_of (truth b) = if b then 1 else 0

abbrev pub scalar_head : Scalar → ℕ → Head
scalar_head (sint w) i = Head.signed i
scalar_head (uint w) i = Head.unsigned i
scalar_head bool i = Head.unsigned i

cast_signed8_back : (z : ℤ) → IsSigned 8 z → cast_signed 8 z ≡ z
cast_signed8_back (pos n) h = ground arith
cast_signed8_back (negsuc n) h = ground arith

cast_signed16_back : (z : ℤ) → IsSigned 16 z → cast_signed 16 z ≡ z
cast_signed16_back (pos n) h = ground arith
cast_signed16_back (negsuc n) h = ground arith

cast_signed32_back : (z : ℤ) → IsSigned 32 z → cast_signed 32 z ≡ z
cast_signed32_back (pos n) h = ground arith
cast_signed32_back (negsuc n) h = ground arith

cast_signed64_back : (z : ℤ) → IsSigned 64 z → cast_signed 64 z ≡ z
cast_signed64_back (pos n) h = ground arith
cast_signed64_back (negsuc n) h = ground arith

cast_signed_back : (w : ℕ) (z : ℤ) → IsWidth w → IsSigned w z → cast_signed w z ≡ z
unfolding IsWidth
cast_signed_back w z (inl e) =
    subst (λ w. IsSigned w z → cast_signed w z ≡ z) (sym e) (cast_signed8_back z)
cast_signed_back w z (inr (inl e)) =
    subst (λ w. IsSigned w z → cast_signed w z ≡ z) (sym e) (cast_signed16_back z)
cast_signed_back w z (inr (inr (inl e))) =
    subst (λ w. IsSigned w z → cast_signed w z ≡ z) (sym e) (cast_signed32_back z)
cast_signed_back w z (inr (inr (inr e))) =
    subst (λ w. IsSigned w z → cast_signed w z ≡ z) (sym e) (cast_signed64_back z)

signed_IsI64 : (w : ℕ) (z : ℤ) → IsWidth w → IsSigned w z → IsI64 z
unfolding IsWidth
signed_IsI64 w (pos n) k h = ground arith
signed_IsI64 w (negsuc n) k h = ground arith

zigzag-lt : (z : ℤ) → IsI64 z → zigzag_encode z < 2 ^ 64
zigzag-lt (pos n) h = rw (zigzag_encode_lem (pos n) h) (omega arith)
zigzag-lt (negsuc n) h = rw (zigzag_encode_lem (negsuc n) h) (omega arith)

pub word_of-lt : (t : Scalar) (v : Value) → IsOf t v → word_of v < 2 ^ 64
unfolding IsWidth
word_of-lt _ _ (of_uint {w} {n} k h) = ground arith
word_of-lt _ _ (of_sint {w} {z} k h) = zigzag-lt z (signed_IsI64 w z k h)
word_of-lt _ _ (of_bool {b}) = ground arith

pub value_of-word_of : (t : Scalar) (v : Value) → IsOf t v → value_of t (word_of v) ≡ v
unfolding value_of
value_of-word_of _ _ (of_uint {w} {n} k h) = ap whole (mod-eq_of_lt h)
value_of-word_of _ _ (of_sint {w} {z} k h) =
    ap integer (
      ap (cast_signed w) (zigzag_decode-encode z (signed_IsI64 w z k h)) ∙ cast_signed_back w z k h)
value_of-word_of _ _ (of_bool {b = true}) = refl
value_of-word_of _ _ (of_bool {b = false}) = refl

in_range : (t : Scalar) (i : ℕ) → i ≤ id_max → IsHead (scalar_head t i)
in_range (uint w) i h = h
in_range (sint w) i h = h
in_range bool i h = h

read_scalar-headed :
    (host : Endian) (t : Scalar) (i w : ℕ) (rest : List ℕ) (s : IStream)
    → w < 2 ^ 64
    → All IsByte rest
    → read_scalar host t (headed (scalar_head t i) (record s { p = encode_varint w ++ rest }))
      ≡ (record (headed (scalar_head t i) s) { p = rest; consumed = true }, some (value_of t w))
unfolding read_scalar tag_matches scalar_got
read_scalar-headed host (uint n) i w rest s h k = rw (get_varint-encode_varint host w rest h k) refl
read_scalar-headed host (sint n) i w rest s h k = rw (get_varint-encode_varint host w rest h k) refl
read_scalar-headed host bool i w rest s h k = rw (get_varint-encode_varint host w rest h k) refl

-- A value of an integer type of 8, 16, 32 or 64 bits or of bool, written as a field with a valid
-- id, is read into its type behind its header, whatever bytes follow; the field is consumed and
-- those bytes are left.
pub read_scalar-encode_head :
    (host : Endian) (t : Scalar) (v : Value) (i : ℕ) (rest : List ℕ) (s : IStream)
    → IsOf t v
    → i ≤ id_max
    → All IsByte rest
    → read_scalar host t
        (parse_field_header host
          (record s { p = encode_head (scalar_head t i) ++ (encode_varint (word_of v) ++ rest) })).0
      ≡ (record (headed (scalar_head t i) s) { p = rest; consumed = true }, some v)
read_scalar-encode_head host t v i rest s o h k =
    let small = word_of-lt t v o in
    let bytes =
      All-append IsByte (encode_varint (word_of v)) rest (encode_varint_shape (word_of v) small).0
        k in
    let head =
      parse_field_header-encode_head host (scalar_head t i) (encode_varint (word_of v) ++ rest) s
        (in_range t i h) bytes in
    ap (λ r. read_scalar host t r.0) head
    ∙ read_scalar-headed host t i (word_of v) rest s small k
    ∙ ap (λ u. (record (headed (scalar_head t i) s) { p = rest; consumed = true }, some u))
        (value_of-word_of t v o)
