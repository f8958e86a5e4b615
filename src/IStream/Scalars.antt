-- ===== src/IStream/Scalars.antt =====
-- IStreamImpl::read of a number, a `bool`, a `float` or a `double`.
pub mod Fields
use corelib_cpp.Common.{
  ℕ, ◌+◌, ◌-◌, ◌*◌, ◌^◌, ◌%◌, Bool, true, false, not, ltb, ◌==◌, if◌then◌else◌, Option, none, some,
  List, [], ◌∷◌, take, drop, length,
}
use corelib_cpp.Common.Int.{ℤ, pos, negsuc}
use corelib_cpp.Word.{Endian, load_little_bits}
use corelib_cpp.Wire.{Wire, Fix}
use corelib_cpp.Zigzag.{cast_u64, zigzag_decode}
use corelib_cpp.Varint.{Read, got, overflow, cut, get_varint}
use corelib_cpp.OStream.Fields.{Float, float_size, float_fix}
use corelib_cpp.IStream.{IStream}
use corelib_cpp.IStream.Payload.{tag_matches, tag_matches_fix}

-- The type of a number: unsigned or signed with its width in bits, or `bool`.
pub data Scalar : Type 0 where
  uint : ℕ → Scalar
  sint : ℕ → Scalar
  bool : Scalar

pub data Value : Type 0 where
  whole : ℕ → Value
  integer : ℤ → Value
  truth : Bool → Value

-- `static_cast` of an `int64_t` to a signed type of `w` bits.
abbrev pub cast_signed : ℕ → ℤ → ℤ
cast_signed w z =
    let u = cast_u64 z % 2 ^ w in if ltb u (2 ^ (w - 1)) then pos u else negsuc (2 ^ w - 1 - u)

unfoldable pub value_of : Scalar → ℕ → Value
value_of (uint w) raw = whole (raw % 2 ^ w)
value_of (sint w) raw = integer (cast_signed w (zigzag_decode raw))
value_of bool raw = truth (not (raw == 0))

abbrev pub scalar_wire : Scalar → Wire
scalar_wire (uint w) = Wire.unsigned
scalar_wire (sint w) = Wire.signed
scalar_wire bool = Wire.unsigned

-- The value is assigned only where a varint is read.
unfoldable pub scalar_got : Scalar → Read → IStream → IStream × Option Value
unfolding value_of
scalar_got t (got raw rest) s = (record s { p = rest; consumed = true }, some (value_of t raw))
scalar_got t (overflow rest) s = (record s { p = rest; error = true }, none)
scalar_got t cut s = (record s { incomplete = true }, none)

unfoldable pub read_scalar : Endian → Scalar → IStream → IStream × Option Value
unfolding tag_matches scalar_got
read_scalar host t s =
    let (s', matches) = tag_matches (scalar_wire t) s in
    if not matches then (s', none) else scalar_got t (get_varint host s'.p) s'

-- A float is its bit pattern, `loadFloat`.
unfoldable pub read_float : Endian → Float → IStream → IStream × Option ℕ
unfolding tag_matches_fix
read_float host f s =
    let (s', matches) = tag_matches_fix Wire.fixlen (float_fix f) s in
    if not matches
    then (s', none)
    else if ltb (length s'.p) (float_size f)
    then (record s' { incomplete = true }, none)
    else (
      record s' { p = drop (float_size f) s'.p; consumed = true },
      some (load_little_bits host (take (float_size f) s'.p)),
    )
