-- ===== src/Wire/Words.antt =====
-- Header words and fixlen words in plain arithmetic.
use corelib_cpp.Common.{ℕ, ◌+◌, ◌*◌, ◌%◌, ◌^◌, ◌<◌, ◌≡◌, arith, bit_and}
use corelib_cpp.Common.{ap, ◌∙◌}
use corelib_cpp.Common.Bits.{bit_and_mask, bit_or_high}
use corelib_cpp.Wire.{Wire, Fix, wire_code, wire_of, fix_code}
use corelib_cpp.Wire.{header_word, fixlen_word}
use corelib_cpp.Word.{shr}

wire_code-lt : (w : Wire) → wire_code w < 8
wire_code-lt w = ground arith

wire_of-code : (w : Wire) → wire_of (wire_code w) ≡ w
wire_of-code w = ground arith

pub header_word_lem :
    (field_id : ℕ) (w : Wire) → header_word field_id w ≡ field_id * 8 + wire_code w
unfolding header_word
header_word_lem field_id w = bit_or_high 3 field_id (wire_code w) (wire_code-lt w)

-- A header word gives back the field id and the wire type that it was made of.
pub header_word_fields :
    (field_id : ℕ) (w : Wire)
    → (shr (header_word field_id w) 3 ≡ field_id)
      × (wire_of (bit_and (header_word field_id w) 0x7) ≡ w)
header_word_fields field_id w = (
  omega (arith, header_word_lem field_id w, wire_code-lt w),
  ap wire_of (bit_and_mask 3 (header_word field_id w) ∙ low) ∙ wire_of-code w,
)
  where
    low : header_word field_id w % 2 ^ 3 ≡ wire_code w
    low = omega (arith, header_word_lem field_id w, wire_code-lt w)

pub fixlen_word_lem : (len : ℕ) (ft : Fix) → fixlen_word len ft ≡ len * 8 + fix_code ft
unfolding fixlen_word
fixlen_word_lem len ft = bit_or_high 3 len (fix_code ft) (ground arith)
