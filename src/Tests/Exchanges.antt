-- ===== src/Tests/Exchanges.antt =====
-- Runs of the encoder into the decoder at concrete inputs.
use corelib_cpp.Common.{
  ℕ, ◌≡◌, refl, arith, inl, inr, List, [], ◌∷◌, none, some, true, false, map, replicate,
}
use corelib_cpp.Common.Int.{pos, negsuc}
use corelib_cpp.Word.{Endian}
use corelib_cpp.Wire.{Error, Wire, Fix, header_word}
use corelib_cpp.Zigzag.{zigzag_encode}
use corelib_cpp.Varint.{encode_varint_padded}
use corelib_cpp.OStream.{OStream}
use corelib_cpp.OStream.View.{wire, sent}
use corelib_cpp.OStream.Fields.{write_scalar, write_int_array, write_fixlen}
use corelib_cpp.Tests.Decoding.{idle}
use corelib_cpp.IStream.Dest.{Dest, dest_contents}
use corelib_cpp.IStream.Header.{parse_field_header}
use corelib_cpp.IStream.Header.Heads.{Head, headed}
use corelib_cpp.IStream.Payload.{fit_and_read}
use corelib_cpp.IStream.Payload.Pieces.{accepted}
use corelib_cpp.IStream.Scalars.{sint, Value, integer, read_scalar}
use corelib_cpp.IStream.Scalars.Fields.{IsWidth, of_sint, word_of, scalar_head}
use corelib_cpp.IStream.Elements.{admits, read_int_elements}
use corelib_cpp.Exchange.{
  IsEmpty, element_of, read_scalar-write_scalar, read_int_elements-write_int_array,
}
use corelib_cpp.Exchange.Payloads.{fit_and_read-write_fixlen}
use corelib_cpp.Utf8.{utf8_step, utf8_advance}

-- Forty bytes without a callback.
abbrev blank : OStream
blank = record {
  memory = replicate 40 0;
  cursor = 0;
  offset = 0;
  callback = none;
  delivered = [];
  seq_depth = 0;
  pending = [];
  failure = Error.no_error;
  installed = true;
}

blank-IsEmpty : IsEmpty blank
unfolding wire sent
blank-IsEmpty = record {
  valid = record { inside = omega arith; reserved = omega arith; usable = inl refl };
  fine = refl;
  at_once = refl;
  unwritten = refl;
}

short_type : IsWidth 16
unfolding IsWidth
short_type = inr (inl refl)

scalar_written :
    (write_scalar Endian.big 7 Wire.signed (zigzag_encode (negsuc 299)) blank).1 ≡ Error.no_error
unfolding write_scalar
scalar_written = refl

-- A `short` from one kind of host to the other.
read_scalar-write_scalar_example :
    read_scalar Endian.little
      (sint 16)
      (parse_field_header Endian.little (record idle {
        p = wire (write_scalar Endian.big 7 Wire.signed (zigzag_encode (negsuc 299)) blank).0;
      })).0
    ≡ (
      record (headed (scalar_head (sint 16) 7) idle) { p = []; consumed = true },
      some (integer (negsuc 299)),
    )
read_scalar-write_scalar_example =
    read_scalar-write_scalar Endian.big Endian.little (sint 16) (integer (negsuc 299)) 7 blank idle
      (of_sint short_type (omega arith)) (omega arith) blank-IsEmpty scalar_written

abbrev shorts : List Value
shorts = integer (pos 3) ∷ integer (negsuc 999) ∷ []

abbrev zeros : List Value
zeros = integer (pos 0) ∷ integer (pos 0) ∷ []

array_written : (write_int_array Endian.big 7 true (map element_of shorts) blank).1 ≡ Error.no_error
unfolding write_int_array encode_varint_padded header_word
array_written = refl

ok3 : admits (sint 16) none (word_of (integer (pos 3))) ≡ true
unfolding admits
ok3 = refl

ok1000 : admits (sint 16) none (word_of (integer (negsuc 999))) ≡ true
unfolding admits
ok1000 = refl

read_int_elements-write_int_array_example :
    read_int_elements Endian.little
      (sint 16)
      none
      2
      zeros
      (parse_field_header Endian.little (record idle {
        p = wire (write_int_array Endian.big 7 true (map element_of shorts) blank).0;
      })).0
    ≡ (
      record (headed (Head.counted 7 true 2) idle) { p = []; consumed = true; pend_done = 0 },
      shorts,
      true,
    )
read_int_elements-write_int_array_example =
    read_int_elements-write_int_array Endian.big Endian.little (sint 16) none shorts zeros 7 blank
      idle
      ((of_sint short_type (omega arith), ok3), ((of_sint short_type (omega arith), ok1000), tt))
      refl (omega arith) (omega arith) blank-IsEmpty array_written refl

abbrev greeting : List ℕ
greeting = 104 ∷ 195 ∷ 169 ∷ []

greeting_valid : accepted true greeting ≡ true
unfolding utf8_advance utf8_step
greeting_valid = refl

greeting_written : (write_fixlen Endian.big 7 Fix.string greeting blank).1 ≡ Error.no_error
unfolding write_fixlen
greeting_written = refl

fit_and_read-write_fixlen_example :
    (let r =
        fit_and_read Endian.little true
          (Dest.growable [])
          (parse_field_header Endian.little (record idle {
            p = wire (write_fixlen Endian.big 7 Fix.string greeting blank).0;
            incomplete = false;
            consumed = false;
          })).0 in
      (r.2 ≡ true) × (dest_contents r.1 ≡ greeting) × (r.0.consumed ≡ true) × (r.0.p ≡ []))
fit_and_read-write_fixlen_example =
    fit_and_read-write_fixlen Endian.big Endian.little true Fix.string greeting (Dest.growable []) 7
      blank idle (ground arith) greeting_valid refl (omega arith) tt (omega arith) blank-IsEmpty
      greeting_written refl refl
