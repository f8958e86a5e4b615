-- ===== src/Tests/Decoding.antt =====
-- Runs of the decoder and of the containers at concrete inputs.
use corelib_cpp.Common.{ℕ, ◌≡◌, refl, arith, inl, inr, List, [], ◌∷◌, ◌++◌, none, some, true, false}
use corelib_cpp.Word.{Endian}
use corelib_cpp.Wire.{header_word, fixlen_word, Error, Wire, Fix}
use corelib_cpp.IStream.{IStream, no_limits, spanned}
use corelib_cpp.Common.{◌≤◌, ◌+◌, ◌^◌, take}
use corelib_cpp.Common.Int.{pos}
use corelib_cpp.Varint.{encode_varint, get_varint}
use corelib_cpp.OStream.Fields.{single}
use corelib_cpp.Utf8.{utf8_valid, utf8_step}
use corelib_cpp.BitsEqual.{bits_equal}
use corelib_cpp.BitsEqual.Exact.{bits_equal-exact}
use corelib_cpp.Containers.FixedString
use corelib_cpp.Containers.FixedBytes
use corelib_cpp.Containers.FixedString.{FixedString}
use corelib_cpp.Containers.FixedBytes.{FixedBytes}
use corelib_cpp.Containers.Truncation.{assign-view}
use corelib_cpp.Containers.Octets.{fixed_bytes_lem}
use corelib_cpp.IStream.Header.Cut.{Starved, parse_field_header-prefix}
use corelib_cpp.IStream.Limits.{cap_cannot_fire, exceeds_buffer_at_header}
use corelib_cpp.IStream.Limits.Buffered.{exceeds_buffer_at_header-cap}
use corelib_cpp.IStream.Dest.{Dest}
use corelib_cpp.IStream.Payload.{
  fit_and_read, read_string, read_string_capped, read_blob, read_blob_capped, accepts_string,
  accepts_string_capped, accepts_blob, accepts_blob_capped,
}
use corelib_cpp.IStream.Payload.Pieces.{Ended}
use corelib_cpp.IStream.Payload.Chunks.{read_chunks, read_chunks-Ended}
use corelib_cpp.IStream.Payload.Gates.{after_gate, gated_reads}
use corelib_cpp.IStream.Scalars.{uint, Value, whole}
use corelib_cpp.IStream.Scalars.Fields.{IsWidth}
use corelib_cpp.IStream.Elements.{Bounds, admits, read_int_elements}
use corelib_cpp.IStream.Elements.Reading.{one_by_one, read_int_elements-one_by_one}
use corelib_cpp.IStream.Elements.Resume.{settled, read_int_elements-resume}
use corelib_cpp.IStream.Header.{parse_field_header}
use corelib_cpp.IStream.Header.Heads.{Head, encode_head, headed}
use corelib_cpp.IStream.Header.RoundTrip.{parse_field_header-encode_head}

-- A stream at rest.
abbrev pub idle : IStream
idle = record {
  carry = [];
  suspend_depth = none;
  replay = false;
  path = λ i. (0, false);
  pend = record {
    active = false;
    field_id = 0;
    type = Wire.unsigned;
    fix = Fix.fp32;
    len = 0;
    count = 0;
    skip = false;
  };
  pend_done = 0;
  utf8_state = 0;
  span_carry = 0;
  span_base = none;
  span_skip = false;
  cap_inert = false;
  span_skipped = 0;
  p = [];
  type = Wire.unsigned;
  fix_type = Fix.fp32;
  fix_len = 0;
  count = 0;
  consumed = false;
  error = false;
  limit_exceeded = false;
  arg_error = false;
  terminal = Error.no_error;
  seq_depth = 0;
  skipped = 0;
  incomplete = false;
  elem = no_limits;
  field_id = 0;
  max_buffered = 1000;
}

-- The header of a string of five bytes in field 200.
abbrev five_bytes : Head
five_bytes = Head.sized 200 Fix.string 5

parse_field_header-encode_head_example :
    parse_field_header Endian.big (record idle { p = encode_head five_bytes ++ (104 ∷ 101 ∷ []) })
    ≡ (headed five_bytes (record idle { p = 104 ∷ 101 ∷ [] }), true)
parse_field_header-encode_head_example =
    parse_field_header-encode_head Endian.big five_bytes (104 ∷ 101 ∷ []) idle (omega arith, refl)
      (ground arith)

-- Its first three bytes of four.
cut_head : encode_head five_bytes ≡ (194 ∷ 12 ∷ []) ++ (42 ∷ [])
unfolding encode_varint header_word fixlen_word
cut_head = refl

parse_field_header-prefix_example :
    Starved idle (parse_field_header Endian.little (record idle { p = 194 ∷ 12 ∷ [] }))
parse_field_header-prefix_example =
    parse_field_header-prefix Endian.little five_bytes 42 (194 ∷ 12 ∷ []) [] idle
      (omega arith, refl) cut_head

abbrev limited : IStream
limited = record idle {
  span_carry = 10;
  type = Wire.fixlen;
  fix_len = 7;
  p = 1 ∷ 2 ∷ [];
  max_buffered = 2 ^ 63;
}

near : spanned limited ≤ 10 + 3
unfolding spanned
near = omega arith

inert : cap_cannot_fire 3 limited ≡ true
unfolding cap_cannot_fire
inert = refl

exceeds_buffer_at_header-cap_example : exceeds_buffer_at_header limited ≡ false
exceeds_buffer_at_header-cap_example =
    exceeds_buffer_at_header-cap 3 limited (omega arith) (omega arith) (omega arith) (omega arith)
      near inert

abbrev text_field : IStream
text_field = record idle { type = Wire.fixlen; fix_type = Fix.string; fix_len = 5 }

abbrev room_for_six : Dest
room_for_six = Dest.string (record { buf = 0 ∷ 0 ∷ 0 ∷ 0 ∷ 0 ∷ 0 ∷ 0 ∷ []; len = 0 })

-- A string of which a code point is cut between two chunks.
read_chunks-Ended_example :
    Ended true (((104 ∷ 195 ∷ []) ++ ((169 ∷ []) ++ [])) ++ (65 ∷ 66 ∷ [])) (7 ∷ []) text_field (
      read_chunks Endian.big true
        ((104 ∷ 195 ∷ []) ∷ (169 ∷ []) ∷ [])
        ((65 ∷ 66 ∷ []) ++ (7 ∷ []))
        room_for_six
        text_field)
read_chunks-Ended_example =
    read_chunks-Ended Endian.big true ((104 ∷ 195 ∷ []) ∷ (169 ∷ []) ∷ []) (65 ∷ 66 ∷ []) (7 ∷ [])
      room_for_six text_field refl refl (omega arith) refl (inl (omega arith)) (ground arith)

gated_reads_example :
    (read_string Endian.big (some 4) room_for_six text_field
      ≡ after_gate
          (accepts_string (some 4) text_field)
          (fit_and_read Endian.big true room_for_six)
          room_for_six)
    × (read_string_capped Endian.big (some 4) room_for_six text_field
        ≡ after_gate
            (accepts_string_capped (some 4) text_field)
            (fit_and_read Endian.big true room_for_six)
            room_for_six)
    × (read_blob Endian.big (some 4) room_for_six text_field
        ≡ after_gate
            (accepts_blob (some 4) text_field)
            (fit_and_read Endian.big false room_for_six)
            room_for_six)
    × (read_blob_capped Endian.big (some 4) room_for_six text_field
        ≡ after_gate
            (accepts_blob_capped (some 4) text_field)
            (fit_and_read Endian.big false room_for_six)
            room_for_six)
gated_reads_example = gated_reads Endian.big (some 4) room_for_six text_field

short_type : IsWidth 16
unfolding IsWidth
short_type = inr (inl refl)

-- An array of three bytes values, the bound of the type being 255.
abbrev byte_bounds : Bounds
byte_bounds = some (pos 0, pos 255)

abbrev three_left : IStream
three_left = record idle { type = Wire.array_unsigned; count = 3 }

abbrev places : List Value
places = whole 0 ∷ whole 0 ∷ []

read_int_elements-one_by_one_example :
    read_int_elements Endian.big
      (uint 8)
      byte_bounds
      2
      places
      (record three_left { p = 200 ∷ 1 ∷ 5 ∷ 172 ∷ [] })
    ≡ one_by_one Endian.big
        (uint 8)
        byte_bounds
        2
        places
        (record three_left { p = 200 ∷ 1 ∷ 5 ∷ 172 ∷ [] })
read_int_elements-one_by_one_example =
    read_int_elements-one_by_one Endian.big (uint 8) byte_bounds 2 places
      (record three_left { p = 200 ∷ 1 ∷ 5 ∷ 172 ∷ [] }) (ground arith)

ok200 : admits (uint 8) byte_bounds 200 ≡ true
unfolding admits
ok200 = refl

ok5 : admits (uint 8) byte_bounds 5 ≡ true
unfolding admits
ok5 = refl

ok255 : admits (uint 8) byte_bounds 255 ≡ true
unfolding admits
ok255 = refl

cut_off :
    (read_int_elements Endian.big
      (uint 8)
      byte_bounds
      2
      places
      (record three_left { p = 200 ∷ 1 ∷ 133 ∷ [] })).0.incomplete
    ≡ true
unfolding read_int_elements get_varint
cut_off = refl

read_int_elements-resume_example :
    (let first =
        read_int_elements Endian.big
          (uint 8)
          byte_bounds
          2
          places
          (record three_left { p = 200 ∷ 1 ∷ 133 ∷ [] }) in
      settled (
        read_int_elements Endian.big
          (uint 8)
          byte_bounds
          2
          first.1
          (record first.0 { p = first.0.p ++ (0 ∷ 7 ∷ 8 ∷ []); incomplete = false }))
      ≡ settled (
          read_int_elements Endian.big
            (uint 8)
            byte_bounds
            2
            places
            (record three_left { p = (200 ∷ 1 ∷ 133 ∷ []) ++ (0 ∷ 7 ∷ 8 ∷ []) })))
read_int_elements-resume_example =
    read_int_elements-resume Endian.big (uint 8) byte_bounds 2 places three_left
      (200 ∷ 1 ∷ 133 ∷ []) (0 ∷ 7 ∷ 8 ∷ []) (ground arith) (ground arith) refl refl cut_off

-- Two letters of two bytes each, of which the second does not fit three bytes.
abbrev letters : List ℕ
letters = 195 ∷ 169 ∷ 195 ∷ 168 ∷ []

letters_valid : utf8_valid Endian.big letters ≡ true
unfolding utf8_valid utf8_step
letters_valid = refl

abbrev three : FixedString
three = record { buf = 0 ∷ 0 ∷ 0 ∷ 0 ∷ []; len = 0 }

assign-view_example :
    (FixedString.view (FixedString.assign letters three)
      ≡ take (FixedString.assign letters three).len letters)
    × ((FixedString.assign letters three).len ≤ 3)
    × (utf8_valid Endian.big (FixedString.view (FixedString.assign letters three)) ≡ true)
    × ((k : ℕ)
        → k ≤ 3
        → k ≤ 4
        → utf8_valid Endian.big (take k letters) ≡ true
        → k ≤ (FixedString.assign letters three).len)
assign-view_example = assign-view Endian.big letters three (ground arith) letters_valid

abbrev octets : FixedBytes
octets = record { buf = 1 ∷ 2 ∷ 3 ∷ []; len = 2 }

abbrev others : FixedBytes
others = record { buf = 1 ∷ 2 ∷ 9 ∷ []; len = 2 }

fixed_bytes_lem_example :
    (FixedBytes.contents (FixedBytes.assign (5 ∷ 6 ∷ 7 ∷ 8 ∷ []) octets) ≡ 5 ∷ 6 ∷ 7 ∷ [])
    × (FixedBytes.contents (FixedBytes.push_back 4 octets) ≡ 1 ∷ 2 ∷ 4 ∷ [])
    × (FixedBytes.equal octets others ≡ true
        → FixedBytes.contents octets ≡ FixedBytes.contents others)
    × (FixedBytes.contents octets ≡ FixedBytes.contents others
        → FixedBytes.equal octets others ≡ true)
fixed_bytes_lem_example =
    fixed_bytes_lem (5 ∷ 6 ∷ 7 ∷ 8 ∷ []) 4 octets others (omega arith) (omega arith)

-- The two zeros of a float.
abbrev minus_zero : List ℕ
minus_zero = 0x80000000 ∷ []

abbrev plus_zero : List ℕ
plus_zero = 0 ∷ []

bits_equal-exact_example :
    (bits_equal Endian.big single minus_zero plus_zero ≡ true → minus_zero ≡ plus_zero)
    × (minus_zero ≡ plus_zero → bits_equal Endian.big single minus_zero plus_zero ≡ true)
bits_equal-exact_example =
    bits_equal-exact Endian.big single minus_zero plus_zero (omega arith, tt) (omega arith, tt)
