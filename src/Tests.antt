-- ===== src/Tests.antt =====
-- Runs of the encoder and the decoder at concrete inputs.
pub mod Decoding
pub mod Exchanges
pub mod Levels
pub mod Windows
use corelib_cpp.Common.{
  ℕ, ◌≡◌, refl, arith, inr, List, [], ◌∷◌, ◌++◌, length, some, true, false, map, take, bit_and, ◌≤◌,
  ◌^◌, ◌<◌, All,
}
use corelib_cpp.Common.Int.{negsuc}
use corelib_cpp.Common.Bytes.{IsByte, from_le, to_le}
use corelib_cpp.Word.{Endian, load_little_bits, store_little_bits, gather7, spread7, shr}
use corelib_cpp.Word.Gather.{gather7_lem, from_groups}
use corelib_cpp.Word.Spread.{spread7_lem, groups}
use corelib_cpp.Word.Endianness.{load_little_bits_lem, store_little_bits_lem}
use corelib_cpp.Wire.{Error, Wire, Fix, header_word, fixlen_word, wire_of}
use corelib_cpp.Wire.Words.{header_word_fields}
use corelib_cpp.Varint.{encode_varint, encode_varint_padded, got, cut, get_varint, skip_varint}
use corelib_cpp.Varint.Encode.{encode_varint-varint}
use corelib_cpp.Varint.Spec.{varint, parse}
use corelib_cpp.Varint.Padded.{encode_varint_padded_lem}
use corelib_cpp.Varint.RoundTrip.{
  encode_varint_shape, get_varint-encode_varint, get_varint_bounds, get_varint-prefix,
}
use corelib_cpp.Varint.Decode.{get_varint-parse}
use corelib_cpp.Varint.Skipping.{skip_varint-get_varint, skim}
use corelib_cpp.Zigzag.{zigzag_encode, zigzag_decode}
use corelib_cpp.Zigzag.Laws.{IsI64, zigzag_decode-encode, zigzag_encode-decode}
use corelib_cpp.OStream.{OStream, Callback, hand_over, rewind, push_bytes, ◌>>◌}
use corelib_cpp.OStream.View.{IsValid, wire}
use corelib_cpp.OStream.Drain.{Drained, hand_over-Drained}
use corelib_cpp.OStream.Push.{Outcome, push_bytes_lem}
use corelib_cpp.OStream.Fields.{write_scalar, write_fixlen, write_int_array, Element, element_word}
use corelib_cpp.OStream.Sequences.{sequence_begin_lazy, sequence_end, sequence_end_keep, leave}
use corelib_cpp.OStream.Writes.{starts, flat, write_scalar_lem, write_fixlen_lem}
use corelib_cpp.OStream.Writes.Arrays.{array_field, write_int_array_lem}
use corelib_cpp.OStream.Writes.Opening.{Opened, sequence_begin_lazy-Opened}
use corelib_cpp.OStream.Writes.Nested.{
  IsNested, entered, end_mark, begin-end, sequence_end_keep_lem, sequence_end_keep-IsNested,
}
use corelib_cpp.OStream.Message.{Message, write_message, encode_message, IsWithin, Written, Ready}
use corelib_cpp.Common.{◌==◌}
use corelib_cpp.Utf8.{utf8_valid, utf8_advance}
use corelib_cpp.Utf8.Verdict.{utf8_valid-utf8_advance}
use corelib_cpp.Common.{replicate}
use corelib_cpp.Containers.{InlineVector, capacity, assign, resize}
use corelib_cpp.Containers.Refine.{contents, assign_lem, resize_lem}
use corelib_cpp.OStream.Message.Tree.{write_message-encode_message, write_message_drains}

-- A stream over three bytes, which hands them over and uses them again, inside one open sequence.
abbrev keep : Callback
keep cs = []

abbrev small : OStream
small = record {
  memory = 0 ∷ 0 ∷ 0 ∷ [];
  cursor = 1;
  offset = 1;
  callback = some keep;
  delivered = [];
  seq_depth = 1;
  pending = 9 ∷ [];
  failure = Error.no_error;
  installed = true;
}

abbrev bare : OStream
bare = record small { seq_depth = 0; pending = [] }

small-IsValid : IsValid small
small-IsValid = record {
  inside = omega arith;
  reserved = omega arith;
  usable = inr (inr (omega arith));
}

small-IsNested : IsNested small
small-IsNested = record { part = omega arith; bounded = omega arith }

small-Ready : Ready 2 small
small-Ready = record {
  valid = small-IsValid;
  fine = refl;
  nests = small-IsNested;
  deep = omega arith;
}

bare-Ready : Ready 2 bare
bare-Ready = record {
  valid = record { inside = omega arith; reserved = omega arith; usable = inr (inr (omega arith)) };
  fine = refl;
  nests = record { part = omega arith; bounded = omega arith };
  deep = omega arith;
}

abbrev hi : List ℕ
hi = 104 ∷ 105 ∷ []

abbrev sample : Message
sample = Message.nested 5 (Message.scalar 1 Wire.unsigned 300 Message.done) (
    Message.nested 6 (Message.nested 7 Message.done Message.done)
      (Message.bytes 2 Fix.string hi Message.done))

sample-IsWithin : IsWithin 2 sample
unfolding IsWithin
sample-IsWithin = ground arith

write_message-encode_message_example :
    Written (encode_message sample) small (write_message Endian.little sample small)
write_message-encode_message_example =
    write_message-encode_message Endian.little 2 sample small sample-IsWithin small-Ready

write_message_drains_example :
    ((write_message Endian.big sample bare).1 ≡ Error.no_error)
    × (wire (write_message Endian.big sample bare).0 ≡ wire bare ++ encode_message sample)
write_message_drains_example =
    write_message_drains Endian.big sample keep 2 bare refl (λ cs. refl) refl sample-IsWithin
      bare-Ready

push_bytes_lem_example : Outcome hi small (push_bytes hi small)
push_bytes_lem_example = push_bytes_lem hi small small-IsValid refl

hand_over-Drained_example : Drained small (rewind (hand_over keep small))
hand_over-Drained_example = hand_over-Drained keep refl small-IsValid

abbrev numbers : List Element
numbers = Element.whole 7 ∷ Element.whole 300 ∷ []

numbers-IsU64 : All (λ w. w < 2 ^ 64) (map element_word numbers)
unfolding element_word
numbers-IsU64 = ground arith

write_int_array_lem_example :
    Outcome
      (starts small.pending ++ array_field 3 Wire.array_unsigned 2 (map element_word numbers))
      (flat small)
      (write_int_array Endian.little 3 false numbers small)
write_int_array_lem_example =
    write_int_array_lem Endian.little 3 false numbers small (omega arith) (omega arith)
      numbers-IsU64 small-IsValid refl

sequence_begin_lazy-Opened_example :
    Opened 4 small (sequence_begin_lazy 4 small)
    × IsNested (sequence_begin_lazy 4 small).0
    × (wire (sequence_begin_lazy 4 small).0 ≡ wire small)
sequence_begin_lazy-Opened_example = sequence_begin_lazy-Opened 4 small small-IsNested

sequence_end_keep_lem_example :
    Outcome
      (starts (9 ∷ []) ++ end_mark)
      (record small { pending = []; seq_depth = 0 })
      (sequence_end_keep small)
unfolding leave
sequence_end_keep_lem_example = sequence_end_keep_lem small small-IsValid refl

get_varint-encode_varint_example :
    get_varint Endian.big (encode_varint 300 ++ (1 ∷ [])) ≡ got 300 (1 ∷ [])
get_varint-encode_varint_example =
    get_varint-encode_varint Endian.big 300 (1 ∷ []) (omega arith) (omega arith, tt)

abbrev wild : List ℕ
wild = 200 ∷ 201 ∷ 202 ∷ 203 ∷ 204 ∷ 205 ∷ 206 ∷ 207 ∷ 208 ∷ 2 ∷ 5 ∷ []

wild-IsByte : All IsByte wild
wild-IsByte = ground arith

get_varint-parse_example : get_varint Endian.little wild ≡ parse 10 wild
get_varint-parse_example = get_varint-parse Endian.little wild wild-IsByte

skip_varint-get_varint_example :
    skip_varint Endian.little wild ≡ skim (get_varint Endian.little wild)
skip_varint-get_varint_example = skip_varint-get_varint Endian.little wild wild-IsByte

encode_varint_padded_lem_example :
    let (stored, n) = encode_varint_padded Endian.big 300 in
    (take n stored ≡ encode_varint 300) × (n ≡ length (encode_varint 300)) × (length stored ≤ 10)
encode_varint_padded_lem_example = encode_varint_padded_lem Endian.big 300 (omega arith)

two_bytes : get_varint Endian.little (172 ∷ 2 ∷ 9 ∷ []) ≡ got 300 (9 ∷ [])
unfolding get_varint
two_bytes = refl

get_varint_bounds_example : (300 < 2 ^ 64) × (1 < 3) × (3 ≤ 11)
get_varint_bounds_example =
    get_varint_bounds Endian.little (172 ∷ 2 ∷ 9 ∷ []) 300 (9 ∷ []) (ground arith) two_bytes

encoded_300 : encode_varint 300 ≡ (172 ∷ []) ++ (2 ∷ [])
unfolding encode_varint
encoded_300 = refl

get_varint-prefix_example : get_varint Endian.big (172 ∷ []) ≡ cut
get_varint-prefix_example =
    get_varint-prefix Endian.big 300 2 (172 ∷ []) [] (omega arith) encoded_300

zigzag_decode-encode_example : zigzag_decode (zigzag_encode (negsuc 41)) ≡ negsuc 41
zigzag_decode-encode_example = zigzag_decode-encode (negsuc 41) (omega arith)

abbrev text : List ℕ
text = 104 ∷ 195 ∷ 169 ∷ 65 ∷ 66 ∷ 67 ∷ 68 ∷ 69 ∷ 70 ∷ 71 ∷ 72 ∷ 226 ∷ 130 ∷ []

utf8_valid-utf8_advance_example : utf8_valid Endian.big text ≡ (utf8_advance 0 text == 0)
utf8_valid-utf8_advance_example = utf8_valid-utf8_advance Endian.big text (ground arith)

abbrev four : InlineVector ℕ
four = record { buf = 1 ∷ 2 ∷ 3 ∷ 4 ∷ []; len = 3 }

assign_lem_example :
    contents (assign (7 ∷ 8 ∷ 9 ∷ 10 ∷ 11 ∷ []) four) ≡ take 4 (7 ∷ 8 ∷ 9 ∷ 10 ∷ 11 ∷ [])
assign_lem_example = assign_lem (7 ∷ 8 ∷ 9 ∷ 10 ∷ 11 ∷ []) four

resize_lem_example :
    (contents (resize 0 9 four) ≡ take 4 (contents four) ++ replicate 1 0)
    × ((resize 0 9 four).len ≤ capacity (resize 0 9 four))
    × (capacity (resize 0 9 four) ≡ 4)
resize_lem_example = resize_lem 0 9 four (omega arith)
