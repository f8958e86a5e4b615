-- ===== src/Tests/Levels.antt =====
-- Runs of the decoder on whole messages.
use corelib_cpp.Common.{All, map, ℕ, ◌≡◌, refl, arith, true, inr, List, [], ◌∷◌, ◌++◌, length}
use corelib_cpp.Word.{Endian}
use corelib_cpp.Wire.{Error, Fix, max_depth, fixlen_word, header_word}
use corelib_cpp.Varint.{encode_varint}
use corelib_cpp.OStream.View.{wire}
use corelib_cpp.OStream.Message.{write_message, encode_message, enclose, IsWithin, Ready}
use corelib_cpp.OStream.Writes.Nested.{end_mark}
use corelib_cpp.IStream.{IStream}
use corelib_cpp.IStream.Limits.{cap_cannot_fire}
use corelib_cpp.IStream.Header.Heads.{Head}
use corelib_cpp.IStream.Dispatch.{skip_levels}
use corelib_cpp.IStream.Feed.{feed}
use corelib_cpp.IStream.Skipping.{Fields, encode_fields, IsFields, IsPayload}
use corelib_cpp.IStream.Skipping.Trees.{Marks, mark, still}
use corelib_cpp.IStream.Skipping.Sequences.{skip_levels-encode_fields}
use corelib_cpp.IStream.Skipping.Offered.{watch, offer_all}
use corelib_cpp.IStream.Skipping.Accepted.{waiting, feed-encode_fields}
use corelib_cpp.IStream.Skipping.Parts.{feed_each, joined, all_parts, feed_each-joined}
use corelib_cpp.IStream.Skipping.Messages.{IsTyped, fields_of, write_message-feed}
use corelib_cpp.Tests.{sample, keep, bare}
use corelib_cpp.Tests.Decoding.{idle}

-- A stream whose receiver sets no limit.
abbrev pub unlimited : IStream
unlimited = record idle { max_buffered = 18446744073709551615 }

-- The ids that are offered, the last one first.
abbrev note_id : ℕ → ℕ → ℕ → List ℕ → List ℕ
note_id id size count ids = id ∷ ids

-- A number in field 4, and a sequence in field 9 with a string in it.
abbrev two_fields : Fields
two_fields = Fields.plain (Head.unsigned 4) (7 ∷ []) (
    Fields.nested 9 (Fields.plain (Head.sized 2 Fix.string 2) (104 ∷ 105 ∷ []) Fields.nil)
      Fields.nil)

seven : 7 ∷ [] ≡ encode_varint 7
unfolding encode_varint
seven = refl

two_fields-IsFields : IsFields max_depth two_fields
unfolding IsFields IsPayload
two_fields-IsFields = (
  omega arith,
  (7, omega arith, seven),
  (omega arith, omega arith, ((omega arith, refl), (refl, ground arith), tt), tt),
)

two_fields_small : cap_cannot_fire (length (encode_fields two_fields)) unlimited ≡ true
unfolding cap_cannot_fire encode_fields encode_varint header_word fixlen_word
two_fields_small = refl

feed-encode_fields_example :
    (t : IStream) × (feed Endian.big
        (watch note_id)
        (encode_fields two_fields)
        ([], waiting unlimited)
      ≡ ((offer_all note_id two_fields [], waiting t), Error.no_error))
feed-encode_fields_example =
    feed-encode_fields Endian.big note_id two_fields [] unlimited two_fields-IsFields
      two_fields_small

-- The two fields one after the other.
abbrev two_parts : List Fields
two_parts =
    Fields.plain (Head.unsigned 4) (7 ∷ []) Fields.nil
    ∷ Fields.nested 9 (Fields.plain (Head.sized 2 Fix.string 2) (104 ∷ 105 ∷ []) Fields.nil)
        Fields.nil
    ∷ []

two_parts-IsFields : All (IsFields max_depth) two_parts
unfolding IsFields IsPayload
two_parts-IsFields = (
  (omega arith, (7, omega arith, seven), tt),
  ((omega arith, omega arith, ((omega arith, refl), (refl, ground arith), tt), tt), tt),
)

two_parts_size : length (joined (map encode_fields two_parts)) ≡ 8
unfolding encode_fields encode_varint header_word fixlen_word
two_parts_size = refl

feed_each-joined_example :
    (v : List ℕ) × (t : IStream) × (t' : IStream) × (v ≡ offer_all note_id (all_parts two_parts) [])
    × (feed_each Endian.little (watch note_id) (map encode_fields two_parts) ([], waiting unlimited)
        ≡ ((v, waiting t), Error.no_error))
    × (feed Endian.little
          (watch note_id)
          (joined (map encode_fields two_parts))
          ([], waiting unlimited)
        ≡ ((v, waiting t'), Error.no_error))
feed_each-joined_example =
    feed_each-joined Endian.little note_id two_parts [] unlimited two_parts-IsFields
      (omega (arith, two_parts_size), omega arith)

-- A header of field 3, one value and the mark of the end, and a byte behind it.
abbrev inner_fields : Fields
inner_fields = Fields.plain (Head.unsigned 3) (7 ∷ []) Fields.nil

inner_fields-IsFields : IsFields 0 inner_fields
unfolding IsFields IsPayload
inner_fields-IsFields = (omega arith, (7, omega arith, seven), tt)

skip_levels-encode_fields_example :
    (m : Marks) × (skip_levels Endian.little 3
        (record (still idle) { p = encode_fields inner_fields ++ (end_mark ++ (200 ∷ [])) })
      ≡ record (still (mark m idle)) { p = 200 ∷ [] })
skip_levels-encode_fields_example =
    skip_levels-encode_fields Endian.little inner_fields 2 0 (200 ∷ []) idle inner_fields-IsFields
      (omega arith) (omega arith) (ground arith)

sample-IsTyped : IsTyped sample
unfolding IsTyped
sample-IsTyped = ground arith

sample-IsWithin_deep : IsWithin max_depth sample
unfolding IsWithin
sample-IsWithin_deep = ground arith

bare-Ready_deep : Ready max_depth bare
bare-Ready_deep = record {
  valid = record { inside = omega arith; reserved = omega arith; usable = inr (inr (omega arith)) };
  fine = refl;
  nests = record { part = omega arith; bounded = omega arith };
  deep = omega arith;
}

sample_small : cap_cannot_fire (length (encode_message sample)) unlimited ≡ true
unfolding cap_cannot_fire encode_message enclose encode_varint header_word fixlen_word
sample_small = refl

write_message-feed_example :
    (bs : List ℕ) × (t : IStream) × (wire (write_message Endian.little sample bare).0
      ≡ wire bare ++ bs)
    × (feed Endian.little (watch note_id) bs ([], waiting unlimited)
        ≡ ((offer_all note_id (fields_of sample) [], waiting t), Error.no_error))
write_message-feed_example =
    write_message-feed Endian.little sample keep bare note_id [] unlimited refl (λ cs. refl) refl
      sample-IsWithin_deep sample-IsTyped bare-Ready_deep sample_small

offered_run : offer_all note_id two_fields [] ≡ 9 ∷ 4 ∷ []
unfolding offer_all
offered_run = refl
