-- ===== src/Tests/Windows.antt =====
-- Runs of the decoder on windows of bytes and on its containers.
use corelib_cpp.Common.{
  ℕ, ◌+◌, ◌≤◌, ◌≡◌, refl, arith, Bool, true, false, List, [], ◌∷◌, none, some, length, drop,
}
use corelib_cpp.Word.{Endian}
use corelib_cpp.Wire.{Error, Wire, Fix, max_depth, fixlen_word_valid}
use corelib_cpp.Varint.{get_varint}
use corelib_cpp.IStream.{IStream}
use corelib_cpp.IStream.Dest.{Dest, dest_set_len, dest_store}
use corelib_cpp.IStream.Payload.{read_string}
use corelib_cpp.Utf8.{utf8_valid, utf8_advance, utf8_step}
use corelib_cpp.IStream.Levels.{Handler, skip_field}
use corelib_cpp.IStream.Skipping.Chunks.{Skipped, skip_chunks, suspended, skip_field-Skipped}
use corelib_cpp.IStream.Dispatch.{skip_levels, dispatch_loop}
use corelib_cpp.IStream.Feed.{feed, top_loop}
use corelib_cpp.IStream.Feed.Latched.{goes_on, feed-feed}
use corelib_cpp.IStream.Window.{drop-Behind}
use corelib_cpp.IStream.Window.Loops.{Keeps, dispatch_loop-length}
use corelib_cpp.IStream.Window.Levels.{skip_levels-Stays}
use corelib_cpp.IStream.Window.Feeding.{Run, top_loop-Run}
use corelib_cpp.IStream.Collectors.{Collector, published, cleared, string_seq, blob_seq, row_seq}
use corelib_cpp.IStream.Collectors.Bounded.{collectors-Within}
use corelib_cpp.IStream.Nested.{read_message, float_pieces, load_floats}
use corelib_cpp.IStream.Nested.Floats.{float_pieces-load_floats}
use corelib_cpp.Tests.Decoding.{idle}
use corelib_cpp.Tests.Levels.{unlimited}

-- A handler that adds up the ids and takes one byte of each field.
abbrev one_byte : Handler ℕ
one_byte id size count (sum, s) = (sum + id, record s { p = drop 1 s.p; consumed = true })

one_byte-Keeps : Keeps one_byte
one_byte-Keeps id size count sum s k = drop-Behind 1 s.p

-- Two numbers, and a header that is cut.
abbrev numbers_and_more : List ℕ
numbers_and_more = 8 ∷ 1 ∷ 16 ∷ 2 ∷ 200 ∷ []

top_loop-Run_example :
    (n : ℕ) × (n ≤ 5)
    × Run Endian.little
        (skip_levels Endian.little max_depth)
        one_byte
        n
        (0, record idle { p = numbers_and_more })
        (top_loop Endian.little
          (skip_levels Endian.little max_depth)
          one_byte
          99
          (0, record idle { p = numbers_and_more }))
top_loop-Run_example =
    top_loop-Run Endian.little max_depth 99 one_byte 0 (record idle { p = numbers_and_more })
      one_byte-Keeps (ground arith) (omega arith)

-- Three bytes of a string of nine are skipped. It ends in the third chunk.
abbrev a_long_string : IStream
a_long_string = record idle { type = Wire.fixlen; fix_type = Fix.string; fix_len = 9 }

abbrev three_chunks : List (List ℕ)
three_chunks = (1 ∷ 2 ∷ []) ∷ [] ∷ (3 ∷ 4 ∷ 5 ∷ 6 ∷ 7 ∷ []) ∷ (8 ∷ []) ∷ []

skip_field-Skipped_example : Skipped 3 6 three_chunks a_long_string (
    skip_chunks
      (skip_field Endian.big (skip_levels Endian.big 2))
      three_chunks
      (suspended 3 a_long_string))
skip_field-Skipped_example =
    skip_field-Skipped Endian.big (skip_levels Endian.big 2) three_chunks 3 a_long_string
      (omega arith)

skip_run :
    skip_chunks
      (skip_field Endian.big (skip_levels Endian.big 2))
      three_chunks
      (suspended 3 a_long_string)
    ≡ record a_long_string { p = 7 ∷ [] }
unfolding skip_chunks skip_field
skip_run = refl

dispatch_loop-length_example :
    dispatch_loop Endian.little
      (skip_levels Endian.little 4)
      one_byte
      99
      true
      (0, record idle { p = numbers_and_more })
    ≡ dispatch_loop Endian.little
        (skip_levels Endian.little 4)
        one_byte
        5
        true
        (0, record idle { p = numbers_and_more })
dispatch_loop-length_example =
    dispatch_loop-length Endian.little (skip_levels Endian.little 4) one_byte 99 true 0
      (record idle { p = numbers_and_more }) (skip_levels-Stays Endian.little 4) one_byte-Keeps
      (ground arith) (omega arith)

-- An end mark at the top level is refused.
refused : goes_on (feed Endian.little one_byte (7 ∷ []) (0, idle)).1 ≡ false
unfolding feed get_varint
refused = refl

feed-feed_example :
    (let r = feed Endian.little one_byte (7 ∷ []) (0, idle) in
      feed Endian.little one_byte (8 ∷ 1 ∷ []) r.0 ≡ r)
feed-feed_example = feed-feed Endian.little one_byte one_byte (7 ∷ []) (8 ∷ 1 ∷ []) 0 idle refused

abbrev three_at_most : Collector
three_at_most = record {
  cap = some 3;
  elem_max = some 5;
  index_cap = none;
  elem_len_cap = none;
  dest = none;
}

abbrev a_string : IStream
a_string = record idle {
  p = 104 ∷ 105 ∷ [];
  type = Wire.fixlen;
  fix_type = Fix.string;
  fix_len = 2;
}

abbrev no_read : Dest → IStream → IStream × Dest × Bool
no_read d s = (s, d, true)

-- The third string of a sequence that has one so far.
collectors-Within_example :
    (length
        (string_seq Endian.little three_at_most
          (Dest.growable [])
          2
          2
          0
          (Dest.growable [] ∷ [], a_string)).0
      ≤ 3)
    × (length
          (blob_seq Endian.little three_at_most
            (Dest.growable [])
            2
            2
            0
            (Dest.growable [] ∷ [], a_string)).0
        ≤ 3)
    × (length
          (row_seq
            (some Wire.fixlen)
            (some 3)
            none
            none
            (Dest.growable [])
            no_read
            2
            2
            0
            (Dest.growable [] ∷ [], a_string)).0
        ≤ 3)
collectors-Within_example =
    collectors-Within Endian.little three_at_most (Dest.growable []) (some Wire.fixlen) no_read 3 2
      2 0 (Dest.growable [] ∷ []) a_string (omega arith) (omega arith)

-- Two floats of which the span has room for one.
float_pieces-load_floats_example :
    float_pieces Endian.little 4 2 0 1
      (0 ∷ [])
      (record idle { p = 1 ∷ 0 ∷ 0 ∷ 0 ∷ 2 ∷ 0 ∷ 0 ∷ 0 ∷ 9 ∷ [] })
    ≡ (
      record idle { p = 9 ∷ []; pend_done = 0; consumed = true },
      load_floats Endian.little 4 1 0 (1 ∷ 0 ∷ 0 ∷ 0 ∷ 2 ∷ 0 ∷ 0 ∷ 0 ∷ 9 ∷ []) (0 ∷ []),
      true,
    )
float_pieces-load_floats_example =
    float_pieces-load_floats Endian.little 4 2 0 1 (0 ∷ [])
      (record idle { p = 1 ∷ 0 ∷ 0 ∷ 0 ∷ 2 ∷ 0 ∷ 0 ∷ 0 ∷ 9 ∷ [] }) (omega arith) (omega arith)

-- Runs.
string_run :
    (string_seq Endian.little three_at_most
      (Dest.growable [])
      2
      2
      0
      (Dest.growable (1 ∷ []) ∷ [], a_string)).0
    ≡ Dest.growable (1 ∷ []) ∷ Dest.growable [] ∷ Dest.growable (104 ∷ 105 ∷ []) ∷ []
unfolding string_seq read_string utf8_valid dest_set_len dest_store
string_run = refl

-- A sequence of strings in field 1, which arrives in two parts that are cut inside a string.
abbrev strings : Handler (List Dest)
strings id size count st =
    (read_message Endian.little (skip_levels Endian.little max_depth)
      (published Fix.string three_at_most) cleared
      (string_seq Endian.little three_at_most (Dest.growable [])) st).0

abbrev first_part : (List Dest × IStream) × Error
first_part = feed Endian.little strings (14 ∷ 2 ∷ 18 ∷ 104 ∷ []) ([], unlimited)

abbrev second_part : (List Dest × IStream) × Error
second_part = feed Endian.little strings (105 ∷ 7 ∷ []) first_part.0

strings_run :
    (first_part.1 ≡ Error.incomplete)
    × (second_part.1 ≡ Error.no_error)
    × (second_part.0.0 ≡ Dest.growable (104 ∷ 105 ∷ []) ∷ [])
unfolding feed read_message string_seq get_varint read_string utf8_valid utf8_advance dest_set_len
    dest_store fixlen_word_valid utf8_step
strings_run = (refl, refl, refl)
