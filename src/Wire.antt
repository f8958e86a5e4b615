-- ===== src/Wire.antt =====
-- include/sofab/sofab.hpp: the wire types, the limits, the header words and the outcomes that the
-- encoder and the decoder share.
pub mod Words
use corelib_cpp.Common.{ℕ, ◌*◌, ◌^◌, Bool, true, false, if◌then◌else◌, leb, ◌==◌, bit_and, bit_or}
use corelib_cpp.Common.{Option, none, some, ◌||◌}
use corelib_cpp.Word.{shr}

abbrev pub id_max : ℕ
id_max = 0x7fffffff

abbrev pub fixlen_max : ℕ
fixlen_max = 0x7fffffff

abbrev pub array_max : ℕ
array_max = 0x7fffffff

abbrev pub max_depth : ℕ
max_depth = 255

abbrev pub min_output_buffer : ℕ
min_output_buffer = 1

abbrev pub varint_max_bytes : ℕ
varint_max_bytes = 10

-- `enum class Error`; `no_error` is its `None`.
pub data Error : Type 0 where
  no_error buffer_full invalid_argument invalid_message incomplete limit_exceeded : Error

pub data DecodeStatus : Type 0 where
  complete incomplete invalid limit_exceeded invalid_argument : DecodeStatus

-- `Result::status` of the decoder.
unfoldable pub status : Error → DecodeStatus
status Error.no_error = DecodeStatus.complete
status Error.incomplete = DecodeStatus.incomplete
status Error.limit_exceeded = DecodeStatus.limit_exceeded
status Error.invalid_argument = DecodeStatus.invalid_argument
status _ = DecodeStatus.invalid

pub data Wire : Type 0 where
  unsigned signed fixlen array_unsigned array_signed array_fixlen : Wire
  sequence_start sequence_end : Wire

pub data Fix : Type 0 where
  fp32 fp64 string blob : Fix

abbrev pub wire_code : Wire → ℕ
wire_code unsigned = 0
wire_code signed = 1
wire_code fixlen = 2
wire_code array_unsigned = 3
wire_code array_signed = 4
wire_code array_fixlen = 5
wire_code sequence_start = 6
wire_code sequence_end = 7

-- `static_cast<Wire>` of three bits.
abbrev pub wire_of : ℕ → Wire
wire_of c =
    if c == 0
    then unsigned
    else if c == 1
    then signed
    else if c == 2
    then fixlen
    else if c == 3
    then array_unsigned
    else if c == 4
    then array_signed
    else if c == 5
    then array_fixlen
    else if c == 6
    then sequence_start
    else sequence_end

abbrev pub fix_code : Fix → ℕ
fix_code fp32 = 0
fix_code fp64 = 1
fix_code string = 2
fix_code blob = 3

-- `static_cast<Fix>` of three bits; four of the values are no enumerator.
abbrev pub fix_of : ℕ → Option Fix
fix_of c =
    if c == 0
    then some fp32
    else if c == 1
    then some fp64
    else if c == 2
    then some string
    else if c == 3
    then some blob
    else none

-- `headerWord`: a field id is a `uint32_t`, so the shift by three loses nothing.
unfoldable pub header_word : ℕ → Wire → ℕ
header_word field_id w = bit_or (field_id * 2 ^ 3) (wire_code w)

-- `fixlenWord`: a length is at most `fixlen_max`.
unfoldable pub fixlen_word : ℕ → Fix → ℕ
fixlen_word len ft = bit_or (len * 2 ^ 3) (fix_code ft)

-- The switch of `fixlenWordValid` on the subtype, at the length that the word announces.
abbrev pub fixlen_len_valid : Option Fix → ℕ → Bool
fixlen_len_valid (some fp32) len = len == 4
fixlen_len_valid (some fp64) len = len == 8
fixlen_len_valid (some string) len = leb len fixlen_max
fixlen_len_valid (some blob) len = leb len fixlen_max
fixlen_len_valid none len = false

unfoldable pub fixlen_word_valid : ℕ → Bool
fixlen_word_valid word = fixlen_len_valid (fix_of (bit_and word 0x7)) (shr word 3)

abbrev pub array_esize_valid : Option Fix → ℕ → Bool
array_esize_valid (some fp32) esize = esize == 4
array_esize_valid (some fp64) esize = esize == 8
array_esize_valid _ esize = false

unfoldable pub array_fixlen_word_valid : ℕ → Bool
array_fixlen_word_valid word = array_esize_valid (fix_of (bit_and word 0x7)) (shr word 3)

-- `schemaBoundsHeader`
unfoldable pub schema_bounds_header : Wire → Bool
schema_bounds_header fixlen = true
schema_bounds_header array_unsigned = true
schema_bounds_header array_signed = true
schema_bounds_header array_fixlen = true
schema_bounds_header _ = false
