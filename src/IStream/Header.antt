-- ===== src/IStream/Header.antt =====
-- IStreamImpl: parseFieldTag, parseFieldMeta and parseFieldHeader.
pub mod Heads
pub mod RoundTrip
pub mod Cut
use corelib_cpp.Common.{
  ℕ, Bool, true, false, ltb, not, if◌then◌else◌, List, [], ◌∷◌, bit_and, Option, none, some,
}
use corelib_cpp.Word.{Endian, shr}
use corelib_cpp.Wire.{
  Wire, Fix, wire_of, fix_of, id_max, array_max, fixlen_word_valid, array_fixlen_word_valid,
}
use corelib_cpp.Varint.{Read, got, overflow, cut, get_varint}
use corelib_cpp.IStream.{IStream}

-- A step that may stop: the stream, and whether it goes on.
abbrev pub Step : Type 0
Step = IStream → IStream × Bool

-- `if (!getVarint(p_, end_, v, &ovf)) { (ovf ? error_ : incomplete_) = true; return false; }`
unfoldable pub then_got : Read → (ℕ → Step) → Step
then_got (got v rest) next s = next v (record s { p = rest })
then_got (overflow rest) next s = (record s { p = rest; error = true }, false)
then_got cut next s = (record s { incomplete = true }, false)

unfoldable pub tag_of : ℕ → Step
tag_of header s =
    if ltb id_max (shr header 3)
    then (record s { error = true }, false)
    else (record s { field_id = shr header 3; type = wire_of (bit_and header 0x7) }, true)

unfoldable pub parse_field_tag : Endian → Step
unfolding then_got tag_of
parse_field_tag host s = then_got (get_varint host s.p) tag_of s

abbrev pub fix_or : Option Fix → Fix → Fix
fix_or none old = old
fix_or (some f) old = f

unfoldable pub fixlen_of : ℕ → Step
fixlen_of sub s = if not (fixlen_word_valid sub) then (record s { error = true }, false) else (
  record s { fix_len = shr sub 3; fix_type = fix_or (fix_of (bit_and sub 0x7)) s.fix_type },
  true,
)

unfoldable pub count_of : ℕ → Step
count_of n s =
    if ltb array_max n then (record s { error = true }, false) else (record s { count = n }, true)

unfoldable pub esize_of : ℕ → Step
esize_of sub s = if not (array_fixlen_word_valid sub) then (record s { error = true }, false) else (
  record s { fix_len = shr sub 3; fix_type = fix_or (fix_of (bit_and sub 0x7)) s.fix_type },
  true,
)

-- The array of floats reads its second word where the count was admitted.
unfoldable pub count_then_esize : Endian → ℕ → Step
unfolding count_of esize_of then_got
count_then_esize host n s =
    let (s', go) = count_of n s in
    if go then then_got (get_varint host s'.p) esize_of s' else (s', false)

-- The switch on the wire type.
unfoldable pub meta_of : Endian → Wire → Step
unfolding then_got fixlen_of count_of count_then_esize
meta_of host Wire.fixlen s = then_got (get_varint host s.p) fixlen_of s
meta_of host Wire.array_unsigned s = then_got (get_varint host s.p) count_of s
meta_of host Wire.array_signed s = then_got (get_varint host s.p) count_of s
meta_of host Wire.array_fixlen s = then_got (get_varint host s.p) (count_then_esize host) s
meta_of host _ s = (s, true)

unfoldable pub parse_field_meta : Endian → Step
unfolding meta_of
parse_field_meta host s = meta_of host s.type (record s { fix_len = 0; count = 0 })

abbrev pub is_sequence_end : Wire → Bool
is_sequence_end Wire.sequence_end = true
is_sequence_end _ = false

unfoldable pub parse_field_header : Endian → Step
unfolding parse_field_tag parse_field_meta
parse_field_header host s =
    let (s', go) = parse_field_tag host s in
    if not go
    then (s', false)
    else if is_sequence_end s'.type
    then (record s' { error = true }, false)
    else parse_field_meta host s'
