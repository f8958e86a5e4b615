-- ===== src/IStream/Header/Heads.antt =====
-- The headers that the encoder writes, and IStreamImpl::parseFieldTag and parseFieldMeta on them.
use corelib_cpp.Common.{
  ℕ, ◌%◌, ◌^◌, ◌≤◌, ◌<◌, ◌≡◌, refl, ap, ◌∙◌, arith, Bool, true, false, if◌then◌else◌, ge→ltb,
}
use corelib_cpp.Common.{List, [], ◌++◌, append_assoc, All, All-append}
use corelib_cpp.Common.Bytes.{IsByte}
use corelib_cpp.Common.{some}
use corelib_cpp.Common.Bits.{bit_and_mask}
use corelib_cpp.Word.{Endian, shr}
use corelib_cpp.Wire.{
  Wire, Fix, fix_of, fix_code, wire_code, header_word, fixlen_word, id_max, array_max, fixlen_max,
  fixlen_len_valid, fixlen_word_valid, array_fixlen_word_valid,
}
use corelib_cpp.OStream.Writes.{fixlen_word-lt}
use corelib_cpp.Wire.Words.{header_word_lem, header_word_fields, fixlen_word_lem}
use corelib_cpp.Varint.{encode_varint, get_varint}
use corelib_cpp.Varint.RoundTrip.{get_varint-encode_varint, encode_varint_shape}
use corelib_cpp.OStream.Fields.{Float, float_size, float_fix}
use corelib_cpp.IStream.{IStream}
use corelib_cpp.IStream.Header.{
  Step, then_got, tag_of, parse_field_tag, fixlen_of, count_of, esize_of, count_then_esize,
  parse_field_meta,
}

-- The field headers that the encoder writes.
pub data Head : Type 0 where
  unsigned signed sequence : ℕ → Head
  sized : ℕ → Fix → ℕ → Head
  counted : ℕ → Bool → ℕ → Head
  floats : ℕ → Float → ℕ → Head

abbrev pub array_wire : Bool → Wire
array_wire is_signed = if is_signed then Wire.array_signed else Wire.array_unsigned

abbrev pub head_bytes : ℕ → Wire → List ℕ
head_bytes i w = encode_varint (header_word i w)

abbrev pub encode_head : Head → List ℕ
encode_head (unsigned i) = head_bytes i Wire.unsigned
encode_head (signed i) = head_bytes i Wire.signed
encode_head (sequence i) = head_bytes i Wire.sequence_start
encode_head (sized i f n) = head_bytes i Wire.fixlen ++ encode_varint (fixlen_word n f)
encode_head (counted i b n) = head_bytes i (array_wire b) ++ encode_varint n
encode_head (floats i f n) =
    head_bytes i Wire.array_fixlen
    ++ (encode_varint n ++ encode_varint (fixlen_word (float_size f) (float_fix f)))

-- The ids, lengths and counts are in range.
abbrev pub IsHead : Head → Type 0
IsHead (unsigned i) = i ≤ id_max
IsHead (signed i) = i ≤ id_max
IsHead (sequence i) = i ≤ id_max
IsHead (sized i f n) = (i ≤ id_max) × (fixlen_len_valid (some f) n ≡ true)
IsHead (counted i b n) = (i ≤ id_max) × (n ≤ array_max)
IsHead (floats i f n) = (i ≤ id_max) × (n ≤ array_max)

-- The stream behind a header.
abbrev pub headed : Head → IStream → IStream
headed (unsigned i) s = record s { field_id = i; type = Wire.unsigned; fix_len = 0; count = 0 }
headed (signed i) s = record s { field_id = i; type = Wire.signed; fix_len = 0; count = 0 }
headed (sequence i) s = record s {
  field_id = i;
  type = Wire.sequence_start;
  fix_len = 0;
  count = 0;
}
headed (sized i f n) s = record s {
  field_id = i;
  type = Wire.fixlen;
  fix_type = f;
  fix_len = n;
  count = 0;
}
headed (counted i b n) s = record s { field_id = i; type = array_wire b; fix_len = 0; count = n }
headed (floats i f n) s = record s {
  field_id = i;
  type = Wire.array_fixlen;
  fix_type = float_fix f;
  fix_len = float_size f;
  count = n;
}

pub word-lt : (i : ℕ) (w : Wire) → i ≤ id_max → header_word i w < 2 ^ 64
word-lt i w h = let code : wire_code w < 8 = ground arith in omega (arith, header_word_lem i w)

-- The words that follow a header word.
fixlen_of-fixlen_word :
    (n : ℕ) (f : Fix) (s : IStream)
    → fixlen_len_valid (some f) n ≡ true
    → fixlen_of (fixlen_word n f) s ≡ (record s { fix_len = n; fix_type = f }, true)
unfolding fixlen_of fixlen_word_valid
fixlen_of-fixlen_word n f s h =
    rw (bit_and_mask 3 (fixlen_word n f), low n f, high n f, fix_of-code f, h) refl
  where
    low : (n : ℕ) (f : Fix) → fixlen_word n f % 2 ^ 3 ≡ fix_code f
    low n f = let code : fix_code f < 8 = ground arith in omega (arith, fixlen_word_lem n f)

    high : (n : ℕ) (f : Fix) → shr (fixlen_word n f) 3 ≡ n
    high n f = let code : fix_code f < 8 = ground arith in omega (arith, fixlen_word_lem n f)

    fix_of-code : (f : Fix) → fix_of (fix_code f) ≡ some f
    fix_of-code f = ground arith

pub sized-lt : (n : ℕ) (f : Fix) → fixlen_len_valid (some f) n ≡ true → fixlen_word n f < 2 ^ 64
sized-lt n f h = fixlen_word-lt n f (short n f h)
  where
    short : (n : ℕ) (f : Fix) → fixlen_len_valid (some f) n ≡ true → n ≤ fixlen_max
    short n f h = ground arith

-- The one word of an element size, where it is `float` or `double`.
esize_of-fixlen_word :
    (f : Float) (s : IStream)
    → esize_of (fixlen_word (float_size f) (float_fix f)) s
      ≡ (record s { fix_len = float_size f; fix_type = float_fix f }, true)
unfolding esize_of array_fixlen_word_valid fixlen_word
esize_of-fixlen_word Float.single s = refl
esize_of-fixlen_word Float.double s = refl

unfoldable pub float_word : Float → ℕ
float_word f = fixlen_word (float_size f) (float_fix f)

pub float_word-lt : (f : Float) → float_word f < 2 ^ 64
unfolding float_word fixlen_word
float_word-lt Float.single = omega arith
float_word-lt Float.double = omega arith

pub encoded : (v : ℕ) → v < 2 ^ 64 → All IsByte (encode_varint v)
encoded v h = (encode_varint_shape v h).0

-- The word or the words behind the header word.
unfoldable pub meta : Head → List ℕ
meta (sized i f n) = encode_varint (fixlen_word n f)
meta (counted i b n) = encode_varint n
meta (floats i f n) = encode_varint n ++ encode_varint (float_word f)
meta _ = []

unfoldable pub head_wire : Head → Wire
head_wire (unsigned i) = Wire.unsigned
head_wire (signed i) = Wire.signed
head_wire (sequence i) = Wire.sequence_start
head_wire (sized i f n) = Wire.fixlen
head_wire (counted i b n) = array_wire b
head_wire (floats i f n) = Wire.array_fixlen

unfoldable pub head_id : Head → ℕ
head_id (unsigned i) = i
head_id (signed i) = i
head_id (sequence i) = i
head_id (sized i f n) = i
head_id (counted i b n) = i
head_id (floats i f n) = i

pub meta-IsByte : (h : Head) → IsHead h → All IsByte (meta h)
unfolding meta
meta-IsByte (unsigned i) k = tt
meta-IsByte (signed i) k = tt
meta-IsByte (sequence i) k = tt
meta-IsByte (sized i f n) k = encoded (fixlen_word n f) (sized-lt n f k.1)
meta-IsByte (counted i b n) k = encoded n (omega arith)
meta-IsByte (floats i f n) k =
    All-append IsByte (encode_varint n) (encode_varint (float_word f)) (encoded n (omega arith))
      (encoded (float_word f) (float_word-lt f))

-- `parseFieldMeta` behind a header word.
unfoldable pub tagged : Head → List ℕ → IStream → IStream
tagged h rest s = record s { p = rest; field_id = head_id h; type = head_wire h }

module _ (host : Endian) where
  pub then_got-encode_varint :
      (v : ℕ) (next : ℕ → Step) (rest : List ℕ) (s : IStream)
      → v < 2 ^ 64
      → All IsByte rest
      → then_got (get_varint host (encode_varint v ++ rest)) next s ≡ next v (record s { p = rest })
  unfolding then_got
  then_got-encode_varint v next rest s h k =
      ap (λ r. then_got r next s) (get_varint-encode_varint host v rest h k)

  pub parse_field_tag-head_bytes :
      (i : ℕ) (w : Wire) (rest : List ℕ) (s : IStream)
      → i ≤ id_max
      → All IsByte rest
      → parse_field_tag host (record s { p = head_bytes i w ++ rest })
        ≡ (record s { p = rest; field_id = i; type = w }, true)
  unfolding parse_field_tag tag_of
  parse_field_tag-head_bytes i w rest s h k =
      let (id_back, type_back) = header_word_fields i w in
      then_got-encode_varint (header_word i w) tag_of rest (record s { p = head_bytes i w ++ rest })
        (word-lt i w h) k
      ∙ rw (id_back, type_back, ge→ltb id_max i h) refl

  pub parse_field_meta-meta :
      (h : Head) (rest : List ℕ) (s : IStream)
      → IsHead h
      → All IsByte rest
      → parse_field_meta host (tagged h (meta h ++ rest) s)
        ≡ (headed h (record s { p = rest }), true)
  unfolding parse_field_meta count_of count_then_esize meta tagged head_wire head_id float_word
  parse_field_meta-meta (unsigned i) rest s k b = refl
  parse_field_meta-meta (signed i) rest s k b = refl
  parse_field_meta-meta (sequence i) rest s k b = refl
  parse_field_meta-meta (sized i f n) rest s k b =
      then_got-encode_varint (fixlen_word n f) fixlen_of rest _ (sized-lt n f k.1) b
      ∙ fixlen_of-fixlen_word n f _ k.1
  parse_field_meta-meta (counted i true n) rest s k b =
      then_got-encode_varint n count_of rest _ (omega arith) b ∙ rw (ge→ltb array_max n k.1) refl
  parse_field_meta-meta (counted i false n) rest s k b =
      then_got-encode_varint n count_of rest _ (omega arith) b ∙ rw (ge→ltb array_max n k.1) refl
  parse_field_meta-meta (floats i f n) rest s k b =
      let word = encode_varint (float_word f) in
      let bytes = All-append IsByte word rest (encoded (float_word f) (float_word-lt f)) b in
      rw (append_assoc (encode_varint n) word rest) (
        then_got-encode_varint n (count_then_esize host) (word ++ rest) _ (omega arith) bytes
        ∙ rw (ge→ltb array_max n k.1) (
            then_got-encode_varint (float_word f) esize_of rest _ (float_word-lt f) b
            ∙ esize_of-fixlen_word f _))
