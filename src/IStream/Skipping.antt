-- ===== src/IStream/Skipping.antt =====
-- What a decoder is to find in a message: fields of every wire type, and sequences of them.
pub mod Leaves
pub mod Trees
pub mod Passing
pub mod Whole
pub mod Sequences
pub mod Offered
pub mod Tops
pub mod Accepted
pub mod Messages
pub mod Parts
pub mod Chunks
use corelib_cpp.Common.{ℕ, ◌+◌, ◌-◌, ◌*◌, ◌^◌, ◌≤◌, ◌<◌, ◌≡◌, false, List, [], ◌++◌, length, All}
use corelib_cpp.Common.Bytes.{IsByte}
use corelib_cpp.Wire.{id_max}
use corelib_cpp.Varint.{encode_varint}
use corelib_cpp.OStream.Fields.{float_size}
use corelib_cpp.OStream.Writes.Nested.{end_mark}
use corelib_cpp.OStream.Writes.Arrays.{varints, IsU64}
use corelib_cpp.IStream.{IStream}
use corelib_cpp.IStream.Header.Heads.{Head, IsHead, encode_head, headed}

-- A field with its header and the bytes of its payload, or a sequence, and the fields behind it.
pub data Fields : Type 0 where
  nil : Fields
  plain : Head → List ℕ → Fields → Fields
  nested : ℕ → Fields → Fields → Fields

unfoldable pub encode_fields : Fields → List ℕ
encode_fields Fields.nil = []
encode_fields (Fields.plain h bs rest) = encode_head h ++ (bs ++ encode_fields rest)
encode_fields (Fields.nested i inner rest) =
    encode_head (Head.sequence i) ++ (encode_fields inner ++ (end_mark ++ encode_fields rest))

-- The bytes are a payload of the kind and the size that the header tells.
unfoldable pub IsPayload : Head → List ℕ → Type 0
IsPayload (Head.unsigned i) bs = (v : ℕ) × (v < 2 ^ 64) × (bs ≡ encode_varint v)
IsPayload (Head.signed i) bs = (v : ℕ) × (v < 2 ^ 64) × (bs ≡ encode_varint v)
IsPayload (Head.sequence i) bs = ⊥
IsPayload (Head.sized i f n) bs = (length bs ≡ n) × All IsByte bs
IsPayload (Head.counted i b n) bs =
    (ws : List ℕ) × All IsU64 ws × (length ws ≡ n) × (bs ≡ varints ws)
IsPayload (Head.floats i f n) bs = (length bs ≡ n * float_size f) × All IsByte bs

-- The headers and payloads are in range, and no sequence stands deeper than `d`.
unfoldable pub IsFields : ℕ → Fields → Type 0
IsFields d Fields.nil = Unit {0}
IsFields d (Fields.plain h bs rest) = IsHead h × IsPayload h bs × IsFields d rest
IsFields d (Fields.nested i inner rest) =
    (i ≤ id_max) × (1 ≤ d) × IsFields (d - 1) inner × IsFields d rest

-- A stream behind a header, before the field is handed over.
abbrev pub begun : Head → IStream → IStream
begun h s = record (headed h s) { pend_done = 0; utf8_state = 0; consumed = false }
