-- ===== src/OStream/Fields.antt =====
-- OStreamImpl: the commit of a pending run, and the writes of one field.
use corelib_cpp.Common.{ℕ, zero, suc, ◌+◌, ◌-◌, ◌*◌, ◌/◌, Bool, true, false, ltb, leb, ◌==◌, ◌&&◌}
use corelib_cpp.Common.{List, [], ◌∷◌, ◌++◌, length, take, drop, if◌then◌else◌, min, map}
use corelib_cpp.Word.{Endian, store_little_bits}
use corelib_cpp.Wire.{Error, Wire, Fix, header_word, fixlen_word, id_max, fixlen_max, array_max}
use corelib_cpp.Wire.{varint_max_bytes}
use corelib_cpp.Varint.{encode_varint, encode_varint_padded}
use corelib_cpp.Zigzag.{zigzag_encode}
use corelib_cpp.Common.Int.{ℤ}
use corelib_cpp.OStream.{OStream, Op, ◌>>◌, succeed, poke, is_ok, latch, room, store, push_bytes}

unfoldable pub put_varint : ℕ → Op
put_varint v = push_bytes (encode_varint v)

-- The loop over a run stops at the first failure.
unfoldable pub put_starts : List ℕ → Op
unfolding put_varint
put_starts [] s = succeed s
put_starts (i ∷ ids) s = (put_varint (header_word i Wire.sequence_start) >> put_starts ids) s

-- The run is cleared on either outcome.
unfoldable pub commit_pending : Op
unfolding put_starts
commit_pending s = let (s', e) = put_starts s.pending s in (record s' { pending = [] }, e)

abbrev pub is_empty : List ℕ → Bool
is_empty [] = true
is_empty (x ∷ xs) = false

unfoldable pub before_content : Op
unfolding commit_pending
before_content s = if is_empty s.pending then (s, Error.no_error) else commit_pending s

-- `o += encodeVarintPadded(o, v)` with `o` left in `cursor_`: the scratch bytes are stored too.
unfoldable pub put_padded : Endian → ℕ → OStream → OStream
put_padded host v s =
    let (stored, n) = encode_varint_padded host v in
    record s { memory = poke s.cursor stored s.memory; cursor = s.cursor + n }

unfoldable pub scalar_body : Endian → ℕ → Wire → ℕ → Op
unfolding put_padded
scalar_body host field_id type value s =
    if leb (2 * varint_max_bytes) (room s)
    then (put_padded host value (put_padded host (header_word field_id type) s), Error.no_error)
    else push_bytes (encode_varint (header_word field_id type) ++ encode_varint value) s

unfoldable pub write_scalar : Endian → ℕ → Wire → ℕ → Op
unfolding latch before_content scalar_body
write_scalar host field_id type value s =
    if ltb id_max field_id
    then latch Error.invalid_argument s
    else (before_content >> scalar_body host field_id type value) s

unfoldable pub fixlen_body : Endian → ℕ → Fix → List ℕ → Op
unfolding put_padded store
fixlen_body host field_id ft bytes s =
    let head = header_word field_id Wire.fixlen in
    let word = fixlen_word (length bytes) ft in
    if leb (2 * varint_max_bytes) (room s) && leb (length bytes) (room s - 2 * varint_max_bytes)
    then (store bytes (put_padded host word (put_padded host head s)), Error.no_error)
    else (push_bytes (encode_varint head ++ encode_varint word) >> push_bytes bytes) s

unfoldable pub write_fixlen : Endian → ℕ → Fix → List ℕ → Op
unfolding latch before_content fixlen_body
write_fixlen host field_id ft bytes s =
    if ltb id_max field_id
    then latch Error.invalid_argument s
    else if ltb fixlen_max (length bytes)
    then latch Error.invalid_argument s
    else (before_content >> fixlen_body host field_id ft bytes) s

-- The subtype and the size of `float` and `double`.
pub data Float : Type 0 where
  single double : Float

abbrev pub float_size : Float → ℕ
float_size single = 4
float_size double = 8

abbrev pub float_fix : Float → Fix
float_fix single = Fix.fp32
float_fix double = Fix.fp64

-- A float is its bit pattern, `floatBits(value)`.
unfoldable pub float_body : Endian → ℕ → Float → ℕ → Op
unfolding put_padded store
float_body host field_id f bits s =
    let head = header_word field_id Wire.fixlen in
    let word = fixlen_word (float_size f) (float_fix f) in
    let stored = store_little_bits host (float_size f) bits in
    if leb (2 * varint_max_bytes + float_size f) (room s)
    then (store stored (put_padded host word (put_padded host head s)), Error.no_error)
    else push_bytes (encode_varint head ++ (encode_varint word ++ stored)) s

unfoldable pub write_float_scalar : Endian → ℕ → Float → ℕ → Op
unfolding latch before_content float_body
write_float_scalar host field_id f bits s =
    if ltb id_max field_id
    then latch Error.invalid_argument s
    else (before_content >> float_body host field_id f bits) s

-- An element of an integer array: a `bool` by its stored byte, an unsigned or a signed value.
pub data Element : Type 0 where
  flag : ℕ → Element
  whole : ℕ → Element
  integer : ℤ → Element

-- The lambda `word` of `writeIntArray`.
unfoldable pub element_word : Element → ℕ
element_word (flag b) = if b == 0 then 0 else 1
element_word (whole n) = n
element_word (integer z) = zigzag_encode z

-- The inner loop, over as many elements as are known to fit.
unfoldable pub put_batch : Endian → List ℕ → OStream → OStream
unfolding put_padded
put_batch host [] s = s
put_batch host (w ∷ ws) s = put_batch host ws (put_padded host w s)

-- The outer loop. Each round takes an element at least, so the count of elements is fuel enough.
unfoldable pub put_words : Endian → ℕ → List ℕ → Op
unfolding put_batch
put_words host fuel [] s = succeed s
put_words host zero (w ∷ ws) s = succeed s
put_words host (suc fuel) (w ∷ ws) s =
    let fit = min (room s / varint_max_bytes) (length (w ∷ ws)) in
    let one = push_bytes (encode_varint w) s in
    let after_one = put_words host fuel ws one.0 in
    let batch = put_words host fuel (drop fit (w ∷ ws)) (put_batch host (take fit (w ∷ ws)) s) in
    if room s / varint_max_bytes == 0 then (if is_ok one.1 then after_one else one) else batch

-- The head and the count of an array.
unfoldable pub array_head : Endian → ℕ → Wire → ℕ → Op
unfolding put_padded
array_head host field_id type count s =
    let head = header_word field_id type in
    if leb (2 * varint_max_bytes) (room s)
    then (put_padded host count (put_padded host head s), Error.no_error)
    else push_bytes (encode_varint head ++ encode_varint count) s

-- `is_signed` is a property of the element type.
unfoldable pub write_int_array : Endian → ℕ → Bool → List Element → Op
unfolding latch before_content array_head put_words
write_int_array host field_id is_signed elems s =
    let type = if is_signed then Wire.array_signed else Wire.array_unsigned in
    let words = map element_word elems in
    if ltb id_max field_id
    then latch Error.invalid_argument s
    else if ltb array_max (length elems)
    then latch Error.invalid_argument s
    else (before_content
          >> array_head host field_id type (length elems)
          >> put_words host (length words) words)
        s

unfoldable pub float_array_head : Endian → ℕ → Float → ℕ → Op
unfolding put_padded
float_array_head host field_id f count s =
    let head = header_word field_id Wire.array_fixlen in
    let word = fixlen_word (float_size f) (float_fix f) in
    if leb (3 * varint_max_bytes) (room s)
    then (put_padded host word (put_padded host count (put_padded host head s)), Error.no_error)
    else push_bytes (encode_varint head ++ (encode_varint count ++ encode_varint word)) s

-- The elements as they stand in the memory of a little-endian host.
unfoldable pub float_bytes : Endian → Float → List ℕ → List ℕ
float_bytes host f [] = []
float_bytes host f (bits ∷ rest) =
    store_little_bits host (float_size f) bits ++ float_bytes host f rest

-- A big-endian host pushes each element by itself.
unfoldable pub push_floats : Endian → Float → List ℕ → Op
push_floats host f [] s = succeed s
push_floats host f (bits ∷ rest) s =
    (push_bytes (store_little_bits host (float_size f) bits) >> push_floats host f rest) s

unfoldable pub float_elements : Endian → Float → List ℕ → Op
unfolding float_bytes push_floats
float_elements Endian.little f elems s =
    if is_empty elems then succeed s else push_bytes (float_bytes Endian.little f elems) s
float_elements Endian.big f elems s =
    if is_empty elems then succeed s else push_floats Endian.big f elems s

unfoldable pub write_float_array : Endian → ℕ → Float → List ℕ → Op
unfolding latch before_content float_array_head float_elements
write_float_array host field_id f elems s =
    if ltb id_max field_id
    then latch Error.invalid_argument s
    else if ltb array_max (length elems)
    then latch Error.invalid_argument s
    else (before_content
          >> float_array_head host field_id f (length elems)
          >> float_elements host f elems)
        s
