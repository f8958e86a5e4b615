-- ===== src/Exchange.antt =====
-- The encoder and the decoder together: what OStreamImpl puts on the wire, read by IStreamImpl on a host
-- of either byte order.
pub mod Payloads
use mathlib.Core.Path.{subst}
use corelib_cpp.Common.{
  ℕ, suc, ◌+◌, ◌^◌, ◌≤◌, ◌<◌, ◌≡◌, refl, sym, ap, ap₂, ◌∙◌, arith, inl, inr, Bool, true, false,
  Option, none, some, if◌then◌else◌, not, ◌==◌,
}
use corelib_cpp.Common.{List, [], ◌∷◌, ◌++◌, append_assoc, append-nil, length, map, All}
use corelib_cpp.Common.Bytes.{IsByte}
use corelib_cpp.Word.{Endian}
use corelib_cpp.Wire.{Error, Wire, id_max, array_max, header_word}
use corelib_cpp.Varint.{encode_varint}
use corelib_cpp.OStream.{OStream, is_ok}
use corelib_cpp.OStream.View.{IsValid, wire}
use corelib_cpp.OStream.Push.{Outcome}
use corelib_cpp.OStream.Fields.{write_scalar, write_int_array, Element, element_word}
use corelib_cpp.OStream.Writes.{starts, flat, write_scalar_lem}
use corelib_cpp.OStream.Writes.Arrays.{varints, array_field, write_int_array_lem, IsU64}
use corelib_cpp.IStream.{IStream}
use corelib_cpp.IStream.Header.{parse_field_header}
use corelib_cpp.IStream.Header.Heads.{Head, encode_head, headed}
use corelib_cpp.IStream.Header.RoundTrip.{parse_field_header-encode_head}
use corelib_cpp.IStream.Scalars.{
  Scalar, uint, sint, bool, Value, whole, integer, truth, scalar_wire, value_of, read_scalar,
}
use corelib_cpp.IStream.Scalars.Fields.{
  IsOf, word_of, word_of-lt, value_of-word_of, scalar_head, read_scalar-encode_head,
}
use corelib_cpp.IStream.Elements.{Bounds, admits, read_int_elements}
use corelib_cpp.IStream.Elements.RoundTrip.{IsAdmitted, read_int_elements-varints, varints-IsByte}

-- A stream that has written nothing, ready for its first field.
pub record IsEmpty (o : OStream) : Type 0 where
  pub valid : IsValid o
  pub fine : o.failure ≡ Error.no_error
  pub at_once : o.pending ≡ []
  pub unwritten : wire (flat o) ≡ []

-- The wire of a first write that succeeds.
pub first_write :
    (o : OStream) (bytes : List ℕ) (r : OStream × Error)
    → IsEmpty o
    → r.1 ≡ Error.no_error
    → Outcome (starts o.pending ++ bytes) (flat o) r
    → wire r.0 ≡ bytes
unfolding starts
first_write o bytes r e ok (inl w) =
    w.same ∙ ap₂ (λ a ids. a ++ (starts ids ++ bytes)) e.unwritten e.at_once
first_write o bytes r e ok (inr w) = absurd (ground (arith, w.failed, ok))

scalar_bytes :
    (t : Scalar) (i w : ℕ)
    → encode_varint (header_word i (scalar_wire t)) ++ encode_varint w
      ≡ encode_head (scalar_head t i) ++ (encode_varint w ++ [])
scalar_bytes (uint n) i w =
    ap (λ q. encode_varint (header_word i Wire.unsigned) ++ q) (sym (append-nil (encode_varint w)))
scalar_bytes (sint n) i w =
    ap (λ q. encode_varint (header_word i Wire.signed) ++ q) (sym (append-nil (encode_varint w)))
scalar_bytes bool i w =
    ap (λ q. encode_varint (header_word i Wire.unsigned) ++ q) (sym (append-nil (encode_varint w)))

-- A value of an integer type of 8, 16, 32 or 64 bits or of bool, written with a valid id as the
-- first field of a stream that is empty and valid, and without an error, is read from the bytes
-- on the wire, on a host of any byte order: the header and the value are read back into the type
-- and no bytes are left.
pub read_scalar-write_scalar :
    (writer reader : Endian) (t : Scalar) (v : Value) (i : ℕ) (o : OStream) (s : IStream)
    → IsOf t v
    → i ≤ id_max
    → IsEmpty o
    → (write_scalar writer i (scalar_wire t) (word_of v) o).1 ≡ Error.no_error
    → read_scalar reader t
        (parse_field_header reader
          (record s { p = wire (write_scalar writer i (scalar_wire t) (word_of v) o).0 })).0
      ≡ (record (headed (scalar_head t i) s) { p = []; consumed = true }, some v)
read_scalar-write_scalar writer reader t v i o s h k e ok =
    let written =
      first_write o (encode_varint (header_word i (scalar_wire t)) ++ encode_varint (word_of v))
        (write_scalar writer i (scalar_wire t) (word_of v) o) e ok
        (write_scalar_lem writer i (scalar_wire t) (word_of v) o k (word_of-lt t v h) e.valid
          e.fine) in
    ap (λ p. read_scalar reader t (parse_field_header reader (record s { p = p })).0)
      (written ∙ scalar_bytes t i (word_of v))
    ∙ read_scalar-encode_head reader t v i [] s h k tt

-- An element as `write` takes it.
abbrev pub element_of : Value → Element
element_of (whole n) = Element.whole n
element_of (integer z) = Element.integer z
element_of (truth b) = Element.flag (if b then 1 else 0)

element_word_of : (v : Value) → element_word (element_of v) ≡ word_of v
unfolding element_word
element_word_of (whole n) = refl
element_word_of (integer z) = refl
element_word_of (truth true) = refl
element_word_of (truth false) = refl

words_of : (vs : List Value) → map element_word (map element_of vs) ≡ map word_of vs
words_of [] = refl
words_of (v ∷ vs) = ap₂ (λ w ws. w ∷ ws) (element_word_of v) (words_of vs)

abbrev pub is_signed : Scalar → Bool
is_signed (sint w) = true
is_signed t = false

-- Values of a type within its bounds.
abbrev pub IsArray : Scalar → Bounds → List Value → Type 0
IsArray t b vs = All (λ v. IsOf t v × (admits t b (word_of v) ≡ true)) vs

words-IsAdmitted :
    (t : Scalar) (b : Bounds) (vs : List Value)
    → IsArray t b vs
    → All (IsAdmitted t b) (map word_of vs)
words-IsAdmitted t b [] h = tt
words-IsAdmitted t b (v ∷ vs) h = ((word_of-lt t v h.0.0, h.0.1), words-IsAdmitted t b vs h.1)

words-IsU64 :
    (t : Scalar) (b : Bounds) (vs : List Value) → IsArray t b vs → All IsU64 (map word_of vs)
words-IsU64 t b [] h = tt
words-IsU64 t b (v ∷ vs) h = (word_of-lt t v h.0.0, words-IsU64 t b vs h.1)

values_back :
    (t : Scalar) (b : Bounds) (vs : List Value)
    → IsArray t b vs
    → map (value_of t) (map word_of vs) ≡ vs
values_back t b [] h = refl
values_back t b (v ∷ vs) h =
    ap₂ (λ x xs. x ∷ xs) (value_of-word_of t v h.0.0) (values_back t b vs h.1)

length-words : {A B : Type 0} (f : A → B) (vs : List A) → length (map f vs) ≡ length vs
length-words f [] = refl
length-words f (v ∷ vs) = ap suc (length-words f vs)

no_bytes : All IsByte (varints [] ++ [])
unfolding varints
no_bytes = tt

array_bytes :
    (t : Scalar) (i n : ℕ) (ws : List ℕ)
    → array_field i (if is_signed t then Wire.array_signed else Wire.array_unsigned) n ws
      ≡ encode_head (Head.counted i (is_signed t) n) ++ (varints ws ++ (varints [] ++ []))
unfolding array_field varints
array_bytes t i n ws =
    ap (λ q. encode_head (Head.counted i (is_signed t) n) ++ q) (sym (append-nil (varints ws)))

-- An array of values of one such type, within the bounds of the read and the limit on counts,
-- written with a valid id as the first field of a stream that is empty and valid, and without an
-- error, is read from the bytes on the wire into a span of its size, on a host of any byte order:
-- the span holds the values, the field is consumed and no bytes are left.
pub read_int_elements-write_int_array :
    (writer reader : Endian) (t : Scalar) (b : Bounds) (vs dst : List Value) (i : ℕ) (o : OStream)
    (s : IStream)
    → IsArray t b vs
    → length dst ≡ length vs
    → i ≤ id_max
    → length vs ≤ array_max
    → IsEmpty o
    → (write_int_array writer i (is_signed t) (map element_of vs) o).1 ≡ Error.no_error
    → s.pend_done ≡ 0
    → read_int_elements reader t b
        (length vs)
        dst
        (parse_field_header reader (record s {
          p = wire (write_int_array writer i (is_signed t) (map element_of vs) o).0;
        })).0
      ≡ (
        record (headed (Head.counted i (is_signed t) (length vs)) s) {
          p = [];
          consumed = true;
          pend_done = 0;
        },
        vs,
        true,
      )
read_int_elements-write_int_array writer reader t b vs dst i o s h fits hi few e ok done =
    let ws = map word_of vs in
    let es = map element_of vs in
    let n = length vs in
    let count : length es ≡ n = length-words element_of vs in
    let size : length ws ≡ n = length-words word_of vs in
    let head = Head.counted i (is_signed t) n in
    let all : n ≡ length ws + 0 = omega arith in
    let few_words : length es ≤ array_max = omega arith in
    let body = varints ws ++ (varints [] ++ []) in
    let type = if is_signed t then Wire.array_signed else Wire.array_unsigned in
    let ad = words-IsAdmitted t b vs h in
    let bytes : All IsByte body = varints-IsByte t b ws (varints [] ++ []) ad no_bytes in
    let written =
      first_write o (array_field i type (length es) (map element_word es))
        (write_int_array writer i (is_signed t) es o) e ok
        (write_int_array_lem writer i (is_signed t) es o hi few_words
          (subst (All IsU64) (sym (words_of vs)) (words-IsU64 t b vs h)) e.valid e.fine) in
    ap (λ p. read_int_elements reader t b n dst (parse_field_header reader (record s { p = p })).0)
      (written ∙ ap₂ (array_field i type) count (words_of vs) ∙ array_bytes t i n ws)
    ∙ ap (λ r. read_int_elements reader t b n dst r.0)
        (parse_field_header-encode_head reader head body s (hi, few) bytes)
    ∙ ap (λ m. read_int_elements reader t b m dst (record (headed head s) { p = body })) (sym size)
    ∙ read_int_elements-varints reader t b ws [] [] dst (headed head s) ad tt tt (fits ∙ sym size)
        all done
    ∙ ap (λ d. (record (headed head s) { p = []; consumed = true; pend_done = 0 }, d, true))
        (values_back t b vs h)
