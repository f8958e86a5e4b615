-- ===== src/IStream/Skipping/Messages.antt =====
-- What OStreamImpl writes, as fields that IStreamImpl reads.
use corelib_cpp.Common.{
  ℕ, ◌-◌, ◌≤◌, ◌<◌, ◌^◌, ◌≡◌, refl, sym, ap, ◌∙◌, arith, Bool, true, false, some, ap₂,
}
use corelib_cpp.Common.{List, [], ◌∷◌, ◌++◌, append_assoc, length, All}
use corelib_cpp.Common.Bytes.{IsByte}
use corelib_cpp.Word.{Endian}
use corelib_cpp.Wire.{Error, Wire, max_depth, id_max, fixlen_len_valid, header_word}
use corelib_cpp.Varint.{encode_varint}
use corelib_cpp.OStream.{OStream, Callback, Chunk}
use corelib_cpp.OStream.View.{wire}
use corelib_cpp.OStream.Message.{Message, write_message, enclose, encode_message, IsWithin, Ready}
use corelib_cpp.OStream.Message.Tree.{write_message_drains}
use corelib_cpp.OStream.Writes.Nested.{end_mark}
use corelib_cpp.IStream.{IStream}
use corelib_cpp.IStream.Limits.{cap_cannot_fire}
use corelib_cpp.IStream.Header.Heads.{Head, encode_head}
use corelib_cpp.IStream.Skipping.Offered.{watch, offer_all}
use corelib_cpp.IStream.Feed.{feed}
use corelib_cpp.IStream.Skipping.{Fields, encode_fields, IsFields, IsPayload}
use corelib_cpp.IStream.Skipping.Whole.{head-IsByte}
use corelib_cpp.IStream.Skipping.Accepted.{waiting, feed-encode_fields}

abbrev is_scalar : Wire → Bool
is_scalar Wire.unsigned = true
is_scalar Wire.signed = true
is_scalar _ = false

-- The calls were made with the types and lengths that the wire knows.
unfoldable pub IsTyped : Message → Type 0
IsTyped Message.done = Unit {0}
IsTyped (Message.scalar i type v rest) = (is_scalar type ≡ true) × IsTyped rest
IsTyped (Message.bytes i ft bs rest) =
    (fixlen_len_valid (some ft) (length bs) ≡ true) × All IsByte bs × IsTyped rest
IsTyped (Message.nested i inner rest) = IsTyped inner × IsTyped rest

abbrev scalar_head : Wire → ℕ → Head
scalar_head Wire.signed i = Head.signed i
scalar_head _ i = Head.unsigned i

scalar_field :
    (type : Wire) (i v : ℕ) (f : Fields) (d : ℕ)
    → is_scalar type ≡ true
    → i ≤ id_max
    → v < 2 ^ 64
    → IsFields d f
    → IsFields d (Fields.plain (scalar_head type i) (encode_varint v) f)
unfolding IsFields IsPayload
scalar_field Wire.unsigned i v f d h k small more = (k, (v, small, refl), more)
scalar_field Wire.signed i v f d h k small more = (k, (v, small, refl), more)
scalar_field type i v f d h k small more = let clash : false ≡ true = h in cc

scalar_bytes :
    (type : Wire) (i : ℕ)
    → is_scalar type ≡ true
    → encode_head (scalar_head type i) ≡ encode_varint (header_word i type)
scalar_bytes Wire.unsigned i h = refl
scalar_bytes Wire.signed i h = refl
scalar_bytes type i h = let clash : false ≡ true = h in cc

-- A sequence that holds nothing is not written.
abbrev wrap : ℕ → Fields → Fields → Fields
wrap i Fields.nil rest = rest
wrap i (Fields.plain h bs f) rest = Fields.nested i (Fields.plain h bs f) rest
wrap i (Fields.nested j inner f) rest = Fields.nested i (Fields.nested j inner f) rest

unfoldable pub fields_of : Message → Fields
fields_of Message.done = Fields.nil
fields_of (Message.scalar i type v rest) =
    Fields.plain (scalar_head type i) (encode_varint v) (fields_of rest)
fields_of (Message.bytes i ft bs rest) =
    Fields.plain (Head.sized i ft (length bs)) bs (fields_of rest)
fields_of (Message.nested i inner rest) = wrap i (fields_of inner) (fields_of rest)

not_empty :
    (i : ℕ) (h bs : List ℕ)
    → 1 ≤ length h
    → enclose i (h ++ bs) ≡ encode_head (Head.sequence i) ++ ((h ++ bs) ++ end_mark)
unfolding enclose
not_empty i [] bs k = absurd (omega arith)
not_empty i (b ∷ h) bs k = refl

wrap-encode_fields :
    (i d : ℕ) (f rest : Fields)
    → IsFields d f
    → encode_fields (wrap i f rest) ≡ enclose i (encode_fields f) ++ encode_fields rest
unfolding encode_fields IsFields enclose
wrap-encode_fields i d Fields.nil rest h = refl
wrap-encode_fields i d (Fields.plain h bs f) rest (k, load, more) = sym (
    ap (λ q. q ++ encode_fields rest)
      (not_empty i (encode_head h) (bs ++ encode_fields f) (head-IsByte h k).1)
    ∙ append_assoc (encode_head (Head.sequence i)) (encode_fields (Fields.plain h bs f) ++ end_mark)
        (encode_fields rest)
    ∙ ap (λ q. encode_head (Head.sequence i) ++ q)
        (append_assoc (encode_fields (Fields.plain h bs f)) end_mark (encode_fields rest)))
wrap-encode_fields i d (Fields.nested j inner f) rest (k, deep, inside, more) =
    let g = Fields.nested j inner f in
    sym (
      ap (λ q. q ++ encode_fields rest)
        (not_empty i (encode_head (Head.sequence j))
          (encode_fields inner ++ (end_mark ++ encode_fields f))
          (head-IsByte (Head.sequence j) k).1)
      ∙ append_assoc (encode_head (Head.sequence i)) (encode_fields g ++ end_mark)
          (encode_fields rest)
      ∙ ap (λ q. encode_head (Head.sequence i) ++ q)
          (append_assoc (encode_fields g) end_mark (encode_fields rest)))

wrap-IsFields :
    (i d : ℕ) (f rest : Fields)
    → i ≤ id_max
    → 1 ≤ d
    → IsFields (d - 1) f
    → IsFields d rest
    → IsFields d (wrap i f rest)
unfolding IsFields
wrap-IsFields i d Fields.nil rest k deep h more = more
wrap-IsFields i d (Fields.plain h bs f) rest k deep inside more = (k, deep, inside, more)
wrap-IsFields i d (Fields.nested j inner f) rest k deep inside more = (k, deep, inside, more)

fields_of-IsFields : (d : ℕ) (m : Message) → IsWithin d m → IsTyped m → IsFields d (fields_of m)
unfolding fields_of IsFields IsWithin IsTyped IsPayload
fields_of-IsFields d Message.done h t = tt
fields_of-IsFields d (Message.scalar i type v rest) (k, small, more) (known, typed) =
    scalar_field type i v (fields_of rest) d known k small (fields_of-IsFields d rest more typed)
fields_of-IsFields d (Message.bytes i ft bs rest) (k, size, more) (valid, b, typed) =
    ((k, valid), (refl, b), fields_of-IsFields d rest more typed)
fields_of-IsFields d (Message.nested i inner rest) (k, deep, inside, more) (typed, also) =
    wrap-IsFields i d (fields_of inner) (fields_of rest) k deep
      (fields_of-IsFields (d - 1) inner inside typed) (fields_of-IsFields d rest more also)

fields_of-encode_fields :
    (d : ℕ) (m : Message)
    → IsWithin d m
    → IsTyped m
    → encode_fields (fields_of m) ≡ encode_message m
unfolding fields_of encode_fields encode_message IsWithin IsTyped
fields_of-encode_fields d Message.done h t = refl
fields_of-encode_fields d (Message.scalar i type v rest) (k, small, more) (known, typed) =
    ap₂ (λ a b. a ++ (encode_varint v ++ b)) (scalar_bytes type i known)
      (fields_of-encode_fields d rest more typed)
    ∙ sym
        (append_assoc (encode_varint (header_word i type)) (encode_varint v) (encode_message rest))
fields_of-encode_fields d (Message.bytes i ft bs rest) (k, size, more) (valid, b, typed) =
    ap (λ q. encode_head (Head.sized i ft (length bs)) ++ (bs ++ q))
      (fields_of-encode_fields d rest more typed)
    ∙ sym (append_assoc (encode_head (Head.sized i ft (length bs))) bs (encode_message rest))
fields_of-encode_fields d (Message.nested i inner rest) (k, deep, inside, more) (typed, also) =
    wrap-encode_fields i (d - 1) (fields_of inner) (fields_of rest)
      (fields_of-IsFields (d - 1) inner inside typed)
    ∙ ap₂ (λ a b. enclose i a ++ b) (fields_of-encode_fields (d - 1) inner inside typed)
        (fields_of-encode_fields d rest more also)

-- On either kind of host: what the encoder writes for a message, its calls in range and typed,
-- nested no deeper than is admitted, on a valid stream without a failure and with nothing
-- pending, whose callback takes every byte, stands on the wire behind the bytes before. Those
-- bytes, fed whole to a stream that waits for a message and whose receiver's limit cannot be
-- reached, with a handler that takes no field, offer it the fields of the message in order, and
-- are answered with no_error.
pub write_message-feed {ℓ} :
    {U : Type ℓ} (host : Endian) (m : Message) (g : Callback) (o : OStream) (f : ℕ → ℕ → ℕ → U → U)
    (u : U) (s : IStream)
    → o.callback ≡ some g
    → ((cs : List Chunk) → g cs ≡ [])
    → o.pending ≡ []
    → IsWithin max_depth m
    → IsTyped m
    → Ready max_depth o
    → cap_cannot_fire (length (encode_message m)) s ≡ true
    → (bs : List ℕ) × (t : IStream) × (wire (write_message host m o).0 ≡ wire o ++ bs)
      × (feed host (watch f) bs (u, waiting s)
          ≡ ((offer_all f (fields_of m) u, waiting t), Error.no_error))
write_message-feed host m g o f u s c keeps p h typed ready big =
    let same = fields_of-encode_fields max_depth m h typed in
    let (t, e) =
      feed-encode_fields host f (fields_of m) u s (fields_of-IsFields max_depth m h typed)
        (ap (λ q. cap_cannot_fire (length q) s) same ∙ big) in
    (
      encode_message m,
      t,
      (write_message_drains host m g max_depth o c keeps p h ready).1,
      ap (λ q. feed host (watch f) q (u, waiting s)) (sym same) ∙ e,
    )
