-- ===== src/IStream/Header/RoundTrip.antt =====
-- IStreamImpl::parseFieldHeader on the headers that the encoder writes, whole and cut.
use corelib_cpp.Common.{ℕ, ◌≤◌, ◌≡◌, refl, sym, ap, ◌∙◌, true, false}
use corelib_cpp.Common.{List, ◌++◌, append_assoc, append-nil, All, All-append}
use corelib_cpp.Common.Bytes.{IsByte}
use corelib_cpp.Word.{Endian}
use corelib_cpp.Wire.{Wire, id_max}
use corelib_cpp.IStream.{IStream}
use corelib_cpp.IStream.Header.{
  parse_field_tag, parse_field_meta, parse_field_header, is_sequence_end,
}
use corelib_cpp.IStream.Header.Heads.{
  Head, IsHead, encode_head, headed, head_bytes, meta, head_id, head_wire, tagged, float_word,
}
use corelib_cpp.IStream.Header.Heads.{
  parse_field_tag-head_bytes, parse_field_meta-meta, meta-IsByte,
}

pub head_in_range : (h : Head) → IsHead h → head_id h ≤ id_max
unfolding head_id
head_in_range (Head.unsigned i) k = k
head_in_range (Head.signed i) k = k
head_in_range (Head.sequence i) k = k
head_in_range (Head.sized i f n) k = k.0
head_in_range (Head.counted i b n) k = k.0
head_in_range (Head.floats i f n) k = k.0

pub not_end : (h : Head) → is_sequence_end (head_wire h) ≡ false
unfolding head_wire
not_end (Head.counted i true n) = refl
not_end (Head.counted i false n) = refl
not_end (Head.unsigned i) = refl
not_end (Head.signed i) = refl
not_end (Head.sequence i) = refl
not_end (Head.sized i f n) = refl
not_end (Head.floats i f n) = refl

pub in_two : (h : Head) → encode_head h ≡ head_bytes (head_id h) (head_wire h) ++ meta h
unfolding head_id head_wire meta float_word
in_two (Head.unsigned i) = sym (append-nil (head_bytes i Wire.unsigned))
in_two (Head.signed i) = sym (append-nil (head_bytes i Wire.signed))
in_two (Head.sequence i) = sym (append-nil (head_bytes i Wire.sequence_start))
in_two (Head.sized i f n) = refl
in_two (Head.counted i b n) = refl
in_two (Head.floats i f n) = refl

-- The header behind its tag.
module _ (host : Endian) where
  pub parse_field_header_of :
      (s t : IStream)
      → parse_field_tag host s ≡ (t, true)
      → is_sequence_end t.type ≡ false
      → parse_field_header host s ≡ parse_field_meta host t
  unfolding parse_field_header
  parse_field_header_of s t e n = rw (e, n) refl

  -- On either kind of host, the header of a field as the encoder writes it, with the id, the length
  -- and the count in range and any bytes behind it, is parsed back: the stream has the id, the wire
  -- type, the subtype, the length and the count, and stands at the bytes behind the header.
  pub parse_field_header-encode_head :
      (h : Head) (rest : List ℕ) (s : IStream)
      → IsHead h
      → All IsByte rest
      → parse_field_header host (record s { p = encode_head h ++ rest })
        ≡ (headed h (record s { p = rest }), true)
  unfolding tagged
  parse_field_header-encode_head h rest s k b =
      let word = head_bytes (head_id h) (head_wire h) in
      let bytes = All-append IsByte (meta h) rest (meta-IsByte h k) b in
      let split : encode_head h ++ rest ≡ word ++ (meta h ++ rest) =
        ap (λ t. t ++ rest) (in_two h) ∙ append_assoc word (meta h) rest in
      ap (λ p. parse_field_header host (record s { p = p })) split
      ∙ parse_field_header_of (record s { p = word ++ (meta h ++ rest) })
          (tagged h (meta h ++ rest) s)
          (parse_field_tag-head_bytes host (head_id h) (head_wire h) (meta h ++ rest) s
            (head_in_range h k) bytes)
          (not_end h)
      ∙ parse_field_meta-meta host h rest s k b
