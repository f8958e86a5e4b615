-- ===== src/IStream/Header/Cut.antt =====
-- IStreamImpl::parseFieldHeader on the front part of a header.
use mathlib.Core.Path.{subst}
use corelib_cpp.Common.{
  ℕ, ◌^◌, ◌<◌, ◌≡◌, refl, sym, ◌∙◌, arith, ◌⊎◌, inl, inr, Bool, true, false, ge→ltb,
}
use corelib_cpp.Common.{List, [], ◌∷◌, ◌++◌, All, All-front}
use corelib_cpp.Common.Bytes.{IsByte}
use corelib_cpp.Word.{Endian}
use corelib_cpp.Wire.{header_word, fixlen_word, array_max}
use corelib_cpp.Varint.{encode_varint, get_varint}
use corelib_cpp.Varint.RoundTrip.{get_varint-prefix}
use corelib_cpp.IStream.{IStream}
use corelib_cpp.IStream.Header.{
  Step, then_got, parse_field_tag, fixlen_of, count_of, esize_of, count_then_esize,
  parse_field_meta, parse_field_header,
}
use corelib_cpp.IStream.Header.Heads.{
  Head, IsHead, encode_head, head_bytes, meta, head_id, head_wire, tagged, float_word,
}
use corelib_cpp.IStream.Header.Heads.{
  parse_field_tag-head_bytes, meta-IsByte, word-lt, sized-lt, float_word-lt, encoded,
  then_got-encode_varint,
}
use corelib_cpp.IStream.Header.RoundTrip.{head_in_range, not_end, in_two, parse_field_header_of}

-- A front part of two lists joined ends inside the first or inside the second.
pub split_front {ℓ} :
    {A : Type ℓ} (as1 front bs : List A) (x : A) (back : List A)
    → as1 ++ bs ≡ front ++ (x ∷ back)
    → ((y : A) × (c : List A) × (as1 ≡ front ++ (y ∷ c)))
      ⊎ ((rest : List A) × (front ≡ as1 ++ rest) × (bs ≡ rest ++ (x ∷ back)))
split_front [] front bs x back h = inr (front, refl, h)
split_front (a ∷ as1) [] bs x back h = inl (a, as1, refl)
split_front (a ∷ as1) (f ∷ front) bs x back h =
    let same : a ≡ f = cc in
    let tails : as1 ++ bs ≡ front ++ (x ∷ back) = cc in
    elim (split_front as1 front bs x back tails) [
      | inl (y, c, e) ↦ inl (y, c, cc)
      | inr (rest, e, k) ↦ inr (rest, cc, k)
    ]

nil_front {ℓ} : {A : Type ℓ} (front : List A) (x : A) (back : List A) → [] ≡ front ++ (x ∷ back) → ⊥
nil_front [] x back h = cc
nil_front (f ∷ front) x back h = cc

-- More bytes are wanted, and nothing is found wrong.
abbrev pub Starved : IStream → IStream × Bool → Type 0
Starved s r = (r.1 ≡ false) × (r.0.incomplete ≡ true) × (r.0.error ≡ s.error)

module _ (host : Endian) where
  then_got-prefix :
      (v x : ℕ) (front back : List ℕ) (next : ℕ → Step) (s : IStream)
      → v < 2 ^ 64
      → encode_varint v ≡ front ++ (x ∷ back)
      → Starved s (then_got (get_varint host front) next s)
  unfolding then_got
  then_got-prefix v x front back next s h e =
      rw (get_varint-prefix host v x front back h e) (refl, refl, refl)

  tag_cut :
      (v x : ℕ) (front back : List ℕ) (s : IStream)
      → v < 2 ^ 64
      → encode_varint v ≡ front ++ (x ∷ back)
      → Starved s (parse_field_header host (record s { p = front }))
  unfolding parse_field_header parse_field_tag then_got
  tag_cut v x front back s h e = rw (get_varint-prefix host v x front back h e) (refl, refl, refl)

  meta-prefix :
      (h : Head) (x : ℕ) (front back : List ℕ) (s : IStream)
      → IsHead h
      → meta h ≡ front ++ (x ∷ back)
      → Starved s (parse_field_meta host (tagged h front s))
  unfolding parse_field_meta count_then_esize count_of meta tagged head_wire head_id
  meta-prefix (Head.unsigned i) x front back s k e = absurd (nil_front front x back e)
  meta-prefix (Head.signed i) x front back s k e = absurd (nil_front front x back e)
  meta-prefix (Head.sequence i) x front back s k e = absurd (nil_front front x back e)
  meta-prefix (Head.sized i f n) x front back s k e =
      then_got-prefix (fixlen_word n f) x front back fixlen_of _ (sized-lt n f k.1) e
  meta-prefix (Head.counted i true n) x front back s k e =
      then_got-prefix n x front back count_of _ (omega arith) e
  meta-prefix (Head.counted i false n) x front back s k e =
      then_got-prefix n x front back count_of _ (omega arith) e
  meta-prefix (Head.floats i f n) x front back s k e =
      elim (split_front (encode_varint n) front (encode_varint (float_word f)) x back e) [
        | inl (y, c, short) ↦
            then_got-prefix n y front c (count_then_esize host) _ (omega arith) short
        | inr (rest, whole, tail) ↦
            (let word = float_word f in
              let bytes =
                All-front IsByte rest (x ∷ back)
                  (subst (All IsByte) tail (encoded word (float_word-lt f))) in
              let behind : IStream = record (tagged (Head.floats i f n) rest s) {
                fix_len = 0;
                count = 0;
              } in
              let tail_cut =
                then_got-prefix word x rest back esize_of (record behind { count = n })
                  (float_word-lt f) tail in
              subst (λ q. Starved s (parse_field_meta host (tagged (Head.floats i f n) q s)))
                (sym whole)
                (subst (Starved s)
                  (sym (
                    then_got-encode_varint host n (count_then_esize host) rest
                      (record behind { p = encode_varint n ++ rest }) (omega arith) bytes))
                  (rw (ge→ltb array_max n k.1) tail_cut)))
      ]

  -- On any proper front part of the header of a field in range, the header parser answers that it
  -- has no field, marks the stream incomplete and raises no error.
  pub parse_field_header-prefix :
      (h : Head) (x : ℕ) (front back : List ℕ) (s : IStream)
      → IsHead h
      → encode_head h ≡ front ++ (x ∷ back)
      → Starved s (parse_field_header host (record s { p = front }))
  unfolding tagged
  parse_field_header-prefix h x front back s k e =
      let word = head_bytes (head_id h) (head_wire h) in
      elim (split_front word front (meta h) x back (sym (in_two h) ∙ e)) [
        | inl (y, c, short) ↦
            tag_cut (header_word (head_id h) (head_wire h)) y front c s
              (word-lt (head_id h) (head_wire h) (head_in_range h k)) short
        | inr (rest, whole, tail) ↦
            (let bytes =
                All-front IsByte rest (x ∷ back) (subst (All IsByte) tail (meta-IsByte h k)) in
              subst (λ q. Starved s (parse_field_header host (record s { p = q }))) (sym whole)
                (subst (Starved s)
                  (sym (
                    parse_field_header_of host (record s { p = word ++ rest }) (tagged h rest s)
                      (parse_field_tag-head_bytes host (head_id h) (head_wire h) rest s
                        (head_in_range h k) bytes)
                      (not_end h)))
                  (meta-prefix h x rest back s k tail)))
      ]
