-- ===== src/IStream/Skipping/Trees.antt =====
-- beginField on headers of every kind, in a stream without a limit on elements.
use corelib_cpp.Common.{ℕ, ◌≡◌, refl, ap, ◌∙◌, arith, Bool, true, false, not, ◌&&◌, if◌then◌else◌}
use corelib_cpp.Common.{List, ◌++◌, append_assoc, All, All-append}
use corelib_cpp.Common.Bytes.{IsByte}
use corelib_cpp.Word.{Endian}
use corelib_cpp.Wire.{Wire, Fix}
use corelib_cpp.OStream.Writes.Nested.{end_mark}
use corelib_cpp.IStream.{IStream, no_limits, exceed_limit, spanned_live}
use corelib_cpp.IStream.Limits.{exceeds_buffer}
use corelib_cpp.IStream.Header.{parse_field_tag, parse_field_meta}
use corelib_cpp.IStream.Header.Heads.{
  Head, IsHead, encode_head, head_bytes, meta, meta-IsByte, head_id, head_wire, tagged,
  parse_field_tag-head_bytes, parse_field_meta-meta,
}
use corelib_cpp.IStream.Header.RoundTrip.{head_in_range, not_end, in_two}
use corelib_cpp.IStream.Levels.{
  has_base, Field, begin_field, begin_tagged, begin_meta, cut_header, deliver_as, element_admission,
}
use corelib_cpp.IStream.Skipping.{begun}

-- What passing a field changes, the bytes left aside.
pub record Marks : Type 0 where
  pub field_id : ℕ
  pub type : Wire
  pub fix_type : Fix
  pub fix_len : ℕ
  pub count : ℕ
  pub consumed : Bool
  pub pend_done : ℕ
  pub utf8_state : ℕ
  pub span_skipped : ℕ

abbrev pub mark : Marks → IStream → IStream
mark m s = record s {
  field_id = m.field_id;
  type = m.type;
  fix_type = m.fix_type;
  fix_len = m.fix_len;
  count = m.count;
  consumed = m.consumed;
  pend_done = m.pend_done;
  utf8_state = m.utf8_state;
  span_skipped = m.span_skipped;
}

-- A stream that is not resuming, without an error; and one inside a skipped sequence.
abbrev pub still : IStream → IStream
still s = record s { error = false; incomplete = false; replay = false }

abbrev pub calm : IStream → IStream
calm s = record (still s) { elem = no_limits; span_skip = true }

-- The test of the receiver's limit inside a skipped sequence.
quiet {ℓ} : {A : Type ℓ} (a b d : Bool) (x y : A) → (if a && b && not true && d then x else y) ≡ y
quiet true true d x y = refl
quiet true false d x y = refl
quiet false b d x y = refl

begin_calm :
    (host : Endian) (stop : Bool) (s t : IStream)
    → parse_field_tag host (calm s) ≡ (t, true)
    → begin_field host stop (calm s) ≡ begin_tagged host stop s.p t
unfolding begin_field
begin_calm host stop s t e =
    let next : IStream × Bool → IStream × Field =
      λ r. if not r.1 then cut_header s.p r.0 else begin_tagged host stop s.p r.0 in
    quiet (not s.cap_inert) (has_base s) (exceeds_buffer (spanned_live (calm s)) 0 (calm s))
      (exceed_limit (calm s), Field.stop) (next (parse_field_tag host (calm s)))
    ∙ ap next e

module _ (host : Endian) where
  pub begin_head :
      (stop : Bool) (h : Head) (body : List ℕ) (s : IStream)
      → IsHead h
      → All IsByte body
      → begin_field host stop (record (calm s) { p = encode_head h ++ body })
        ≡ (begun h (record (calm s) { p = body }), Field.ready)
  unfolding begin_tagged element_admission tagged begin_meta deliver_as
  begin_head stop h body s k b =
      let word = head_bytes (head_id h) (head_wire h) in
      let more = All-append IsByte (meta h) body (meta-IsByte h k) b in
      let split : encode_head h ++ body ≡ word ++ (meta h ++ body) =
        ap (λ t. t ++ body) (in_two h) ∙ append_assoc word (meta h) body in
      let at = record s { p = word ++ (meta h ++ body) } in
      let next : IStream × Bool → IStream × Field =
        λ r. if not r.1 then cut_header at.p r.0 else deliver_as Field.ready r.0 in
      ap (λ p. begin_field host stop (record (calm s) { p = p })) split
      ∙ begin_calm host stop at (tagged h (meta h ++ body) (calm s)) (
          parse_field_tag-head_bytes host (head_id h) (head_wire h) (meta h ++ body) (calm s)
            (head_in_range h k) more)
      ∙ ap
          (λ (e : Bool).
            if e
            then (
              if stop
                  then tagged h (meta h ++ body) (calm s)
                  else record (tagged h (meta h ++ body) (calm s)) { error = true },
              Field.stop,
            )
            else next (parse_field_meta host (tagged h (meta h ++ body) (calm s))))
          (not_end h)
      ∙ ap next (parse_field_meta-meta host h body (calm s) k b)

  pub begin_end :
      (rest : List ℕ) (s : IStream)
      → All IsByte rest
      → begin_field host true (record (calm s) { p = end_mark ++ rest })
        ≡ (record (calm s) { p = rest; field_id = 0; type = Wire.sequence_end }, Field.stop)
  unfolding begin_tagged element_admission
  begin_end rest s b =
      begin_calm host true (record s { p = end_mark ++ rest })
        (record (calm s) { p = rest; field_id = 0; type = Wire.sequence_end })
        (parse_field_tag-head_bytes host 0 Wire.sequence_end rest (calm s) (omega arith) b)

abbrev pub marks_of : IStream → Marks
marks_of s = record {
  field_id = s.field_id;
  type = s.type;
  fix_type = s.fix_type;
  fix_len = s.fix_len;
  count = s.count;
  consumed = s.consumed;
  pend_done = s.pend_done;
  utf8_state = s.utf8_state;
  span_skipped = s.span_skipped;
}

pub begun-mark :
    (h : Head) (s : IStream) (p : List ℕ)
    → begun h (record s { p = p }) ≡ record (mark (marks_of (begun h s)) s) { p = p }
begun-mark (Head.unsigned i) s p = refl
begun-mark (Head.signed i) s p = refl
begun-mark (Head.sequence i) s p = refl
begun-mark (Head.sized i f n) s p = refl
begun-mark (Head.counted i b n) s p = refl
begun-mark (Head.floats i f n) s p = refl

pub begun_p :
    (h : Head) (s : IStream) (p : List ℕ)
    → begun h (record s { p = p }) ≡ record (begun h s) { p = p }
begun_p (Head.unsigned i) s p = refl
begun_p (Head.signed i) s p = refl
begun_p (Head.sequence i) s p = refl
begun_p (Head.sized i f n) s p = refl
begun_p (Head.counted i b n) s p = refl
begun_p (Head.floats i f n) s p = refl
