-- ===== src/IStream/Window/Rounds.antt =====
-- beginField, which reads a byte at least.
use mathlib.Core.Path.{subst}
use corelib_cpp.Common.{
  ℕ, ◌+◌, ◌<◌, ◌≡◌, refl, sym, ap, arith, Bool, true, false, not, ◌&&◌, if◌then◌else◌,
}
use corelib_cpp.Common.{List, length, All}
use corelib_cpp.Common.Bytes.{IsByte}
use corelib_cpp.Word.{Endian}
use corelib_cpp.IStream.{IStream, spanned_live}
use corelib_cpp.IStream.Limits.{exceeds_buffer, reached, reject_element_index}
use corelib_cpp.IStream.Header.{parse_field_tag, parse_field_meta, is_sequence_end}
use corelib_cpp.IStream.Levels.{
  Field, Admission, cut_header, begin_meta, begin_tagged, begin_field, element_admission, other_fix,
  has_base, deliver_as,
}
use corelib_cpp.IStream.Window.{Behind, here, further, bytes_behind, no_longer, either}
use corelib_cpp.IStream.Window.Steps.{
  Kept, Ahead, parse_field_tag-Ahead, parse_field_meta-Behind, suspend_at_boundary_p,
}

-- Where a field begins, its header was read.
abbrev pub Begun : List ℕ → IStream × Field → Type 0
Begun p (t, Field.stop) = Behind p t.p
Begun p (t, Field.ready) = Behind p t.p × (length t.p < length p)
Begun p (t, Field.skip_elem) = Behind p t.p × (length t.p < length p)

cut_header-Begun : (p : List ℕ) (s : IStream) → Behind p s.p → Begun p (cut_header p s)
unfolding cut_header
cut_header-Begun p s h =
    either (Begun p) s.incomplete _ _
      (subst (Behind p) (sym (suspend_at_boundary_p (record s { p = p }))) (here p)) h

rejected-Begun :
    (p : List ℕ) (s : IStream)
    → Behind p s.p
    → Begun p (reject_element_index s.field_id s, Field.stop)
unfolding reject_element_index
rejected-Begun p s h =
    let bad = s.field_id in
    either (λ (t : IStream). Behind p t.p) (reached s.elem.schema bad) _ _ h
      (either (λ (t : IStream). Behind p t.p) (reached s.elem.dyn bad) _ _ h h)

module _ (host : Endian) where
  begin_meta-Begun :
      (a : Admission) (p : List ℕ) (s : IStream)
      → All IsByte s.p
      → Behind p s.p
      → length s.p < length p
      → Begun p (begin_meta host p a s)
  unfolding begin_meta
  begin_meta-Begun a p s k h l = next a (parse_field_meta host s) (parse_field_meta-Behind host s k)
    where
      next :
          (a : Admission) (r : IStream × Bool)
          → Kept s.p r
          → Begun p (
              if not r.1 then cut_header p r.0 else elim a as (λ x. IStream × Field) [
                | Admission.admitted ↦ deliver_as Field.ready r.0
                | Admission.passed ↦ deliver_as Field.skip_elem r.0
                | Admission.refused ↦ (reject_element_index r.0.field_id r.0, Field.stop)
                | Admission.later ↦
                    if other_fix r.0.elem.fix r.0.fix_type
                    then deliver_as Field.skip_elem (record r.0 { skipped = r.0.skipped + 1 })
                    else (reject_element_index r.0.field_id r.0, Field.stop)
              ])
      next a (t, false) b = cut_header-Begun p t (further p s.p t.p h b)
      next Admission.admitted (t, true) b =
          (further p s.p t.p h b, omega (arith, no_longer s.p t.p b))
      next Admission.passed (t, true) b =
          (further p s.p t.p h b, omega (arith, no_longer s.p t.p b))
      next Admission.refused (t, true) b = rejected-Begun p t (further p s.p t.p h b)
      next Admission.later (t, true) b =
          either (Begun p) (other_fix t.elem.fix t.fix_type) _ _
            (further p s.p t.p h b, omega (arith, no_longer s.p t.p b))
            (rejected-Begun p t (further p s.p t.p h b))

  begin_tagged-Begun :
      (stop : Bool) (p : List ℕ) (s : IStream)
      → All IsByte s.p
      → Behind p s.p
      → length s.p < length p
      → Begun p (begin_tagged host stop p s)
  unfolding begin_tagged
  begin_tagged-Begun stop p s k h l = next (element_admission s)
    where
      meta :
          (a : Admission) (t : IStream)
          → t.p ≡ s.p
          → Begun p (
              if is_sequence_end t.type
              then (if stop then t else record t { error = true }, Field.stop)
              else begin_meta host p a t)
      meta a t e =
          let b = subst (Behind p) (sym e) h in
          either (Begun p) (is_sequence_end t.type) _ _
            (either (λ (z : IStream). Behind p z.p) stop _ _ b b)
            (begin_meta-Begun a p t (subst (All IsByte) (sym e) k) b (omega (arith, ap length e)))

      next :
          (a : Admission)
          → Begun p (
              let go = λ (t : IStream).
                if is_sequence_end t.type
                then (if stop then t else record t { error = true }, Field.stop)
                else begin_meta host p a t in
              elim a as (λ x. IStream × Field) [
                | Admission.admitted ↦ go s
                | Admission.passed ↦ go (record s { skipped = s.skipped + 1 })
                | Admission.refused ↦ (reject_element_index s.field_id s, Field.stop)
                | Admission.later ↦ go s
              ])
      next Admission.admitted = meta Admission.admitted s refl
      next Admission.passed = meta Admission.passed (record s { skipped = s.skipped + 1 }) refl
      next Admission.refused = rejected-Begun p s h
      next Admission.later = meta Admission.later s refl

  pub begin_field-Begun :
      (stop : Bool) (s : IStream) → All IsByte s.p → Begun s.p (begin_field host stop s)
  unfolding begin_field
  begin_field-Begun stop s k =
      either (Begun s.p)
        (not s.cap_inert && has_base s && not s.span_skip && exceeds_buffer (spanned_live s) 0 s) _
        _ (here s.p) (next (parse_field_tag host s) (parse_field_tag-Ahead host s k))
    where
      next :
          (r : IStream × Bool)
          → Ahead s.p r
          → Begun s.p (if not r.1 then cut_header s.p r.0 else begin_tagged host stop s.p r.0)
      next (t, false) (h, l) = cut_header-Begun s.p t h
      next (t, true) (h, l) = begin_tagged-Begun stop s.p t (bytes_behind s.p t.p h k) h (l refl)
