-- ===== src/IStream/Skipping/Passing.antt =====
-- A round of dispatchLevel without a handler, and skipSequence, on a field of any kind.
use corelib_cpp.Common.{
  ℕ, suc, ◌+◌, ◌-◌, ◌≤◌, ◌≡◌, refl, sym, ap, ◌∙◌, arith, Bool, true, false, ltb, if◌then◌else◌, inl,
  inr, Bool-cases,
}
use corelib_cpp.Common.{List, [], ◌∷◌, ◌++◌, length, length-append, All, All-append}
use corelib_cpp.Common.Bytes.{IsByte}
use corelib_cpp.Word.{Endian}
use corelib_cpp.Wire.{Wire, header_word}
use corelib_cpp.Varint.RoundTrip.{encode_varint_shape}
use corelib_cpp.OStream.Writes.Nested.{end_mark}
use corelib_cpp.IStream.{IStream}
use corelib_cpp.IStream.Header.Heads.{Head, IsHead, encode_head, word-lt}
use corelib_cpp.IStream.Levels.{level_entry, Field, discount_skipped, skip_field, suspend_here}
use corelib_cpp.IStream.Dispatch.{
  at_end, close_level, finish_field, dispatch_field, dispatch_loop, dispatch_rounds, dispatch_level,
  skip_sequence, no_handler,
}
use corelib_cpp.IStream.Skipping.{IsPayload, begun}
use corelib_cpp.IStream.Skipping.Leaves.{skip_field-begun}
use corelib_cpp.IStream.Skipping.Trees.{
  Marks, mark, marks_of, still, calm, begun-mark, begun_p, begin_head, begin_end,
}

end_of_nil :
    (p : List ℕ) → 1 ≤ length p → (elim p as (λ x. Bool) [ [] ↦ true | b ∷ q ↦ false ]) ≡ false
end_of_nil [] h = absurd (omega arith)
end_of_nil (b ∷ q) h = refl

pub not_at_end : (s : IStream) → 1 ≤ length s.p → at_end s ≡ false
not_at_end s h = end_of_nil s.p h

discounted :
    (from : List ℕ) (s : IStream)
    → (n : ℕ) × (discount_skipped from s ≡ record s { span_skipped = n })
unfolding discount_skipped
discounted from s = elim (Bool-cases (ltb (length s.p) (length from))) [
  | inl on ↦ (s.span_skipped + (length from - length s.p), rw (discount_skipped, on) refl)
  | inr off ↦ (s.span_skipped, rw (discount_skipped, off) refl)
]

-- A field that was not taken, passed by `skip`.
finish_calm :
    (skip : IStream → IStream) (start payload rest : List ℕ) (id : ℕ) (big m : Marks) (s : IStream)
    → skip (record (calm (mark (record big { consumed = false }) s)) { p = payload })
      ≡ record (calm (mark m s)) { p = rest }
    → (m' : Marks) × (finish_field skip start payload id
          (record (calm (mark (record big { consumed = false }) s)) { p = payload })
        ≡ (record (calm (mark m' s)) { p = rest }, true))
unfolding finish_field
finish_calm skip start payload rest id big m s e =
    let (n, f) = discounted start (record (calm (mark m s)) { p = rest }) in
    (
      record m { span_skipped = n },
      ap (λ (z : IStream). if z.incomplete then (suspend_here id true z, false) else (z, true))
          (ap (discount_skipped start) e ∙ f),
    )

module _ (host : Endian) (sequence : IStream → IStream) where
  pub field_passed :
      (h : Head) (bs rest : List ℕ) (m : Marks) (s : IStream)
      → IsHead h
      → All IsByte (bs ++ rest)
      → skip_field host sequence (begun h (record (calm s) { p = bs ++ rest }))
        ≡ record (calm (mark m s)) { p = rest }
      → (m' : Marks) × (dispatch_field host sequence no_handler true
            (tt, record (calm s) { p = encode_head h ++ (bs ++ rest) })
          ≡ ((tt, record (calm (mark m' s)) { p = rest }), true))
  unfolding dispatch_field
  field_passed h bs rest m s k b e =
      let start = encode_head h ++ (bs ++ rest) in
      let big = marks_of (begun h (calm s)) in
      let same = begun-mark h (calm s) (bs ++ rest) in
      let finish : IStream → (Unit {0} × IStream) × Bool = λ z.
        let r = finish_field (skip_field host sequence) start z.p z.field_id z in
        ((tt, r.0), r.1) in
      let next : IStream × Field → (Unit {0} × IStream) × Bool = λ r. elim r.1 [
        | Field.stop ↦ ((tt, r.0), false)
        | Field.ready ↦ finish r.0
        | Field.skip_elem ↦ finish r.0
      ] in
      let (m', f) =
        finish_calm (skip_field host sequence) start (bs ++ rest) rest big.field_id big m s
          (ap (skip_field host sequence) (sym same) ∙ e) in
      (
        m',
        ap next (begin_head host true h (bs ++ rest) s k b)
            ∙ ap finish same
            ∙ ap (λ r. ((tt, r.0), r.1)) f,
      )

  pub leaf_passed :
      (h : Head) (bs rest : List ℕ) (s : IStream)
      → IsHead h
      → IsPayload h bs
      → All IsByte bs
      → All IsByte rest
      → (m : Marks) × (dispatch_field host sequence no_handler true
            (tt, record (calm s) { p = encode_head h ++ (bs ++ rest) })
          ≡ ((tt, record (calm (mark m s)) { p = rest }), true))
  leaf_passed h bs rest s k load b c =
      field_passed h bs rest (marks_of (begun h (calm s))) s k (All-append IsByte bs rest b c) (
        ap (skip_field host sequence) (begun_p h (calm s) (bs ++ rest))
        ∙ skip_field-begun host sequence h bs rest (calm s) load c
        ∙ sym (begun_p h (calm s) rest)
        ∙ begun-mark h (calm s) rest)

  pub loop_step :
      (fuel : ℕ) (s : IStream)
      → 1 ≤ length s.p
      → dispatch_loop host sequence no_handler (suc fuel) true (tt, calm s) ≡ (
          let r = dispatch_field host sequence no_handler true (tt, calm s) in
          elim r.1 [ true ↦ dispatch_loop host sequence no_handler fuel true r.0 | false ↦ r ])
  unfolding dispatch_loop
  loop_step fuel s h = rw (dispatch_loop, not_at_end s h) refl

  pub loop_end :
      (fuel : ℕ) (rest : List ℕ) (s : IStream)
      → All IsByte rest
      → dispatch_loop host sequence no_handler
          (suc fuel)
          true
          (tt, record (calm s) { p = end_mark ++ rest })
        ≡ ((tt, record (calm s) { p = rest; field_id = 0; type = Wire.sequence_end }), false)
  unfolding dispatch_field
  loop_end fuel rest s b =
      let start = end_mark ++ rest in
      let shape =
        (encode_varint_shape (header_word 0 Wire.sequence_end)
          (word-lt 0 Wire.sequence_end (omega arith))).1 in
      let one : 1 ≤ length start = omega (arith, shape, length-append end_mark rest) in
      let finish : IStream → (Unit {0} × IStream) × Bool = λ z.
        let r = finish_field (skip_field host sequence) start z.p z.field_id z in
        ((tt, r.0), r.1) in
      let next : IStream × Field → (Unit {0} × IStream) × Bool = λ r. elim r.1 [
        | Field.stop ↦ ((tt, r.0), false)
        | Field.ready ↦ finish r.0
        | Field.skip_elem ↦ finish r.0
      ] in
      let more : (Unit {0} × IStream) × Bool → (Unit {0} × IStream) × Bool =
        λ r. elim r.1 [ true ↦ dispatch_loop host sequence no_handler fuel true r.0 | false ↦ r ] in
      loop_step fuel (record s { p = start }) one
      ∙ ap (λ r. more (next r)) (begin_end host rest s b)

  -- skipSequence, where its loop ends at `rest`.
  pub skip_sequence_of :
      (p rest : List ℕ) (m : Marks) (s : IStream)
      → dispatch_loop host sequence no_handler
          (length p)
          true
          (tt, record (calm (record s { seq_depth = s.seq_depth + 1 })) { p = p })
        ≡ (
          (tt, record (calm (mark m (record s { seq_depth = s.seq_depth + 1 }))) { p = rest }),
          false,
        )
      → skip_sequence host sequence (record (still s) { p = p })
        ≡ record (still (mark m s)) { p = rest }
  unfolding skip_sequence dispatch_level dispatch_rounds level_entry
  skip_sequence_of p rest m s e =
      let depth : s.seq_depth + 1 - 1 ≡ s.seq_depth = omega arith in
      let whole : (Unit {0} × IStream) × Bool → IStream = λ r.
        let z = (if r.1 then (r.0.0, close_level true r.0.1) else r.0) in
        record z.1 { seq_depth = z.1.seq_depth - 1; elem = s.elem; span_skip = s.span_skip } in
      ap whole e ∙ ap (λ d. record (still (mark m s)) { p = rest; seq_depth = d }) depth
