-- ===== src/IStream/Skipping/Whole.antt =====
-- skipSequence and the loop of dispatchLevel on sequences nested to any depth.
use mathlib.Core.Path.{subst}
use corelib_cpp.Common.{
  ℕ, zero, suc, ◌+◌, ◌-◌, ◌≤◌, ◌<◌, ◌≡◌, refl, sym, ap, ◌∙◌, arith, Bool, true, false, gt→leb,
}
use corelib_cpp.Common.{
  List, [], ◌++◌, append_assoc, append-nil, length, length-append, All, All-append,
}
use corelib_cpp.Common.Bytes.{IsByte}
use corelib_cpp.Word.{Endian}
use corelib_cpp.Wire.{Wire, max_depth, header_word}
use corelib_cpp.Varint.RoundTrip.{encode_varint_shape}
use corelib_cpp.OStream.Writes.Nested.{end_mark}
use corelib_cpp.OStream.Writes.Arrays.{varints}
use corelib_cpp.IStream.{IStream, no_limits}
use corelib_cpp.IStream.Header.Heads.{
  Head, IsHead, encode_head, head_bytes, head_id, head_wire, meta, meta-IsByte, word-lt,
}
use corelib_cpp.IStream.Header.RoundTrip.{in_two, head_in_range}
use corelib_cpp.IStream.Levels.{skip_field}
use corelib_cpp.IStream.Dispatch.{dispatch_field, dispatch_loop, skip_levels, no_handler}
use corelib_cpp.IStream.Skipping.{Fields, encode_fields, IsPayload, IsFields, begun}
use corelib_cpp.IStream.Skipping.Leaves.{varints-IsByte}
use corelib_cpp.IStream.Skipping.Trees.{Marks, mark, marks_of, still, calm}
use corelib_cpp.IStream.Skipping.Passing.{
  field_passed, leaf_passed, loop_step, loop_end, skip_sequence_of,
}

pub head-IsByte : (h : Head) → IsHead h → All IsByte (encode_head h) × (1 ≤ length (encode_head h))
head-IsByte h k =
    let shape =
      encode_varint_shape (header_word (head_id h) (head_wire h))
        (word-lt (head_id h) (head_wire h) (head_in_range h k)) in
    let word = head_bytes (head_id h) (head_wire h) in
    (
      subst (All IsByte) (sym (in_two h))
          (All-append IsByte word (meta h) shape.0 (meta-IsByte h k)),
      omega (arith, shape.1, length-append word (meta h), ap length (in_two h)),
    )

pub payload-IsByte : (h : Head) (bs : List ℕ) → IsPayload h bs → All IsByte bs
unfolding IsPayload
payload-IsByte (Head.unsigned i) bs (v, small, e) =
    subst (All IsByte) (sym e) (encode_varint_shape v small).0
payload-IsByte (Head.signed i) bs (v, small, e) =
    subst (All IsByte) (sym e) (encode_varint_shape v small).0
payload-IsByte (Head.sequence i) bs h = elim h [ ]
payload-IsByte (Head.sized i f n) bs h = h.1
payload-IsByte (Head.counted i b n) bs (ws, u, l, e) =
    subst (All IsByte) (append-nil (varints ws) ∙ sym e) (varints-IsByte ws [] u tt)
payload-IsByte (Head.floats i f n) bs h = h.1

pub end_mark-IsByte : All IsByte end_mark
end_mark-IsByte =
    (encode_varint_shape (header_word 0 Wire.sequence_end)
      (word-lt 0 Wire.sequence_end (omega arith))).0

pub fields-IsByte : (d : ℕ) (f : Fields) → IsFields d f → All IsByte (encode_fields f)
unfolding IsFields encode_fields
fields-IsByte d Fields.nil h = tt
fields-IsByte d (Fields.plain h bs rest) (k, load, more) =
    All-append IsByte (encode_head h) (bs ++ encode_fields rest) (head-IsByte h k).0 (
      All-append IsByte bs (encode_fields rest) (payload-IsByte h bs load)
        (fields-IsByte d rest more))
fields-IsByte d (Fields.nested i inner rest) (k, deep, inside, more) =
    All-append IsByte (encode_head (Head.sequence i))
      (encode_fields inner ++ (end_mark ++ encode_fields rest)) (head-IsByte (Head.sequence i) k).0
      (All-append IsByte (encode_fields inner) (end_mark ++ encode_fields rest)
        (fields-IsByte (d - 1) inner inside)
        (All-append IsByte end_mark (encode_fields rest) end_mark-IsByte
          (fields-IsByte d rest more)))

-- The bytes of a field, its payload in one or two parts, in front of others.
grouped : (h xs ys zs : List ℕ) → (h ++ (xs ++ ys)) ++ zs ≡ h ++ (xs ++ (ys ++ zs))
grouped h xs ys zs = append_assoc h (xs ++ ys) zs ∙ ap (λ q. h ++ q) (append_assoc xs ys zs)

regrouped :
    (h xs ys us vs : List ℕ) → (h ++ (xs ++ (ys ++ us))) ++ vs ≡ h ++ ((xs ++ ys) ++ (us ++ vs))
regrouped h xs ys us vs =
    grouped h xs (ys ++ us) vs
    ∙ ap (λ q. h ++ q)
        (ap (λ q. xs ++ q) (append_assoc ys us vs) ∙ sym (append_assoc xs ys (us ++ vs)))

closed-IsByte :
    (d : ℕ) (f : Fields) (rest : List ℕ)
    → IsFields d f
    → All IsByte rest
    → All IsByte (encode_fields f ++ (end_mark ++ rest))
closed-IsByte d f rest h b =
    All-append IsByte (encode_fields f) (end_mark ++ rest) (fields-IsByte d f h)
      (All-append IsByte end_mark rest end_mark-IsByte b)

-- The bytes up to an end mark are fuel enough for the fields and the mark.
pub enough_room :
    (f : Fields) (rest : List ℕ)
    → length (encode_fields f) + 1 ≤ length (encode_fields f ++ (end_mark ++ rest))
enough_room f rest =
    let mark_size =
      (encode_varint_shape (header_word 0 Wire.sequence_end)
        (word-lt 0 Wire.sequence_end (omega arith))).1 in
    omega (
      arith,
      length-append (encode_fields f) (end_mark ++ rest),
      length-append end_mark rest,
      mark_size,
    )

module _ (host : Endian) where
  -- A sequence header that is not too deep.
  pub deeper :
      (k : ℕ) (s : IStream) (m : Marks) (p : List ℕ)
      → s.seq_depth < max_depth
      → skip_field host
          (skip_levels host k)
          (record (mark (record m { type = Wire.sequence_start }) (still s)) { p = p })
        ≡ skip_levels host k
            (record (mark (record m { type = Wire.sequence_start }) (still s)) { p = p })
  unfolding skip_field
  deeper k s m p h = rw (skip_field, gt→leb max_depth s.seq_depth h) refl

  -- A round that passes a field, and the rounds behind it.
  one_more :
      (sequence : IStream → IStream) (fuel : ℕ) (p : List ℕ) (h : Head) (body : List ℕ)
      (s t : IStream) (out : (Unit {0} × IStream) × Bool)
      → p ≡ encode_head h ++ body
      → IsHead h
      → dispatch_field host sequence no_handler true
          (tt, record (calm s) { p = encode_head h ++ body })
        ≡ ((tt, t), true)
      → dispatch_loop host sequence no_handler fuel true (tt, t) ≡ out
      → dispatch_loop host sequence no_handler (suc fuel) true (tt, record (calm s) { p = p }) ≡ out
  one_more sequence fuel p h body s t out split k e e' =
      let q = encode_head h ++ body in
      let next : (Unit {0} × IStream) × Bool → (Unit {0} × IStream) × Bool =
        λ r. elim r.1 [ true ↦ dispatch_loop host sequence no_handler fuel true r.0 | false ↦ r ] in
      let long : 1 ≤ length q =
        omega (arith, length-append (encode_head h) body, (head-IsByte h k).1) in
      ap
        (λ q.
          dispatch_loop host sequence no_handler (suc fuel) true (tt, record (calm s) { p = q }))
        split
      ∙ loop_step host sequence fuel (record s { p = q }) long
      ∙ ap next e
      ∙ e'

  -- A sequence is passed where the loop inside it ends.
  sequence_passed :
      (k i : ℕ) (f : Fields) (rest : List ℕ) (s : IStream) (m : Marks)
      → s.seq_depth < max_depth
      → (let at = record (mark (marks_of (begun (Head.sequence i) (calm s))) (calm s)) {
        seq_depth = s.seq_depth + 1;
      } in
          dispatch_loop host
            (skip_levels host k)
            no_handler
            (length (encode_fields f ++ (end_mark ++ rest)))
            true
            (tt, record (calm at) { p = encode_fields f ++ (end_mark ++ rest) })
          ≡ ((tt, record (calm (mark m at)) { p = rest }), false))
      → skip_field host
          (skip_levels host (suc k))
          (begun (Head.sequence i) (record (calm s) { p = (encode_fields f ++ end_mark) ++ rest }))
        ≡ record (calm (mark m s)) { p = rest }
  unfolding skip_levels
  sequence_passed k i f rest s m shallow e =
      let head = Head.sequence i in
      let big = marks_of (begun head (calm s)) in
      let p = encode_fields f ++ (end_mark ++ rest) in
      ap (λ q. skip_field host (skip_levels host (suc k)) (begun head (record (calm s) { p = q })))
        (append_assoc (encode_fields f) end_mark rest)
      ∙ deeper (suc k) (record s { elem = no_limits; span_skip = true }) big p shallow
      ∙ skip_sequence_of host (skip_levels host k) p rest m (mark big (calm s)) e

  pub loop-fields :
      (f : Fields) (k d fuel : ℕ) (rest : List ℕ) (s : IStream)
      → IsFields d f
      → d ≤ k
      → s.seq_depth + d ≤ max_depth
      → All IsByte rest
      → length (encode_fields f) + 1 ≤ fuel
      → (m : Marks) × (dispatch_loop host
            (skip_levels host k)
            no_handler
            fuel
            true
            (tt, record (calm s) { p = encode_fields f ++ (end_mark ++ rest) })
          ≡ ((tt, record (calm (mark m s)) { p = rest }), false))
  unfolding encode_fields IsFields skip_levels
  loop-fields Fields.nil k d zero rest s h l deep b enough = absurd (omega arith)
  loop-fields Fields.nil k d (suc fuel) rest s h l deep b enough = (
    record (marks_of s) { field_id = 0; type = Wire.sequence_end },
    loop_end host (skip_levels host k) fuel rest s b,
  )
  loop-fields (Fields.plain h bs f) k d zero rest s g l deep b enough = absurd (omega arith)
  loop-fields (Fields.plain h bs f) k d (suc fuel) rest s (hd, load, more) l deep b enough =
      let behind = encode_fields f ++ (end_mark ++ rest) in
      let one = (head-IsByte h hd).1 in
      let size = length-append (encode_head h) (bs ++ encode_fields f) in
      let size2 = length-append bs (encode_fields f) in
      let (m, e) =
        leaf_passed host (skip_levels host k) h bs behind s hd load (payload-IsByte h bs load)
          (closed-IsByte d f rest more b) in
      let (m', e') = loop-fields f k d fuel rest (mark m s) more l deep b (omega arith) in
      (
        m',
        one_more (skip_levels host k) fuel
            (encode_fields (Fields.plain h bs f) ++ (end_mark ++ rest)) h (bs ++ behind) s
            (record (calm (mark m s)) { p = behind })
            ((tt, record (calm (mark m' (mark m s))) { p = rest }), false)
            (grouped (encode_head h) bs (encode_fields f) (end_mark ++ rest)) hd e e',
      )
  loop-fields (Fields.nested i inner f) k d zero rest s h l deep b enough = absurd (omega arith)
  loop-fields (Fields.nested i inner f) zero d (suc fuel) rest s h l deep b enough =
      absurd (omega (arith, h.1))
  loop-fields (Fields.nested i inner f) (suc k) d (suc fuel) rest s (hd, some_depth, inside, more) l
        deep b enough =
      let head = Head.sequence i in
      let behind = encode_fields f ++ (end_mark ++ rest) in
      let bytes = closed-IsByte d f rest more b in
      let held = encode_fields inner ++ end_mark in
      let held_bytes =
        All-append IsByte (encode_fields inner) end_mark (fields-IsByte (d - 1) inner inside)
          end_mark-IsByte in
      let one = (head-IsByte head hd).1 in
      let size =
        length-append (encode_head head) (encode_fields inner ++ (end_mark ++ encode_fields f)) in
      let size2 = length-append (encode_fields inner) (end_mark ++ encode_fields f) in
      let size3 = length-append end_mark (encode_fields f) in
      let at = record (mark (marks_of (begun head (calm s))) (calm s)) {
        seq_depth = s.seq_depth + 1;
      } in
      let (m1, e1) =
        loop-fields inner k (d - 1) (length (encode_fields inner ++ (end_mark ++ behind))) behind at
          inside (omega arith) (omega arith) bytes (enough_room inner behind) in
      let (m, e) =
        field_passed host (skip_levels host (suc k)) head held behind m1 s hd
          (All-append IsByte held behind held_bytes bytes)
          (sequence_passed k i inner behind s m1 (omega arith) e1) in
      let (m', e') = loop-fields f (suc k) d fuel rest (mark m s) more l deep b (omega arith) in
      (
        m',
        one_more (skip_levels host (suc k)) fuel
            (encode_fields (Fields.nested i inner f) ++ (end_mark ++ rest)) head (held ++ behind) s
            (record (calm (mark m s)) { p = behind })
            ((tt, record (calm (mark m' (mark m s))) { p = rest }), false)
            (regrouped (encode_head head) (encode_fields inner) end_mark (encode_fields f)
              (end_mark ++ rest))
            hd e e',
      )
