-- ===== src/IStream/Skipping/Tops.antt =====
-- parseTopLevel with a handler that takes no field.
use corelib_cpp.Common.{
  ℕ, zero, suc, ◌+◌, ◌-◌, ◌≤◌, ◌≡◌, refl, sym, ap, ap₂, ◌∙◌, arith, Bool, true, false, not, ◌&&◌,
  if◌then◌else◌, Option,
}
use corelib_cpp.Common.{List, [], ◌∷◌, ◌++◌, append_assoc, length, length-append, All, All-append}
use corelib_cpp.Common.Bytes.{IsByte}
use corelib_cpp.Word.{Endian}
use corelib_cpp.Wire.{max_depth, schema_bounds_header}
use corelib_cpp.OStream.Writes.Nested.{end_mark}
use corelib_cpp.IStream.{IStream, exceed_limit}
use corelib_cpp.IStream.Limits.{exceeds_buffer_at_header}
use corelib_cpp.IStream.Header.Heads.{Head, IsHead, encode_head, headed}
use corelib_cpp.IStream.Header.RoundTrip.{parse_field_header-encode_head}
use corelib_cpp.IStream.Levels.{skip_field, suspend_here, suspend_at_boundary}
use corelib_cpp.IStream.Dispatch.{skip_levels}
use corelib_cpp.IStream.Feed.{top_field, top_loop, top_withheld, top_deliver}
use corelib_cpp.IStream.Skipping.{Fields, encode_fields, IsPayload, IsFields, begun}
use corelib_cpp.IStream.Skipping.Leaves.{skip_field-begun}
use corelib_cpp.IStream.Skipping.Trees.{Marks, mark, marks_of, begun-mark, begun_p}
use corelib_cpp.IStream.Skipping.Whole.{
  deeper, head-IsByte, payload-IsByte, fields-IsByte, end_mark-IsByte,
}
use corelib_cpp.IStream.Skipping.Sequences.{skip_levels-encode_fields}
use corelib_cpp.IStream.Skipping.Offered.{
  free, begin_span, headed-mark, watch, offered, offer_all, offered_lem,
}

module _ {ℓ} {U : Type ℓ} (host : Endian) (sequence : IStream → IStream)
    (f : ℕ → ℕ → ℕ → U → U) where
  top_passed :
      (h : Head) (bs rest : List ℕ) (m : Marks) (u : U) (s : IStream)
      → IsHead h
      → All IsByte (bs ++ rest)
      → skip_field host sequence (
          begun h (record (free (begin_span (encode_head h ++ (bs ++ rest)) s)) { p = bs ++ rest }))
        ≡ record (free (mark m (begin_span (encode_head h ++ (bs ++ rest)) s))) { p = rest }
      → top_field host sequence (watch f) (u, record (free s) { p = encode_head h ++ (bs ++ rest) })
        ≡ (
          (
            offered f h u,
            record (free (mark m (begin_span (encode_head h ++ (bs ++ rest)) s))) { p = rest },
          ),
          true,
        )
  unfolding top_field
  top_passed h bs rest m u s k b e =
      let all = encode_head h ++ (bs ++ rest) in
      let at = free (begin_span all s) in
      let big = marks_of (headed h at) in
      let next : IStream × Bool → (U × IStream) × Bool = λ r.
        if not r.1
        then (if r.0.incomplete
            then ((u, suspend_at_boundary (record r.0 { p = all })), false)
            else ((u, r.0), false))
        else (let s2 : IStream = record r.0 { pend_done = 0; utf8_state = 0 } in
            if not s2.cap_inert && exceeds_buffer_at_header s2
            then (if schema_bounds_header s2.type
                then top_withheld host sequence (watch f) (u, s2)
                else ((u, exceed_limit s2), false))
            else top_deliver host sequence (watch f) (u, s2)) in
      let seen = f big.field_id big.fix_len big.count u in
      let settle : U → IStream → (U × IStream) × Bool = λ v t.
        if t.error
        then ((v, t), false)
        else if t.incomplete
        then ((v, suspend_here big.field_id true t), false)
        else ((v, t), true) in
      let same : begun h (record at { p = bs ++ rest })
          ≡ record (mark (record big { consumed = false; pend_done = 0; utf8_state = 0 }) at) {
            p = bs ++ rest;
          } =
        ap (λ (z : IStream). record z { pend_done = 0; utf8_state = 0; consumed = false })
          (headed-mark h at (bs ++ rest)) in
      ap next (parse_field_header-encode_head host h (bs ++ rest) at k b)
      ∙ ap (λ z. next (z, true)) (headed-mark h at (bs ++ rest))
      ∙ ap₂ settle (offered_lem f h u at) (ap (skip_field host sequence) (sym same) ∙ e)

  -- A field that is not a sequence, and no handler takes.
  top_leaf :
      (h : Head) (bs rest : List ℕ) (u : U) (s : IStream)
      → IsHead h
      → IsPayload h bs
      → All IsByte rest
      → (m : Marks) × (top_field host sequence
            (watch f)
            (u, record (free s) { p = encode_head h ++ (bs ++ rest) })
          ≡ (
            (
              offered f h u,
              record (free (mark m (begin_span (encode_head h ++ (bs ++ rest)) s))) { p = rest },
            ),
            true,
          ))
  top_leaf h bs rest u s k load c =
      let at = free (begin_span (encode_head h ++ (bs ++ rest)) s) in
      (
        marks_of (begun h at),
        top_passed h bs rest (marks_of (begun h at)) u s k
            (All-append IsByte bs rest (payload-IsByte h bs load) c)
            (ap (skip_field host sequence) (begun_p h at (bs ++ rest))
              ∙ skip_field-begun host sequence h bs rest at load c
              ∙ sym (begun_p h at rest)
              ∙ begun-mark h at rest),
      )

  top_step :
      (fuel : ℕ) (p : List ℕ) (u : U) (s : IStream) (st : U × IStream)
      → 1 ≤ length p
      → top_field host sequence (watch f) (u, record s { p = p }) ≡ (st, true)
      → top_loop host sequence (watch f) (suc fuel) (u, record s { p = p })
        ≡ top_loop host sequence (watch f) fuel st
  unfolding top_loop
  top_step fuel [] u s st h e = absurd (omega arith)
  top_step fuel (b ∷ p) u s st h e =
      ap
        (λ (r : (U × IStream) × Bool). elim r.1 [
          | true ↦ top_loop host sequence (watch f) fuel r.0
          | false ↦ r.0
        ])
        e

-- What the rounds of parseTopLevel leave.
abbrev pub passed : Marks → ℕ → Option (List ℕ) → IStream → IStream
passed m carried base s = record (free (mark m s)) {
  span_carry = carried;
  span_base = base;
  p = [];
}

pub top_fields {ℓ} :
    {U : Type ℓ} (host : Endian) (f : ℕ → ℕ → ℕ → U → U) (g : Fields) (k d fuel : ℕ) (u : U)
    (s : IStream)
    → IsFields d g
    → d ≤ k
    → s.seq_depth + d ≤ max_depth
    → length (encode_fields g) ≤ fuel
    → (m : Marks) × (carried : ℕ) × (base : Option (List ℕ)) × (carried ≤ s.span_carry)
      × (top_loop host
            (skip_levels host k)
            (watch f)
            fuel
            (u, record (free s) { p = encode_fields g })
          ≡ (offer_all f g u, passed m carried base s))
unfolding encode_fields IsFields top_loop offer_all
top_fields host f Fields.nil k d zero u s h l deep enough =
    (marks_of s, s.span_carry, s.span_base, omega arith, refl)
top_fields host f Fields.nil k d (suc fuel) u s h l deep enough =
    (marks_of s, s.span_carry, s.span_base, omega arith, refl)
top_fields host f (Fields.plain h bs g) k d zero u s (hd, load, more) l deep enough =
    absurd
      (omega (arith, (head-IsByte h hd).1, length-append (encode_head h) (bs ++ encode_fields g)))
top_fields host f (Fields.plain h bs g) k d (suc fuel) u s (hd, load, more) l deep enough =
    let behind = encode_fields g in
    let all = encode_head h ++ (bs ++ behind) in
    let one = (head-IsByte h hd).1 in
    let size = length-append (encode_head h) (bs ++ behind) in
    let size2 = length-append bs behind in
    let (m, e) =
      top_leaf host (skip_levels host k) f h bs behind u s hd load (fields-IsByte d g more) in
    let (m', c, base, small, e') =
      top_fields host f g k d fuel (offered f h u) (mark m (begin_span all s)) more l deep
        (omega arith) in
    (
      m',
      c,
      base,
      omega arith,
      top_step host (skip_levels host k) f fuel all u (free s)
            (offered f h u, record (free (mark m (begin_span all s))) { p = behind }) (omega arith)
            e
          ∙ e',
    )
top_fields host f (Fields.nested i inner g) k d zero u s h l deep enough = absurd (
    omega (
      arith,
      (head-IsByte (Head.sequence i) h.0).1,
      length-append (encode_head (Head.sequence i))
          (encode_fields inner ++ (end_mark ++ encode_fields g)),
    ))
top_fields host f (Fields.nested i inner g) zero d (suc fuel) u s h l deep enough =
    absurd (omega (arith, h.1))
top_fields host f (Fields.nested i inner g) (suc k) d (suc fuel) u s (hd, some_depth, inside, more)
      l deep enough =
    let behind = encode_fields g in
    let head = Head.sequence i in
    let held = encode_fields inner ++ end_mark in
    let all = encode_head head ++ (held ++ behind) in
    let bytes =
      All-append IsByte held behind
        (All-append IsByte (encode_fields inner) end_mark (fields-IsByte (d - 1) inner inside)
          end_mark-IsByte)
        (fields-IsByte d g more) in
    let one = (head-IsByte head hd).1 in
    let regroup = append_assoc (encode_fields inner) end_mark behind in
    let split : encode_head head ++ (encode_fields inner ++ (end_mark ++ behind)) ≡ all =
      ap (λ q. encode_head head ++ q) (sym regroup) in
    let size = length-append (encode_head head) (held ++ behind) in
    let size2 = length-append held behind in
    let at = free (begin_span all s) in
    let big = marks_of (begun head at) in
    let (m1, e1) =
      skip_levels-encode_fields host inner k (d - 1) behind (mark big at) inside (omega arith)
        (omega arith) (fields-IsByte d g more) in
    let (m, c, base, small, e') =
      top_fields host f g (suc k) d fuel (offered f head u) (mark m1 (begin_span all s)) more l deep
        (omega (arith, ap length split)) in
    let skipped =
      ap (λ q. skip_field host (skip_levels host (suc k)) (begun head (record at { p = q })))
        regroup
      ∙ deeper host (suc k) at big (encode_fields inner ++ (end_mark ++ behind)) (omega arith)
      ∙ e1 in
    (
      m,
      c,
      base,
      omega arith,
      ap
            (λ p.
              top_loop host (skip_levels host (suc k)) (watch f) (suc fuel)
                (u, record (free s) { p = p }))
            split
          ∙ top_step host (skip_levels host (suc k)) f fuel all u (free s)
              (offered f head u, record (free (mark m1 (begin_span all s))) { p = behind })
              (omega arith)
              (top_passed host (skip_levels host (suc k)) f head held behind m1 u s hd bytes
                skipped)
          ∙ e',
    )
