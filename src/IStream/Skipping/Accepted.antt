-- ===== src/IStream/Skipping/Accepted.antt =====
-- feed on a whole message that no handler takes.
use corelib_cpp.Common.{
  ℕ, ◌+◌, ◌-◌, ◌≤◌, ◌≡◌, refl, sym, ap, ◌∙◌, arith, true, false, if◌then◌else◌, none, some,
}
use corelib_cpp.Common.{List, [], ◌∷◌, ◌++◌, length, length-append}
use corelib_cpp.Word.{Endian}
use corelib_cpp.Wire.{Error, max_depth}
use corelib_cpp.OStream.Writes.Nested.{end_mark}
use corelib_cpp.IStream.{IStream, latch_terminal}
use corelib_cpp.IStream.Limits.{cap_cannot_fire}
use corelib_cpp.IStream.Header.Heads.{Head, encode_head}
use corelib_cpp.IStream.Dispatch.{skip_levels}
use corelib_cpp.IStream.Feed.{
  top_loop, parse_top_level, parse_window, feed_last, feed_with, feed, feed_verdict, stash,
}
use corelib_cpp.IStream.Skipping.{Fields, encode_fields, IsFields}
use corelib_cpp.IStream.Skipping.Trees.{still}
use corelib_cpp.IStream.Skipping.Whole.{head-IsByte}
use corelib_cpp.IStream.Skipping.Offered.{watch, offer_all}
use corelib_cpp.IStream.Skipping.Tops.{passed, top_fields}

-- A stream between two messages.
abbrev pub waiting : IStream → IStream
waiting s = record (still s) {
  limit_exceeded = false;
  arg_error = false;
  carry = [];
  suspend_depth = none;
  terminal = Error.no_error;
  seq_depth = 0;
}

-- The window of a whole message.
window_passed {ℓ} :
    {U : Type ℓ} (host : Endian) (f : ℕ → ℕ → ℕ → U → U) (g : Fields) (u : U) (s : IStream)
    → IsFields max_depth g
    → cap_cannot_fire (length (encode_fields g)) s ≡ true
    → (t : IStream) × (t.max_buffered ≡ s.max_buffered)
      × (t.span_carry ≤ s.span_carry)
      × (parse_window host (skip_levels host max_depth) (watch f) (encode_fields g) (u, waiting s)
          ≡ (offer_all f g u, record (waiting t) { p = [] }))
unfolding parse_window parse_top_level
window_passed {U = U} host f g u s h big =
    let p = encode_fields g in
    let at : IStream = record (waiting s) { span_base = some p } in
    let (m, c, base, small, e) =
      top_fields host f g max_depth max_depth (length p) u at h (omega arith) (omega arith)
        (omega arith) in
    let close : U × IStream → U × IStream = λ (u, t).
      let moved : ℕ = elim t.span_base [ none ↦ 0 | some base ↦ length base - length t.p ] in
      let carried = if t.incomplete then t.span_carry + moved else t.span_carry in
      (u, record t { span_carry = carried; replay = false }) in
    (
      passed m c base at,
      refl,
      small,
      ap
            (λ i. close (
              top_loop host (skip_levels host max_depth) (watch f) (length p)
                (u, record at { p = p; cap_inert = i })))
            big
          ∙ ap close e,
    )

fed {ℓ} :
    {U : Type ℓ} (host : Endian) (f : ℕ → ℕ → ℕ → U → U) (p : List ℕ) (u v : U) (s t : IStream)
    → (p ≡ [] → v ≡ u)
    → parse_window host (skip_levels host max_depth) (watch f) p (u, waiting s)
      ≡ (v, record (waiting t) { p = [] })
    → t.max_buffered ≡ s.max_buffered
    → t.span_carry ≤ s.span_carry
    → (t' : IStream) × (t'.max_buffered ≡ s.max_buffered)
      × (t'.span_carry ≤ s.span_carry)
      × (feed host (watch f) p (u, waiting s) ≡ ((v, waiting t'), Error.no_error))
unfolding feed feed_with feed_last stash feed_verdict
fed host f [] u v s t same e kept small =
    (s, refl, omega arith, ap (λ w. ((w, waiting s), Error.no_error)) (sym (same refl)))
fed {U = U} host f (b ∷ p) u v s t same e kept small =
    let settle : U × IStream → (U × IStream) × Error = λ (u, s).
      let w = stash s.p s in
      if s.error
      then (let l = latch_terminal s in ((u, l), l.terminal))
      else if w.error
      then (let l = latch_terminal w in ((u, l), l.terminal))
      else ((u, w), feed_verdict w) in
    (record t { p = [] }, kept, small, ap settle e)

nothing_offered {ℓ} :
    {U : Type ℓ} (f : ℕ → ℕ → ℕ → U → U) (d : ℕ) (g : Fields) (u : U)
    → IsFields d g
    → encode_fields g ≡ []
    → offer_all f g u ≡ u
unfolding encode_fields IsFields offer_all
nothing_offered f d Fields.nil u h e = refl
nothing_offered f d (Fields.plain h bs g) u k e = absurd (
    omega (
      arith,
      (head-IsByte h k.0).1,
      length-append (encode_head h) (bs ++ encode_fields g),
      ap length e,
    ))
nothing_offered f d (Fields.nested i inner g) u k e = absurd (
    omega (
      arith,
      (head-IsByte (Head.sequence i) k.0).1,
      ap length e,
      length-append (encode_head (Head.sequence i))
          (encode_fields inner ++ (end_mark ++ encode_fields g)),
    ))

-- A whole message, with what is kept of the receiver's limit.
pub feed_whole {ℓ} :
    {U : Type ℓ} (host : Endian) (f : ℕ → ℕ → ℕ → U → U) (g : Fields) (u : U) (s : IStream)
    → IsFields max_depth g
    → cap_cannot_fire (length (encode_fields g)) s ≡ true
    → (t : IStream) × (t.max_buffered ≡ s.max_buffered)
      × (t.span_carry ≤ s.span_carry)
      × (feed host (watch f) (encode_fields g) (u, waiting s)
          ≡ ((offer_all f g u, waiting t), Error.no_error))
feed_whole host f g u s h big =
    let (t, kept, small, e) = window_passed host f g u s h big in
    fed host f (encode_fields g) u (offer_all f g u) s t (nothing_offered f max_depth g u h) e kept
      small

-- On either kind of host: a message of fields in range, nested no deeper than is admitted, fed
-- whole to a stream that waits for one and whose receiver's limit cannot be reached. A handler
-- that takes no field is offered each field at the top level once and in order, with its id,
-- length and count; the answer is no_error, and the stream waits for the next message.
pub feed-encode_fields {ℓ} :
    {U : Type ℓ} (host : Endian) (f : ℕ → ℕ → ℕ → U → U) (g : Fields) (u : U) (s : IStream)
    → IsFields max_depth g
    → cap_cannot_fire (length (encode_fields g)) s ≡ true
    → (t : IStream) × (feed host (watch f) (encode_fields g) (u, waiting s)
        ≡ ((offer_all f g u, waiting t), Error.no_error))
feed-encode_fields host f g u s h big =
    let (t, kept, small, e) = feed_whole host f g u s h big in (t, e)
