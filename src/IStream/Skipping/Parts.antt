-- ===== src/IStream/Skipping/Parts.antt =====
-- feed, of a message that arrives in several parts.
use corelib_cpp.Common.{ℕ, ◌+◌, ◌^◌, ◌≤◌, ◌<◌, ◌≡◌, refl, sym, ap, ◌∙◌, arith, true, false}
use corelib_cpp.Common.{List, [], ◌∷◌, ◌++◌, append_assoc, length, length-append, All, map}
use corelib_cpp.Word.{Endian}
use corelib_cpp.Wire.{Error, max_depth}
use corelib_cpp.OStream.{is_ok}
use corelib_cpp.OStream.Writes.Nested.{end_mark}
use corelib_cpp.IStream.{IStream}
use corelib_cpp.IStream.Limits.{cap_cannot_fire, cap_need_max}
use corelib_cpp.IStream.Header.Heads.{Head, encode_head}
use corelib_cpp.IStream.Levels.{Handler}
use corelib_cpp.IStream.Feed.{feed}
use corelib_cpp.IStream.Skipping.{Fields, encode_fields, IsFields}
use corelib_cpp.IStream.Skipping.Offered.{watch, offered, offer_all}
use corelib_cpp.IStream.Skipping.Accepted.{waiting, feed_whole}

-- A feed of each chunk, while the answer is no_error.
unfoldable pub feed_each {ℓ} :
    {U : Type ℓ} → Endian → Handler U → List (List ℕ) → U × IStream → (U × IStream) × Error
unfolding feed
feed_each host cb [] st = (st, Error.no_error)
feed_each host cb (chunk ∷ chunks) st =
    let r = feed host cb chunk st in
    elim (is_ok r.1) [ true ↦ feed_each host cb chunks r.0 | false ↦ r ]

abbrev pub joined : List (List ℕ) → List ℕ
joined [] = []
joined (chunk ∷ chunks) = chunk ++ joined chunks

-- Fields in front of others, and the fields of all parts.
unfoldable pub before : Fields → Fields → Fields
before Fields.nil g = g
before (Fields.plain h bs f) g = Fields.plain h bs (before f g)
before (Fields.nested i inner f) g = Fields.nested i inner (before f g)

unfoldable pub all_parts : List Fields → Fields
unfolding before
all_parts [] = Fields.nil
all_parts (f ∷ fs) = before f (all_parts fs)

before-encode_fields :
    (f g : Fields) → encode_fields (before f g) ≡ encode_fields f ++ encode_fields g
unfolding before encode_fields
before-encode_fields Fields.nil g = refl
before-encode_fields (Fields.plain h bs f) g =
    ap (λ q. encode_head h ++ (bs ++ q)) (before-encode_fields f g)
    ∙ ap (λ q. encode_head h ++ q) (sym (append_assoc bs (encode_fields f) (encode_fields g)))
    ∙ sym (append_assoc (encode_head h) (bs ++ encode_fields f) (encode_fields g))
before-encode_fields (Fields.nested i inner f) g =
    let head = encode_head (Head.sequence i) in
    let within = encode_fields inner in
    ap (λ q. head ++ (within ++ (end_mark ++ q))) (before-encode_fields f g)
    ∙ ap (λ q. head ++ (within ++ q))
        (sym (append_assoc end_mark (encode_fields f) (encode_fields g)))
    ∙ ap (λ q. head ++ q)
        (sym (append_assoc within (end_mark ++ encode_fields f) (encode_fields g)))
    ∙ sym (append_assoc head (within ++ (end_mark ++ encode_fields f)) (encode_fields g))

before-IsFields : (d : ℕ) (f g : Fields) → IsFields d f → IsFields d g → IsFields d (before f g)
unfolding before IsFields
before-IsFields d Fields.nil g h k = k
before-IsFields d (Fields.plain head bs f) g (a, b, h) k = (a, b, before-IsFields d f g h k)
before-IsFields d (Fields.nested i inner f) g (a, b, c, h) k = (a, b, c, before-IsFields d f g h k)

before-offer_all {ℓ} :
    {U : Type ℓ} (f : ℕ → ℕ → ℕ → U → U) (g h : Fields) (u : U)
    → offer_all f (before g h) u ≡ offer_all f h (offer_all f g u)
unfolding before offer_all
before-offer_all f Fields.nil h u = refl
before-offer_all f (Fields.plain head bs g) h u = before-offer_all f g h (offered f head u)
before-offer_all f (Fields.nested i inner g) h u =
    before-offer_all f g h (offered f (Head.sequence i) u)

all_parts-IsFields : (d : ℕ) (gs : List Fields) → All (IsFields d) gs → IsFields d (all_parts gs)
unfolding all_parts IsFields
all_parts-IsFields d [] h = tt
all_parts-IsFields d (g ∷ gs) h =
    before-IsFields d g (all_parts gs) h.0 (all_parts-IsFields d gs h.1)

all_parts-encode_fields :
    (gs : List Fields) → encode_fields (all_parts gs) ≡ joined (map encode_fields gs)
unfolding all_parts encode_fields
all_parts-encode_fields [] = refl
all_parts-encode_fields (g ∷ gs) =
    before-encode_fields g (all_parts gs)
    ∙ ap (λ q. encode_fields g ++ q) (all_parts-encode_fields gs)

-- The receiver's limit leaves room for any field behind `n` more bytes.
abbrev pub Roomy : ℕ → IStream → Type 0
Roomy n s = (s.span_carry + n + cap_need_max ≤ s.max_buffered) × (s.max_buffered < 2 ^ 64)

roomy_lem : (n : ℕ) (s : IStream) → Roomy n s → cap_cannot_fire n s ≡ true
unfolding cap_cannot_fire
roomy_lem n s h = ground arith

each_part {ℓ} :
    {U : Type ℓ} (host : Endian) (f : ℕ → ℕ → ℕ → U → U) (gs : List Fields) (u : U) (s : IStream)
    → All (IsFields max_depth) gs
    → Roomy (length (joined (map encode_fields gs))) s
    → (t : IStream) × (feed_each host (watch f) (map encode_fields gs) (u, waiting s)
        ≡ ((offer_all f (all_parts gs) u, waiting t), Error.no_error))
unfolding feed_each all_parts offer_all
each_part host f [] u s h room = (s, refl)
each_part {U = U} host f (g ∷ gs) u s h room =
    let size = length-append (encode_fields g) (joined (map encode_fields gs)) in
    let (t, kept, small, e) =
      feed_whole host f g u s h.0
        (roomy_lem (length (encode_fields g)) s (omega arith, omega arith)) in
    let (t', e') = each_part host f gs (offer_all f g u) t h.1 (omega arith, omega arith) in
    let next : (U × IStream) × Error → (U × IStream) × Error = λ r. elim (is_ok r.1) [
      | true ↦ feed_each host (watch f) (map encode_fields gs) r.0
      | false ↦ r
    ] in
    (
      t',
      ap next e
          ∙ e'
          ∙ ap (λ v. ((v, waiting t'), Error.no_error))
              (sym (before-offer_all f g (all_parts gs) u)),
    )

-- On either kind of host: a message of fields in range, nested no deeper than is admitted, cut at
-- fields of its top level into any number of parts, on a stream that waits for a message and
-- whose receiver's limit leaves room for any field. Fed part by part or as a whole, it offers a
-- handler that takes no field the same, each field once and in order; every answer is no_error,
-- and the stream waits for the next message.
pub feed_each-joined {ℓ} :
    {U : Type ℓ} (host : Endian) (f : ℕ → ℕ → ℕ → U → U) (gs : List Fields) (u : U) (s : IStream)
    → All (IsFields max_depth) gs
    → Roomy (length (joined (map encode_fields gs))) s
    → (v : U) × (t : IStream) × (t' : IStream) × (v ≡ offer_all f (all_parts gs) u)
      × (feed_each host (watch f) (map encode_fields gs) (u, waiting s)
          ≡ ((v, waiting t), Error.no_error))
      × (feed host (watch f) (joined (map encode_fields gs)) (u, waiting s)
          ≡ ((v, waiting t'), Error.no_error))
feed_each-joined host f gs u s h room =
    let (t, e) = each_part host f gs u s h room in
    let whole = joined (map encode_fields gs) in
    let same = all_parts-encode_fields gs in
    let (t', kept, small, e') =
      feed_whole host f (all_parts gs) u s (all_parts-IsFields max_depth gs h)
        (ap (λ q. cap_cannot_fire (length q) s) same ∙ roomy_lem (length whole) s room) in
    (
      offer_all f (all_parts gs) u,
      t,
      t',
      refl,
      e,
      ap (λ q. feed host (watch f) q (u, waiting s)) (sym same) ∙ e',
    )
