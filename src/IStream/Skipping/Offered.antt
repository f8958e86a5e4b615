-- ===== src/IStream/Skipping/Offered.antt =====
-- A handler that takes no field, and what it is offered.
use corelib_cpp.Common.{ℕ, ◌≡◌, refl, true, some}
use corelib_cpp.Common.{List}
use corelib_cpp.IStream.{IStream}
use corelib_cpp.IStream.Header.Heads.{Head, headed}
use corelib_cpp.OStream.Fields.{float_size}
use corelib_cpp.IStream.Levels.{Handler}
use corelib_cpp.IStream.Skipping.{Fields}
use corelib_cpp.IStream.Skipping.Trees.{mark, marks_of, still}

-- A stream at the top level whose receiver's limit cannot be reached.
abbrev pub free : IStream → IStream
free s = record (still s) { cap_inert = true }

-- The start of a field at the top level.
abbrev pub begin_span : List ℕ → IStream → IStream
begin_span p s = record s { span_carry = 0; span_base = some p; span_skipped = 0 }

pub headed-mark :
    (h : Head) (s : IStream) (p : List ℕ)
    → headed h (record s { p = p }) ≡ record (mark (marks_of (headed h s)) s) { p = p }
headed-mark (Head.unsigned i) s p = refl
headed-mark (Head.signed i) s p = refl
headed-mark (Head.sequence i) s p = refl
headed-mark (Head.sized i f n) s p = refl
headed-mark (Head.counted i b n) s p = refl
headed-mark (Head.floats i f n) s p = refl

-- A handler that takes no field, and notes each that it is offered.
abbrev pub watch {ℓ} : {U : Type ℓ} → (ℕ → ℕ → ℕ → U → U) → Handler U
watch f id size count (u, s) = (f id size count u, s)

-- What is offered of a field.
unfoldable pub offered {ℓ} : {U : Type ℓ} → (ℕ → ℕ → ℕ → U → U) → Head → U → U
offered f (Head.unsigned i) u = f i 0 0 u
offered f (Head.signed i) u = f i 0 0 u
offered f (Head.sequence i) u = f i 0 0 u
offered f (Head.sized i ft n) u = f i n 0 u
offered f (Head.counted i b n) u = f i 0 n u
offered f (Head.floats i x n) u = f i (float_size x) n u

-- The fields at the top level, in order.
unfoldable pub offer_all {ℓ} : {U : Type ℓ} → (ℕ → ℕ → ℕ → U → U) → Fields → U → U
unfolding offered
offer_all f Fields.nil u = u
offer_all f (Fields.plain h bs rest) u = offer_all f rest (offered f h u)
offer_all f (Fields.nested i inner rest) u = offer_all f rest (offered f (Head.sequence i) u)

pub offered_lem {ℓ} :
    {U : Type ℓ} (f : ℕ → ℕ → ℕ → U → U) (h : Head) (u : U) (s : IStream)
    → (let m = marks_of (headed h s) in f m.field_id m.fix_len m.count u) ≡ offered f h u
unfolding offered
offered_lem f (Head.unsigned i) u s = refl
offered_lem f (Head.signed i) u s = refl
offered_lem f (Head.sequence i) u s = refl
offered_lem f (Head.sized i ft n) u s = refl
offered_lem f (Head.counted i b n) u s = refl
offered_lem f (Head.floats i x n) u s = refl
