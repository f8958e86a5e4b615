-- ===== src/IStream/Limits.antt =====
-- The receiver's limits: capCannotFire, exceedsBuffer and exceedsBufferAtHeader of IStreamImpl, the
-- bounds of wrapper arrays, rejectElementIndex and detail::seqIndexAdmitted.
pub mod Buffered
pub mod Elements
use corelib_cpp.Common.{
  ℕ, ◌+◌, ◌-◌, ◌*◌, ◌^◌, ◌%◌, Bool, true, false, ltb, leb, ◌||◌, if◌then◌else◌, Option, none, some,
}
use corelib_cpp.Word.{u64}
use corelib_cpp.Wire.{Wire, fixlen_max, array_max}
use corelib_cpp.IStream.{
  IStream, ElemLimits, spanned, invalidate, exceed_limit, reject_destination, reject_unbounded,
}

abbrev pub cap_need_max : ℕ
cap_need_max = array_max * fixlen_max

unfoldable pub cap_cannot_fire : ℕ → IStream → Bool
cap_cannot_fire n s =
    let reach = u64 (s.span_carry + n) in
    if ltb reach n || ltb s.max_buffered reach
    then false
    else leb cap_need_max (s.max_buffered - reach)

unfoldable pub exceeds_buffer : ℕ → ℕ → IStream → Bool
exceeds_buffer consumed need s =
    if ltb s.max_buffered consumed then true else ltb (s.max_buffered - consumed) need

-- The bytes that a payload takes at least.
abbrev pub payload_need : Wire → IStream → ℕ
payload_need Wire.fixlen s = s.fix_len
payload_need Wire.array_fixlen s = s.count * s.fix_len
payload_need Wire.array_unsigned s = s.count
payload_need Wire.array_signed s = s.count
payload_need _ s = 0

unfoldable pub exceeds_buffer_at_header : IStream → Bool
unfolding exceeds_buffer spanned
exceeds_buffer_at_header s = exceeds_buffer (spanned s) (payload_need s.type s) s

-- A bound that is set and does not admit the index.
abbrev pub reached : Option ℕ → ℕ → Bool
reached none i = false
reached (some b) i = leb b i

unfoldable pub reject_element_index : ℕ → IStream → IStream
unfolding invalidate exceed_limit reject_destination
reject_element_index bad s =
    if reached s.elem.schema bad
    then invalidate s
    else if reached s.elem.dyn bad
    then exceed_limit s
    else reject_destination s

-- `if (b >= 0 && (elemBound_ < 0 || b < elemBound_)) elemBound_ = b;`
abbrev pub lower_bound : Option ℕ → Option ℕ → Option ℕ
lower_bound bound none = bound
lower_bound none (some b) = some b
lower_bound (some old) (some b) = if ltb b old then some b else some old

-- What `read` of a message arms for a collector with these three bounds.
abbrev pub dyn_unless : Option ℕ → Option ℕ → Option ℕ
dyn_unless none dyn = dyn
dyn_unless (some cap) dyn = none

unfoldable pub arm_elem : Option ℕ → Option ℕ → Option ℕ → ElemLimits → ElemLimits
arm_elem cap dyn dest e = record e {
  schema = cap;
  dyn = dyn_unless cap dyn;
  dest = dest;
  bound = lower_bound (lower_bound (lower_bound none cap) (dyn_unless cap dyn)) dest;
}

-- The part of `seqIndexAdmitted` behind the schema and the receiver.
abbrev pub dest_admits : Option ℕ → ℕ → IStream → IStream × Bool
dest_admits dest i s = if reached dest i then (reject_destination s, false) else (s, true)

unfoldable pub seq_index_admitted : ℕ → Option ℕ → Option ℕ → Option ℕ → IStream → IStream × Bool
unfolding invalidate exceed_limit reject_destination reject_unbounded
seq_index_admitted i none none none s = (reject_unbounded s, false)
seq_index_admitted i (some cap) dyn dest s =
    if leb cap i then (invalidate s, false) else dest_admits dest i s
seq_index_admitted i none (some dyn) dest s =
    if leb dyn i then (exceed_limit s, false) else dest_admits dest i s
seq_index_admitted i none none (some dest) s = dest_admits (some dest) i s
