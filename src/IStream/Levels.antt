-- ===== src/IStream/Levels.antt =====
-- IStreamImpl: where a field is suspended and resumed, skipPayload, skipSequence, and dispatchLevel with
-- its steps.
use corelib_cpp.Common.{
  ℕ, zero, suc, ◌+◌, ◌-◌, ◌*◌, Bool, true, false, not, ltb, leb, ◌==◌, ◌&&◌, ◌||◌, if◌then◌else◌,
  Option, none, some, List, [], length, drop,
}
use corelib_cpp.Word.{Endian}
use corelib_cpp.Wire.{Wire, Fix, max_depth}
use corelib_cpp.Varint.{Skip, skipped, skip_varint}
use corelib_cpp.IStream.{IStream, exceed_limit, spanned_live}
use corelib_cpp.IStream.Header.{parse_field_tag, parse_field_meta, is_sequence_end}
use corelib_cpp.IStream.Limits.{exceeds_buffer, reached, reject_element_index}
use corelib_cpp.IStream.Payload.{same_wire, same_fix}

-- What is handed a field: its id, length and count, with a state of its own beside the stream.
abbrev pub Handler {ℓ} : Type ℓ → Type ℓ
Handler U = ℕ → ℕ → ℕ → U × IStream → U × IStream

-- `suspendHere`: the innermost level records the field, an outer one its step of the path.
unfoldable pub suspend_here : ℕ → Bool → IStream → IStream
suspend_here id declined s = elim s.suspend_depth [
  | some depth ↦ record s { path = λ d. if d == s.seq_depth then (id, declined) else s.path d }
  | none ↦ record s {
    suspend_depth = some s.seq_depth;
    pend = record {
      active = true;
      field_id = id;
      type = s.type;
      fix = s.fix_type;
      len = s.fix_len;
      count = s.count;
      skip = declined;
    };
  }
]

unfoldable pub suspend_at_boundary : IStream → IStream
suspend_at_boundary s = elim s.suspend_depth [
  | some depth ↦ s
  | none ↦ record s {
    suspend_depth = some s.seq_depth;
    pend = record s.pend { active = false; skip = false };
  }
]

unfoldable pub restore_pending : IStream → IStream
restore_pending s = record s {
  field_id = s.pend.field_id;
  type = s.pend.type;
  fix_type = s.pend.fix;
  fix_len = s.pend.len;
  count = s.pend.count;
}

-- `from` is the list from that pointer on.
unfoldable pub discount_skipped : List ℕ → IStream → IStream
discount_skipped from s =
    if ltb (length s.p) (length from)
    then record s { span_skipped = s.span_skipped + (length from - length s.p) }
    else s

-- The elements of an integer array from index `i` on, `k` rounds.
unfoldable pub skip_elements : Endian → ℕ → ℕ → IStream → IStream
skip_elements host zero i s = record s { pend_done = 0 }
skip_elements host (suc k) i s = elim (skip_varint host s.p) [
  | skipped rest ↦ skip_elements host k (i + 1) (record s { p = rest })
  | Skip.overflow rest ↦ record s { p = rest; error = true }
  | Skip.cut ↦ record s { pend_done = i; incomplete = true }
]

-- A payload of `size` bytes.
unfoldable pub skip_bytes : ℕ → IStream → IStream
skip_bytes size s =
    let left = size - s.pend_done in
    let avail = length s.p in
    if ltb avail left
    then record s { p = []; pend_done = s.pend_done + avail; incomplete = true }
    else record s { p = drop left s.p; pend_done = 0 }

unfoldable pub skip_scalar : Endian → IStream → IStream
skip_scalar host s = elim (skip_varint host s.p) [
  | skipped rest ↦ record s { p = rest }
  | Skip.overflow rest ↦ record s { p = rest; error = true }
  | Skip.cut ↦ record s { incomplete = true }
]

-- The switch of `skipPayload`, given `skipSequence`.
unfoldable pub skip_field : Endian → (IStream → IStream) → IStream → IStream
unfolding skip_scalar skip_bytes skip_elements
skip_field host sequence s = elim s.type [
  | Wire.unsigned ↦ skip_scalar host s
  | Wire.signed ↦ skip_scalar host s
  | Wire.fixlen ↦ skip_bytes s.fix_len s
  | Wire.array_unsigned ↦ skip_elements host (s.count - s.pend_done) s.pend_done s
  | Wire.array_signed ↦ skip_elements host (s.count - s.pend_done) s.pend_done s
  | Wire.array_fixlen ↦ skip_bytes (s.count * s.fix_len) s
  | Wire.sequence_start ↦
      if leb max_depth s.seq_depth then record s { error = true } else sequence s
  | Wire.sequence_end ↦ s
]

pub data Entry : Type 0 where
  fresh descend resume : Entry

unfoldable pub level_entry : IStream → IStream × Entry
level_entry s = if not s.replay then (s, Entry.fresh) else elim s.suspend_depth [
  | none ↦ (record s { replay = false }, if s.pend.active then Entry.resume else Entry.fresh)
  | some depth ↦ if ltb s.seq_depth depth then (s, Entry.descend) else (
    record s { replay = false; suspend_depth = none },
    if s.pend.active then Entry.resume else Entry.fresh,
  )
]

pub data Field : Type 0 where
  ready skip_elem stop : Field

-- The test of an element's index behind its tag: it is admitted, skipped, refused, or refused once its
-- subtype is known.
pub data Admission : Type 0 where
  admitted passed refused later : Admission

unfoldable pub element_admission : IStream → Admission
element_admission s = elim s.elem.wire [
  | none ↦ Admission.admitted
  | some wire ↦
      if is_sequence_end s.type || not (reached s.elem.bound s.field_id)
      then Admission.admitted
      else if not (same_wire s.type wire)
      then Admission.passed
      else if not (same_wire s.type Wire.fixlen)
      then Admission.refused
      else Admission.later
]

-- A header that is cut leaves the pointer at its start.
unfoldable pub cut_header : List ℕ → IStream → IStream × Field
unfolding suspend_at_boundary
cut_header start s =
    if s.incomplete
    then (suspend_at_boundary (record s { p = start }), Field.stop)
    else (s, Field.stop)

unfoldable pub deliver_as : Field → IStream → IStream × Field
deliver_as f s = (record s { pend_done = 0; utf8_state = 0; consumed = false }, f)

abbrev pub other_fix : Option Fix → Fix → Bool
other_fix none fix = false
other_fix (some want) fix = not (same_fix fix want)

-- `beginField` behind the tag, `start` being where the field starts.
unfoldable pub begin_meta : Endian → List ℕ → Admission → IStream → IStream × Field
unfolding cut_header deliver_as reject_element_index
begin_meta host start a s =
    let (s', go) = parse_field_meta host s in
    if not go then cut_header start s' else elim a [
      | Admission.admitted ↦ deliver_as Field.ready s'
      | Admission.passed ↦ deliver_as Field.skip_elem s'
      | Admission.refused ↦ (reject_element_index s'.field_id s', Field.stop)
      | Admission.later ↦
          if other_fix s'.elem.fix s'.fix_type
          then deliver_as Field.skip_elem (record s' { skipped = s'.skipped + 1 })
          else (reject_element_index s'.field_id s', Field.stop)
    ]

unfoldable pub begin_tagged : Endian → Bool → List ℕ → IStream → IStream × Field
unfolding element_admission begin_meta
begin_tagged host stop_at_end start s =
    let a = element_admission s in
    let meta = λ (s : IStream).
      if is_sequence_end s.type
      then (if stop_at_end then s else record s { error = true }, Field.stop)
      else begin_meta host start a s in
    elim a [
      | Admission.admitted ↦ meta s
      | Admission.passed ↦ meta (record s { skipped = s.skipped + 1 })
      | Admission.refused ↦ (reject_element_index s.field_id s, Field.stop)
      | Admission.later ↦ meta s
    ]

abbrev pub has_base : IStream → Bool
has_base s = elim s.span_base [ none ↦ false | some base ↦ true ]

unfoldable pub begin_field : Endian → Bool → IStream → IStream × Field
unfolding exceed_limit exceeds_buffer spanned_live parse_field_tag begin_tagged
begin_field host stop_at_end s =
    if not s.cap_inert && has_base s && not s.span_skip && exceeds_buffer (spanned_live s) 0 s
    then (exceed_limit s, Field.stop)
    else let (s', go) = parse_field_tag host s in
      if not go then cut_header s.p s' else begin_tagged host stop_at_end s.p s'
