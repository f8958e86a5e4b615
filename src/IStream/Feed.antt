-- ===== src/IStream/Feed.antt =====
-- IStreamImpl::feed: windows of bytes, the carry between them, and the fields at the top level.
pub mod Latched
use corelib_cpp.Common.{
  ℕ, zero, suc, ◌+◌, ◌-◌, ◌*◌, Bool, true, false, not, ltb, ◌&&◌, ◌||◌, if◌then◌else◌, min, Option,
  none, some, List, [], ◌∷◌, ◌++◌, length, take, drop,
}
use corelib_cpp.Word.{Endian}
use corelib_cpp.Wire.{Error, Wire, varint_max_bytes, max_depth, schema_bounds_header}
use corelib_cpp.OStream.{is_ok}
use corelib_cpp.IStream.{IStream, at_boundary, exceed_limit, latch_terminal}
use corelib_cpp.IStream.Header.{parse_field_header}
use corelib_cpp.IStream.Limits.{cap_cannot_fire, exceeds_buffer_at_header}
use corelib_cpp.IStream.Levels.{
  Handler, Entry, suspend_here, suspend_at_boundary, level_entry, skip_field,
}
use corelib_cpp.IStream.Dispatch.{at_end, reenter_level, skip_levels}

abbrev pub carry_cap : ℕ
carry_cap = 3 * varint_max_bytes

-- Bytes behind what is consumed wait for the next call.
unfoldable pub stash : List ℕ → IStream → IStream
stash [] s = s
stash (b ∷ left) s =
    if ltb carry_cap (length (b ∷ left))
    then record s { error = true }
    else record s { carry = b ∷ left }

abbrev pub is_set : Option ℕ → Bool
is_set none = false
is_set (some d) = true

-- `spanBase_` once `end_` stands at `p_`.
abbrev pub up_to_here : IStream → Option (List ℕ)
up_to_here s = elim s.span_base [
  | none ↦ none
  | some base ↦ some (take (length base - length s.p) base)
]

abbrev pub is_nil : List ℕ → Bool
is_nil [] = true
is_nil (b ∷ left) = false

-- What `feed` answers behind its last window.
unfoldable pub feed_verdict : IStream → Error
feed_verdict s = if s.incomplete || not (is_nil s.carry) then Error.incomplete else Error.no_error

module _ {ℓ} {U : Type ℓ} (host : Endian) (sequence : IStream → IStream) (cb : Handler U) where
  -- A field that is over the receiver's limit, where the handler might have a bound of its own: it sees
  -- the header and no byte behind it.
  unfoldable pub top_withheld : U × IStream → (U × IStream) × Bool
  unfolding skip_field suspend_here exceed_limit
  top_withheld (u, s) =
      let hidden : IStream = record s { consumed = false; p = []; span_base = up_to_here s } in
      let (u', r) = cb s.field_id s.fix_len s.count (u, hidden) in
      let engaged = r.incomplete || r.consumed || r.error in
      let back : IStream = record r {
        p = s.p;
        span_base = s.span_base;
        incomplete = false;
        pend_done = 0;
      } in
      let clean : IStream = record back { error = false; arg_error = false } in
      if back.error && not back.arg_error
      then ((u', back), false)
      else if engaged
      then ((u', exceed_limit clean), false)
      else let t = skip_field host sequence clean in
        if t.error
        then ((u', t), false)
        else if t.incomplete
        then ((u', suspend_here s.field_id true t), false)
        else ((u', t), true)

  unfoldable pub top_deliver : U × IStream → (U × IStream) × Bool
  unfolding skip_field suspend_here
  top_deliver (u, s) =
      let (u', r) = cb s.field_id s.fix_len s.count (u, record s { consumed = false }) in
      let declined = not r.incomplete && not r.consumed in
      let t = if declined then skip_field host sequence (record r { p = s.p }) else r in
      if r.error
      then ((u', r), false)
      else if t.error
      then ((u', t), false)
      else if t.incomplete
      then ((u', suspend_here s.field_id declined t), false)
      else ((u', t), true)

  -- A round of the loop of `parseTopLevel`, and whether the next one is run.
  unfoldable pub top_field : U × IStream → (U × IStream) × Bool
  unfolding parse_field_header suspend_at_boundary exceeds_buffer_at_header exceed_limit
      top_withheld top_deliver
  top_field (u, s) =
      let start : IStream = record s {
        span_carry = 0;
        span_base = some s.p;
        span_skipped = 0;
        incomplete = false;
      } in
      let (s1, go) = parse_field_header host start in
      let s2 : IStream = record s1 { pend_done = 0; utf8_state = 0 } in
      if not go
      then (if s1.incomplete
          then ((u, suspend_at_boundary (record s1 { p = s.p })), false)
          else ((u, s1), false))
      else if not s2.cap_inert && exceeds_buffer_at_header s2
      then (if schema_bounds_header s2.type
          then top_withheld (u, s2)
          else ((u, exceed_limit s2), false))
      else top_deliver (u, s2)

  unfoldable pub top_loop : ℕ → U × IStream → U × IStream
  unfolding top_field
  top_loop zero st = st
  top_loop (suc fuel) st = elim (at_end st.1) [
    | true ↦ st
    | false ↦ let r = top_field st in elim r.1 [ true ↦ top_loop fuel r.0 | false ↦ r.0 ]
  ]

  -- Each round reads a byte at least, so the count of bytes is fuel enough.
  unfoldable pub parse_top_level : U × IStream → U × IStream
  unfolding level_entry reenter_level top_loop
  parse_top_level (u, s) =
      let (s1, entry) = level_entry s in
      elim entry [
        | Entry.fresh ↦ top_loop (length s1.p) (u, s1)
        | Entry.descend ↦
            let r = reenter_level host sequence cb Entry.descend (u, s1) in
            if r.1 then top_loop (length r.0.1.p) r.0 else r.0
        | Entry.resume ↦
            let r = reenter_level host sequence cb Entry.resume (u, s1) in
            if r.1 then top_loop (length r.0.1.p) r.0 else r.0
      ]

  -- The bytes of the window that were consumed are those that `p` no longer has.
  unfoldable pub parse_window : List ℕ → U × IStream → U × IStream
  unfolding cap_cannot_fire parse_top_level
  parse_window window (u, s) =
      let begun : IStream = record s {
        p = window;
        incomplete = false;
        replay = is_set s.suspend_depth;
        span_base = some window;
        cap_inert = cap_cannot_fire (length window) s;
      } in
      let (u', t) = parse_top_level (u, begun) in
      let moved : ℕ = elim t.span_base [ none ↦ 0 | some base ↦ length base - length t.p ] in
      let carried = if t.incomplete then t.span_carry + moved else t.span_carry in
      (u', record t { span_carry = carried; replay = false })

  unfoldable pub feed_last : List ℕ → U × IStream → (U × IStream) × Error
  unfolding parse_window latch_terminal stash feed_verdict
  feed_last cur st =
      let (u, s) = parse_window cur st in
      let t = stash s.p s in
      if s.error
      then (let l = latch_terminal s in ((u, l), l.terminal))
      else if t.error
      then (let l = latch_terminal t in ((u, l), l.terminal))
      else ((u, t), feed_verdict t)

  -- The window that joins the carry and the first bytes of the buffer.
  unfoldable pub feed_stitched : List ℕ → U × IStream → (U × IStream) × Error
  unfolding parse_window latch_terminal stash feed_verdict feed_last
  feed_stitched buffer (u, s) =
      let held = length s.carry in
      let n = min (carry_cap - held) (length buffer) in
      let window = s.carry ++ take n buffer in
      let (u', t) = parse_window window (u, record s { carry = [] }) in
      let used = length window - length t.p in
      let cur = drop (used - held) buffer in
      if t.error
      then (let l = latch_terminal t in ((u', l), l.terminal))
      else if ltb used held
      then (if ltb n (length buffer)
          then (let l = latch_terminal (record t { error = true }) in ((u', l), l.terminal))
          else ((u', record t { carry = t.p }), Error.incomplete))
      else if is_nil cur
      then (let w = stash t.p t in ((u', w), feed_verdict w))
      else feed_last cur (u', t)

  unfoldable pub feed_with : List ℕ → U × IStream → (U × IStream) × Error
  unfolding at_boundary feed_stitched feed_last
  feed_with buffer (u, s) =
      let clear : IStream = record s { error = false; limit_exceeded = false; arg_error = false } in
      if not (is_ok s.terminal)
      then ((u, s), s.terminal)
      else if is_nil buffer
      then ((u, s), if at_boundary s then Error.no_error else Error.incomplete)
      else if is_nil clear.carry
      then feed_last buffer (u, clear)
      else feed_stitched buffer (u, clear)

-- No more than `max_depth` sequences are open.
unfoldable pub feed {ℓ} :
    {U : Type ℓ} → Endian → Handler U → List ℕ → U × IStream → (U × IStream) × Error
unfolding feed_with
feed host cb buffer st = feed_with host (skip_levels host max_depth) cb buffer st
