-- ===== src/IStream/Dispatch.antt =====
-- IStreamImpl::dispatchLevel: the fields of one level, handed over, skipped, suspended and resumed; and
-- skipPayload and skipSequence, which run it with an empty handler.
use corelib_cpp.Common.{
  ℕ, zero, suc, ◌+◌, ◌-◌, Bool, true, false, not, leb, ◌&&◌, if◌then◌else◌, List, [], ◌∷◌, length,
}
use corelib_cpp.Word.{Endian}
use corelib_cpp.Wire.{Wire, max_depth}
use corelib_cpp.IStream.{IStream, no_limits}
use corelib_cpp.IStream.Levels.{
  Handler, Entry, Field, suspend_here, suspend_at_boundary, restore_pending, discount_skipped,
  level_entry, begin_field, skip_field,
}

-- `finishField`, of a field that starts at `start` and has its payload at `payload`.
unfoldable pub finish_field : (IStream → IStream) → List ℕ → List ℕ → ℕ → IStream → IStream × Bool
unfolding discount_skipped suspend_here
finish_field skip start payload id s =
    let declined = not s.incomplete && not s.consumed in
    let s' = if declined then discount_skipped start (skip (record s { p = payload })) else s in
    if s'.incomplete then (suspend_here id declined s', false) else (s', true)

unfoldable pub close_level : Bool → IStream → IStream
unfolding suspend_at_boundary
close_level stop_at_end s =
    if stop_at_end && not s.error && not s.incomplete
    then suspend_at_boundary (record s { incomplete = true })
    else s

abbrev pub at_end : IStream → Bool
at_end s = elim s.p [ [] ↦ true | b ∷ p ↦ false ]

-- The header of the sequence that is entered again.
abbrev pub again_at : ℕ → IStream → IStream
again_at id s = record s { field_id = id; type = Wire.sequence_start; fix_len = 0; count = 0 }

module _ {ℓ} {U : Type ℓ} where
  -- The end of `deliverPending`, `declined` telling whether the field was skipped.
  unfoldable pub settle_pending : ℕ → Bool → U × IStream → (U × IStream) × Bool
  unfolding suspend_here
  settle_pending id declined (u, s) =
      if s.incomplete then ((u, suspend_here id declined s), false) else (
        (u, record s { pend = record s.pend { active = false; skip = false }; pend_done = 0 }),
        true,
      )

  unfoldable pub deliver_pending :
      (IStream → IStream) → Handler U → Bool → U × IStream → (U × IStream) × Bool
  unfolding discount_skipped settle_pending
  deliver_pending skip cb declined (u, s) =
      let fresh = record s { consumed = false } in
      let first : U × IStream =
        if declined
        then (u, discount_skipped s.p (skip fresh))
        else cb s.field_id s.fix_len s.count (u, fresh) in
      let again = not first.1.incomplete && not first.1.consumed && not declined in
      if first.1.error
      then (first, false)
      else if again
      then (let second : U × IStream = (first.0, discount_skipped s.p (skip first.1)) in
          if second.1.error then (second, false) else settle_pending s.field_id true second)
      else settle_pending s.field_id declined first

  unfoldable pub descend_resume :
      (IStream → IStream) → Handler U → U × IStream → (U × IStream) × Bool
  unfolding discount_skipped suspend_here
  descend_resume sequence cb (u, s) =
      let (id, declined) = s.path s.seq_depth in
      let at = again_at id s in
      if declined && leb max_depth s.seq_depth
      then ((u, record at { error = true }), false)
      else let (u', s') =
          if declined
          then (u, discount_skipped s.p (sequence at))
          else cb id 0 0 (u, record at { consumed = false }) in
        if s'.error
        then ((u', s'), false)
        else if s'.incomplete
        then ((u', suspend_here id declined s'), false)
        else ((u', s'), true)

  module _ (host : Endian) (sequence : IStream → IStream) (cb : Handler U) where
    unfoldable pub reenter_level : Entry → U × IStream → (U × IStream) × Bool
    unfolding descend_resume deliver_pending restore_pending skip_field
    reenter_level Entry.descend st = descend_resume sequence cb st
    reenter_level _ (u, s) =
        deliver_pending (skip_field host sequence) cb s.pend.skip (u, restore_pending s)

    -- A round of the loop of `dispatchLevel`, and whether the next one is run.
    unfoldable pub dispatch_field : Bool → U × IStream → (U × IStream) × Bool
    unfolding begin_field finish_field skip_field
    dispatch_field stop_at_end (u, s) =
        let (s1, field) = begin_field host stop_at_end s in
        let finish : U × IStream → (U × IStream) × Bool = λ st.
          let r = finish_field (skip_field host sequence) s.p s1.p s1.field_id st.1 in
          ((st.0, r.0), r.1) in
        elim field [
          | Field.stop ↦ ((u, s1), false)
          | Field.ready ↦ finish (cb s1.field_id s1.fix_len s1.count (u, s1))
          | Field.skip_elem ↦ finish (u, s1)
        ]

    -- The loop, and whether it ran until its test failed.
    unfoldable pub dispatch_loop : ℕ → Bool → U × IStream → (U × IStream) × Bool
    unfolding dispatch_field
    dispatch_loop zero stop_at_end st = (st, true)
    dispatch_loop (suc fuel) stop_at_end st =
        elim (not (at_end st.1) && not st.1.error && not st.1.incomplete) [
          | false ↦ (st, true)
          | true ↦
              let r = dispatch_field stop_at_end st in
              elim r.1 [ true ↦ dispatch_loop fuel stop_at_end r.0 | false ↦ r ]
        ]

    -- Each round reads a byte at least, so the count of bytes is fuel enough.
    unfoldable pub dispatch_rounds : Bool → U × IStream → U × IStream
    unfolding dispatch_loop close_level
    dispatch_rounds stop_at_end st =
        let r = dispatch_loop (length st.1.p) stop_at_end st in
        if r.1 then (r.0.0, close_level stop_at_end r.0.1) else r.0

    unfoldable pub dispatch_level : Bool → U × IStream → U × IStream
    unfolding dispatch_rounds reenter_level level_entry
    dispatch_level stop_at_end (u, s) =
        let (s1, entry) = level_entry s in
        elim entry [
          | Entry.fresh ↦ dispatch_rounds stop_at_end (u, s1)
          | Entry.descend ↦
              let r = reenter_level Entry.descend (u, s1) in
              if r.1 then dispatch_rounds stop_at_end r.0 else r.0
          | Entry.resume ↦
              let r = reenter_level Entry.resume (u, s1) in
              if r.1 then dispatch_rounds stop_at_end r.0 else r.0
        ]

-- The handler that takes no field.
abbrev pub no_handler : Handler (Unit {0})
no_handler id size count st = st

-- `skipSequence`, given how a sequence inside is skipped.
unfoldable pub skip_sequence : Endian → (IStream → IStream) → IStream → IStream
unfolding dispatch_level
skip_sequence host inner s =
    let opened = record s { elem = no_limits; span_skip = true; seq_depth = s.seq_depth + 1 } in
    let r = (dispatch_level host inner no_handler true (tt, opened)).1 in
    record r { seq_depth = r.seq_depth - 1; elem = s.elem; span_skip = s.span_skip }

-- Sequences nested up to `levels` deep.
unfoldable pub skip_levels : Endian → ℕ → IStream → IStream
unfolding skip_sequence
skip_levels host zero s = s
skip_levels host (suc levels) s = skip_sequence host (skip_levels host levels) s

-- No more than `max_depth` sequences are open, so as many levels are enough.
unfoldable pub skip_payload : Endian → IStream → IStream
unfolding skip_field skip_levels
skip_payload host s = skip_field host (skip_levels host max_depth) s
