-- ===== src/IStream/Window/Levels.antt =====
-- A whole level, entered fresh or resumed, and sequences skipped at any depth.
use mathlib.Core.Path.{subst}
use corelib_cpp.Common.{
  ℕ, zero, suc, ◌+◌, ◌≡◌, refl, sym, Bool, true, false, not, leb, ltb, ◌&&◌, if◌then◌else◌, Option,
  none, some,
}
use corelib_cpp.Common.{List, length, All}
use corelib_cpp.Common.Bytes.{IsByte}
use corelib_cpp.Word.{Endian}
use corelib_cpp.Wire.{max_depth}
use corelib_cpp.IStream.{IStream, no_limits}
use corelib_cpp.IStream.Levels.{
  Handler, Entry, suspend_here, suspend_at_boundary, restore_pending, discount_skipped, skip_field,
  level_entry,
}
use corelib_cpp.IStream.Dispatch.{
  again_at, close_level, settle_pending, deliver_pending, descend_resume, reenter_level,
  dispatch_loop, dispatch_rounds, dispatch_level, skip_sequence, skip_levels, no_handler,
}
use corelib_cpp.IStream.Window.{Behind, here, further, bytes_behind, either}
use corelib_cpp.IStream.Window.Steps.{Stays, skip_field-Stays, suspend_at_boundary_p}
use corelib_cpp.IStream.Window.Loops.{
  Keeps, no_handler-Keeps, suspended-Behind, discounted-Behind, dispatch_loop-Behind,
}

close_level-Behind :
    (q : List ℕ) (stop : Bool) (s : IStream) → Behind q s.p → Behind q (close_level stop s).p
unfolding close_level
close_level-Behind q stop s h =
    let at = record s { incomplete = true } in
    either (λ (t : IStream). Behind q t.p) (stop && not s.error && not s.incomplete)
      (suspend_at_boundary at) s (subst (Behind q) (sym (suspend_at_boundary_p at)) h) h

pub level_entry_p : (s : IStream) → (level_entry s).0.p ≡ s.p
unfolding level_entry
level_entry_p s = at s.replay s.suspend_depth s
  where
    at :
        (r : Bool) (d : Option ℕ) (s : IStream)
        → (level_entry (record s { replay = r; suspend_depth = d })).0.p ≡ s.p
    at false d s = refl
    at true none s = refl
    at true (some d) s =
        either (λ (r : IStream × Entry). r.0.p ≡ s.p) (ltb s.seq_depth d) _ _ refl refl

module _ {ℓ} {U : Type ℓ} where
  -- Where a call leaves the pointer.
  abbrev pub At : List ℕ → (U × IStream) × Bool → Type 0
  At q ((u, t), go) = Behind q t.p

  settle_pending-Behind :
      (q : List ℕ) (id : ℕ) (d : Bool) (u : U) (s : IStream)
      → Behind q s.p
      → At q (settle_pending id d (u, s))
  unfolding settle_pending
  settle_pending-Behind q id d u s h =
      either (At q) s.incomplete ((u, suspend_here id d s), false) _ (suspended-Behind q id d s h) h

  deliver_pending-Behind :
      (skip : IStream → IStream) (cb : Handler U) (declined : Bool) (u : U) (s : IStream)
      → Stays skip
      → Keeps cb
      → All IsByte s.p
      → At s.p (deliver_pending skip cb declined (u, s))
  unfolding deliver_pending
  deliver_pending-Behind skip cb declined u s stays keeps k = rest first (first_stays declined)
    where
      fresh : IStream
      fresh = record s { consumed = false }

      first : U × IStream
      first =
          if declined
          then (u, discount_skipped s.p (skip fresh))
          else cb s.field_id s.fix_len s.count (u, fresh)

      first_stays :
          (b : Bool)
          → Behind s.p
              (if b
                then (u, discount_skipped s.p (skip fresh))
                else cb s.field_id s.fix_len s.count (u, fresh)).1.p
      first_stays true = discounted-Behind s.p s.p (skip fresh) (stays fresh k)
      first_stays false = keeps s.field_id s.fix_len s.count u fresh k

      rest :
          (z : U × IStream)
          → Behind s.p z.1.p
          → At s.p (
              let again = not z.1.incomplete && not z.1.consumed && not declined in
              if z.1.error
              then (z, false)
              else if again
              then (let second : U × IStream = (z.0, discount_skipped s.p (skip z.1)) in
                  if second.1.error then (second, false) else settle_pending s.field_id true second)
              else settle_pending s.field_id declined z)
      rest (v, t) h =
          let w = discount_skipped s.p (skip t) in
          let twice =
            discounted-Behind s.p s.p (skip t)
              (further s.p t.p (skip t).p h (stays t (bytes_behind s.p t.p h k))) in
          either (At s.p) t.error ((v, t), false) _ h
            (either (At s.p) (not t.incomplete && not t.consumed && not declined)
              (if w.error then ((v, w), false) else settle_pending s.field_id true (v, w)) _
              (either (At s.p) w.error ((v, w), false) _ twice
                (settle_pending-Behind s.p s.field_id true v w twice))
              (settle_pending-Behind s.p s.field_id declined v t h))

  descend_resume-Behind :
      (sequence : IStream → IStream) (cb : Handler U) (u : U) (s : IStream)
      → Stays sequence
      → Keeps cb
      → All IsByte s.p
      → At s.p (descend_resume sequence cb (u, s))
  unfolding descend_resume
  descend_resume-Behind sequence cb u s stays keeps k =
      next (s.path s.seq_depth).0 (s.path s.seq_depth).1
    where
      tail :
          (id : ℕ) (declined : Bool) (z : U × IStream)
          → Behind s.p z.1.p
          → At s.p (
              if z.1.error
              then ((z.0, z.1), false)
              else if z.1.incomplete
              then ((z.0, suspend_here id declined z.1), false)
              else ((z.0, z.1), true))
      tail id declined (v, t) h =
          either (At s.p) t.error ((v, t), false) _ h
            (either (At s.p) t.incomplete ((v, suspend_here id declined t), false) _
              (suspended-Behind s.p id declined t h) h)

      next :
          (id : ℕ) (declined : Bool)
          → At s.p (
              let at = again_at id s in
              if declined && leb max_depth s.seq_depth
              then ((u, record at { error = true }), false)
              else let z : U × IStream =
                  if declined
                  then (u, discount_skipped s.p (sequence at))
                  else cb id 0 0 (u, record at { consumed = false }) in
                if z.1.error
                then ((z.0, z.1), false)
                else if z.1.incomplete
                then ((z.0, suspend_here id declined z.1), false)
                else ((z.0, z.1), true))
      next id true =
          let at = again_at id s in
          either (At s.p) (leb max_depth s.seq_depth) ((u, record at { error = true }), false) _
            (here s.p)
            (tail id true (u, discount_skipped s.p (sequence at))
              (discounted-Behind s.p s.p (sequence at) (stays at k)))
      next id false =
          let at = again_at id s in
          tail id false (cb id 0 0 (u, record at { consumed = false }))
            (keeps id 0 0 u (record at { consumed = false }) k)

  module _ (host : Endian) (sequence : IStream → IStream) (cb : Handler U) where
    pub reenter_level-Behind :
        (e : Entry) (u : U) (s : IStream)
        → Stays sequence
        → Keeps cb
        → All IsByte s.p
        → At s.p (reenter_level host sequence cb e (u, s))
    unfolding reenter_level restore_pending
    reenter_level-Behind Entry.descend u s stays keeps k =
        descend_resume-Behind sequence cb u s stays keeps k
    reenter_level-Behind Entry.fresh u s stays keeps k =
        deliver_pending-Behind (skip_field host sequence) cb s.pend.skip u (restore_pending s)
          (skip_field-Stays host sequence stays) keeps k
    reenter_level-Behind Entry.resume u s stays keeps k =
        deliver_pending-Behind (skip_field host sequence) cb s.pend.skip u (restore_pending s)
          (skip_field-Stays host sequence stays) keeps k

    dispatch_rounds-Behind :
        (stop : Bool) (u : U) (s : IStream)
        → Stays sequence
        → Keeps cb
        → All IsByte s.p
        → Behind s.p (dispatch_rounds host sequence cb stop (u, s)).1.p
    unfolding dispatch_rounds
    dispatch_rounds-Behind stop u s stays keeps k =
        closed (dispatch_loop host sequence cb (length s.p) stop (u, s))
          (dispatch_loop-Behind host sequence cb (length s.p) stop u s stays keeps k)
      where
        closed :
            (r : (U × IStream) × Bool)
            → At s.p r
            → Behind s.p (if r.1 then (r.0.0, close_level stop r.0.1) else r.0).1.p
        closed ((v, t), true) h = close_level-Behind s.p stop t h
        closed ((v, t), false) h = h

    -- dispatchLevel, entered in any way, leaves a back part of the bytes, if the handler and the skipping
    -- of sequences do.
    pub dispatch_level-Behind :
        (stop : Bool) (u : U) (s : IStream)
        → Stays sequence
        → Keeps cb
        → All IsByte s.p
        → Behind s.p (dispatch_level host sequence cb stop (u, s)).1.p
    unfolding dispatch_level
    dispatch_level-Behind stop u s stays keeps k = by_entry (level_entry s) (level_entry_p s)
      where
        then_rounds :
            (t : IStream) (r : (U × IStream) × Bool)
            → All IsByte t.p
            → At t.p r
            → Behind t.p (if r.1 then dispatch_rounds host sequence cb stop r.0 else r.0).1.p
        then_rounds t ((v, w), true) c h =
            further t.p w.p (dispatch_rounds host sequence cb stop (v, w)).1.p h
              (dispatch_rounds-Behind stop v w stays keeps (bytes_behind t.p w.p h c))
        then_rounds t ((v, w), false) c h = h

        by_entry :
            (z : IStream × Entry)
            → z.0.p ≡ s.p
            → Behind s.p
                (elim z.1 as (λ x. U × IStream) [
                  | Entry.fresh ↦ dispatch_rounds host sequence cb stop (u, z.0)
                  | Entry.descend ↦
                      let r = reenter_level host sequence cb Entry.descend (u, z.0) in
                      if r.1 then dispatch_rounds host sequence cb stop r.0 else r.0
                  | Entry.resume ↦
                      let r = reenter_level host sequence cb Entry.resume (u, z.0) in
                      if r.1 then dispatch_rounds host sequence cb stop r.0 else r.0
                ]).1.p
        by_entry (t, Entry.fresh) e =
            subst (λ q. Behind q (dispatch_rounds host sequence cb stop (u, t)).1.p) e
              (dispatch_rounds-Behind stop u t stays keeps (subst (All IsByte) (sym e) k))
        by_entry (t, Entry.descend) e =
            let c = subst (All IsByte) (sym e) k in
            let r = reenter_level host sequence cb Entry.descend (u, t) in
            subst
              (λ q. Behind q (if r.1 then dispatch_rounds host sequence cb stop r.0 else r.0).1.p) e
              (then_rounds t r c (reenter_level-Behind Entry.descend u t stays keeps c))
        by_entry (t, Entry.resume) e =
            let c = subst (All IsByte) (sym e) k in
            let r = reenter_level host sequence cb Entry.resume (u, t) in
            subst
              (λ q. Behind q (if r.1 then dispatch_rounds host sequence cb stop r.0 else r.0).1.p) e
              (then_rounds t r c (reenter_level-Behind Entry.resume u t stays keeps c))

pub skip_sequence-Stays :
    (host : Endian) (inner : IStream → IStream) → Stays inner → Stays (skip_sequence host inner)
unfolding skip_sequence
skip_sequence-Stays host inner stays s k =
    dispatch_level-Behind host inner no_handler true tt
      (record s { elem = no_limits; span_skip = true; seq_depth = s.seq_depth + 1 }) stays
      no_handler-Keeps k

pub skip_levels-Stays : (host : Endian) (levels : ℕ) → Stays (skip_levels host levels)
unfolding skip_levels
skip_levels-Stays host zero s k = here s.p
skip_levels-Stays host (suc levels) s k =
    skip_sequence-Stays host (skip_levels host levels) (skip_levels-Stays host levels) s k
