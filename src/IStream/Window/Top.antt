-- ===== src/IStream/Window/Top.antt =====
-- A round of parseTopLevel leaves a back part of its bytes, and a shorter one where the loop goes on.
use mathlib.Core.Path.{subst}
use corelib_cpp.Common.{
  ℕ, ◌<◌, refl, sym, arith, Bool, true, false, not, ◌&&◌, ◌||◌, if◌then◌else◌, some,
}
use corelib_cpp.Common.{List, [], length, All}
use corelib_cpp.Common.Bytes.{IsByte}
use corelib_cpp.Word.{Endian}
use corelib_cpp.Wire.{schema_bounds_header}
use corelib_cpp.IStream.{IStream, exceed_limit}
use corelib_cpp.IStream.Header.{parse_field_header}
use corelib_cpp.IStream.Limits.{exceeds_buffer_at_header}
use corelib_cpp.IStream.Levels.{Handler, suspend_here, suspend_at_boundary, skip_field}
use corelib_cpp.IStream.Feed.{up_to_here, top_withheld, top_deliver, top_field}
use corelib_cpp.IStream.Window.{Behind, here, further, bytes_behind, no_longer, either}
use corelib_cpp.IStream.Window.Steps.{
  Stays, Ahead, parse_field_header-Ahead, skip_field-Stays, suspend_at_boundary_p,
}
use corelib_cpp.IStream.Window.Loops.{Keeps, Rest, suspended-Behind}
use corelib_cpp.IStream.Window.Levels.{At}

module _ {ℓ} {U : Type ℓ} (host : Endian) (sequence : IStream → IStream) (cb : Handler U) where
  -- The end of both ways to hand a field over.
  settled-Behind :
      (q : List ℕ) (id : ℕ) (d : Bool) (u : U) (t : IStream)
      → Behind q t.p
      → At q (
          if t.error
          then ((u, t), false)
          else if t.incomplete
          then ((u, suspend_here id d t), false)
          else ((u, t), true))
  settled-Behind q id d u t h =
      either (At q) t.error ((u, t), false) _ h
        (either (At q) t.incomplete ((u, suspend_here id d t), false) _
          (suspended-Behind q id d t h) h)

  top_withheld-Behind :
      (u : U) (s : IStream)
      → Stays sequence
      → All IsByte s.p
      → At s.p (top_withheld host sequence cb (u, s))
  unfolding top_withheld
  top_withheld-Behind u s stays k = next (
      cb s.field_id s.fix_len s.count
        (u, record s { consumed = false; p = []; span_base = up_to_here s }))
    where
      next :
          (z : U × IStream)
          → At s.p (
              let engaged = z.1.incomplete || z.1.consumed || z.1.error in
              let back : IStream = record z.1 {
                p = s.p;
                span_base = s.span_base;
                incomplete = false;
                pend_done = 0;
              } in
              let clean : IStream = record back { error = false; arg_error = false } in
              if back.error && not back.arg_error
              then ((z.0, back), false)
              else if engaged
              then ((z.0, exceed_limit clean), false)
              else let t = skip_field host sequence clean in
                if t.error
                then ((z.0, t), false)
                else if t.incomplete
                then ((z.0, suspend_here s.field_id true t), false)
                else ((z.0, t), true))
      next (v, r) =
          let back : IStream = record r {
            p = s.p;
            span_base = s.span_base;
            incomplete = false;
            pend_done = 0;
          } in
          let clean : IStream = record back { error = false; arg_error = false } in
          either (At s.p) (r.error && not r.arg_error) ((v, back), false) _ (here s.p)
            (either (At s.p) (r.incomplete || r.consumed || r.error)
              ((v, exceed_limit clean), false) _ (here s.p)
              (settled-Behind s.p s.field_id true v (skip_field host sequence clean)
                (skip_field-Stays host sequence stays clean k)))

  top_deliver-Behind :
      (u : U) (s : IStream)
      → Stays sequence
      → Keeps cb
      → All IsByte s.p
      → At s.p (top_deliver host sequence cb (u, s))
  unfolding top_deliver
  top_deliver-Behind u s stays keeps k =
      let fresh : IStream = record s { consumed = false } in
      next (cb s.field_id s.fix_len s.count (u, fresh))
        (keeps s.field_id s.fix_len s.count u fresh k)
    where
      next :
          (z : U × IStream)
          → Behind s.p z.1.p
          → At s.p (
              let declined = not z.1.incomplete && not z.1.consumed in
              let t = if declined then skip_field host sequence (record z.1 { p = s.p }) else z.1 in
              if z.1.error
              then ((z.0, z.1), false)
              else if t.error
              then ((z.0, t), false)
              else if t.incomplete
              then ((z.0, suspend_here s.field_id declined t), false)
              else ((z.0, t), true))
      next (v, r) h =
          let declined = not r.incomplete && not r.consumed in
          let passed = skip_field host sequence (record r { p = s.p }) in
          let t = if declined then passed else r in
          either (At s.p) r.error ((v, r), false) _ h
            (settled-Behind s.p s.field_id declined v t (
              either (λ (z : IStream). Behind s.p z.p) declined passed r
                (skip_field-Stays host sequence stays (record r { p = s.p }) k) h))

  nearer :
      (p q : List ℕ) (r : (U × IStream) × Bool)
      → Behind p q
      → length q < length p
      → At q r
      → Rest host sequence cb p r
  nearer p q ((v, t), go) h l b = (further p q t.p h b, λ c. omega (arith, no_longer q t.p b))

  pub top_field-Rest :
      (u : U) (s : IStream)
      → Stays sequence
      → Keeps cb
      → All IsByte s.p
      → Rest host sequence cb s.p (top_field host sequence cb (u, s))
  unfolding top_field
  top_field-Rest u s stays keeps k =
      let start : IStream = record s {
        span_carry = 0;
        span_base = some s.p;
        span_skipped = 0;
        incomplete = false;
      } in
      next (parse_field_header host start) (parse_field_header-Ahead host start k)
    where
      next :
          (r : IStream × Bool)
          → Ahead s.p r
          → Rest host sequence cb s.p (
              let s2 : IStream = record r.0 { pend_done = 0; utf8_state = 0 } in
              if not r.1
              then (if r.0.incomplete
                  then ((u, suspend_at_boundary (record r.0 { p = s.p })), false)
                  else ((u, r.0), false))
              else if not s2.cap_inert && exceeds_buffer_at_header s2
              then (if schema_bounds_header s2.type
                  then top_withheld host sequence cb (u, s2)
                  else ((u, exceed_limit s2), false))
              else top_deliver host sequence cb (u, s2))
      next (t, false) (h, l) =
          let back = suspend_at_boundary (record t { p = s.p }) in
          either (Rest host sequence cb s.p) t.incomplete ((u, back), false) _
            (
              subst (Behind s.p) (sym (suspend_at_boundary_p (record t { p = s.p }))) (here s.p),
              λ c. cc,
            )
            (h, λ c. cc)
      next (t, true) (h, l) =
          let s2 : IStream = record t { pend_done = 0; utf8_state = 0 } in
          let c = bytes_behind s.p t.p h k in
          let shorter = l refl in
          either (Rest host sequence cb s.p) (not s2.cap_inert && exceeds_buffer_at_header s2)
            (if schema_bounds_header s2.type
              then top_withheld host sequence cb (u, s2)
              else ((u, exceed_limit s2), false))
            _
            (either (Rest host sequence cb s.p) (schema_bounds_header s2.type)
              (top_withheld host sequence cb (u, s2)) _
              (nearer s.p t.p (top_withheld host sequence cb (u, s2)) h shorter
                (top_withheld-Behind u s2 stays c))
              (h, λ x. shorter))
            (nearer s.p t.p (top_deliver host sequence cb (u, s2)) h shorter
              (top_deliver-Behind u s2 stays keeps c))
