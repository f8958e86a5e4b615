-- ===== src/IStream/Feed/Latched.antt =====
-- IStreamImpl::feed and latchTerminal: an error is the answer to every later feed.
use corelib_cpp.Common.{
  ℕ, ◌-◌, ◌≡◌, refl, sym, ap, ◌∙◌, Bool, true, false, not, ltb, ◌||◌, if◌then◌else◌, min, ◌⊎◌, inl,
  inr,
}
use corelib_cpp.Common.{List, [], ◌++◌, length, take, drop}
use corelib_cpp.Word.{Endian}
use corelib_cpp.Wire.{Error, max_depth}
use corelib_cpp.OStream.{is_ok}
use corelib_cpp.IStream.{IStream, at_boundary, latch_terminal}
use corelib_cpp.IStream.Levels.{Handler}
use corelib_cpp.IStream.Dispatch.{skip_levels}
use corelib_cpp.IStream.Feed.{
  carry_cap, is_nil, stash, feed_verdict, parse_window, feed_last, feed_stitched, feed_with, feed,
}
use corelib_cpp.IStream.Window.{either}

-- The answers behind which a stream may be fed again.
abbrev pub goes_on : Error → Bool
goes_on Error.no_error = true
goes_on Error.incomplete = true
goes_on _ = false

module _ {ℓ} {U : Type ℓ} where
  -- A stream may be fed again, or it has its error latched.
  abbrev Ends : (U × IStream) × Error → Type 0
  Ends ((u, s), e) = (goes_on e ≡ true) ⊎ ((s.terminal ≡ e) × (is_ok e ≡ false))

  latched : (u : U) (s : IStream) → Ends ((u, latch_terminal s), (latch_terminal s).terminal)
  unfolding latch_terminal
  latched u s = inr (
    refl,
    either (λ e. is_ok e ≡ false) s.limit_exceeded Error.limit_exceeded _ refl
        (either (λ e. is_ok e ≡ false) s.arg_error Error.invalid_argument Error.invalid_message refl
          refl),
  )

  verdict : (u : U) (s : IStream) → Ends ((u, s), feed_verdict s)
  unfolding feed_verdict
  verdict u s = inl (
      either (λ e. goes_on e ≡ true) (s.incomplete || not (is_nil s.carry)) Error.incomplete
        Error.no_error refl refl)

  module _ (host : Endian) (sequence : IStream → IStream) (cb : Handler U) where
    feed_last-Ends : (cur : List ℕ) (st : U × IStream) → Ends (feed_last host sequence cb cur st)
    unfolding feed_last
    feed_last-Ends cur st = next (parse_window host sequence cb cur st)
      where
        next :
            (z : U × IStream)
            → Ends (
                let t = stash z.1.p z.1 in
                if z.1.error
                then (let l = latch_terminal z.1 in ((z.0, l), l.terminal))
                else if t.error
                then (let l = latch_terminal t in ((z.0, l), l.terminal))
                else ((z.0, t), feed_verdict t))
        next (u, s) =
            let t = stash s.p s in
            let l = latch_terminal s in
            let m = latch_terminal t in
            either Ends s.error ((u, l), l.terminal) _ (latched u s)
              (either Ends t.error ((u, m), m.terminal) _ (latched u t) (verdict u t))

    feed_stitched-Ends :
        (buffer : List ℕ) (u : U) (s : IStream)
        → Ends (feed_stitched host sequence cb buffer (u, s))
    unfolding feed_stitched
    feed_stitched-Ends buffer u s = next (
        parse_window host sequence cb
          (s.carry ++ take (min (carry_cap - length s.carry) (length buffer)) buffer)
          (u, record s { carry = [] }))
      where
        next :
            (z : U × IStream)
            → Ends (
                let held = length s.carry in
                let n = min (carry_cap - held) (length buffer) in
                let window = s.carry ++ take n buffer in
                let used = length window - length z.1.p in
                let cur = drop (used - held) buffer in
                if z.1.error
                then (let l = latch_terminal z.1 in ((z.0, l), l.terminal))
                else if ltb used held
                then (if ltb n (length buffer)
                    then (let l = latch_terminal (record z.1 { error = true }) in
                        ((z.0, l), l.terminal))
                    else ((z.0, record z.1 { carry = z.1.p }), Error.incomplete))
                else if is_nil cur
                then (let w = stash z.1.p z.1 in ((z.0, w), feed_verdict w))
                else feed_last host sequence cb cur (z.0, z.1))
        next (v, t) =
            let held = length s.carry in
            let n = min (carry_cap - held) (length buffer) in
            let window = s.carry ++ take n buffer in
            let used = length window - length t.p in
            let cur = drop (used - held) buffer in
            let l = latch_terminal t in
            let m = latch_terminal (record t { error = true }) in
            let w = stash t.p t in
            let more = feed_last host sequence cb cur (v, t) in
            let kept : (U × IStream) × Error = ((v, record t { carry = t.p }), Error.incomplete) in
            let over : (U × IStream) × Error = ((v, m), m.terminal) in
            either Ends t.error ((v, l), l.terminal) _ (latched v t)
              (either Ends (ltb used held) (if ltb n (length buffer) then over else kept) _
                (either Ends (ltb n (length buffer)) over kept
                  (latched v (record t { error = true })) (inl refl))
                (either Ends (is_nil cur) ((v, w), feed_verdict w) more (verdict v w)
                  (feed_last-Ends cur (v, t))))

    feed_with-Ends :
        (buffer : List ℕ) (u : U) (s : IStream) → Ends (feed_with host sequence cb buffer (u, s))
    unfolding feed_with
    feed_with-Ends buffer u s = by_terminal (is_ok s.terminal) refl
      where
        clear : IStream
        clear = record s { error = false; limit_exceeded = false; arg_error = false }

        by_terminal :
            (ok : Bool)
            → is_ok s.terminal ≡ ok
            → Ends (
                if not ok
                then ((u, s), s.terminal)
                else if is_nil buffer
                then ((u, s), if at_boundary s then Error.no_error else Error.incomplete)
                else if is_nil s.carry
                then feed_last host sequence cb buffer (u, clear)
                else feed_stitched host sequence cb buffer (u, clear))
        by_terminal false h = inr (refl, h)
        by_terminal true h =
            let first = feed_last host sequence cb buffer (u, clear) in
            let joined = feed_stitched host sequence cb buffer (u, clear) in
            either Ends (is_nil buffer)
              ((u, s), if at_boundary s then Error.no_error else Error.incomplete) _
              (inl (
                either (λ e. goes_on e ≡ true) (at_boundary s) Error.no_error Error.incomplete refl
                  refl))
              (either Ends (is_nil s.carry) first joined (feed_last-Ends buffer (u, clear))
                (feed_stitched-Ends buffer u clear))

  refused :
      (host : Endian) (cb : Handler U) (more : List ℕ) (u : U) (s : IStream)
      → is_ok s.terminal ≡ false
      → feed host cb more (u, s) ≡ ((u, s), s.terminal)
  unfolding feed feed_with
  refused host cb more u s h = rw (h) refl

-- Where a feed of any bytes to any handler answers anything but no_error and incomplete, every
-- later feed, of any bytes and to any handler, answers the same error and leaves the stream and
-- the handler's state as they are.
pub feed-feed {ℓ} :
    {U : Type ℓ} (host : Endian) (cb after : Handler U) (buffer more : List ℕ) (u : U) (s : IStream)
    → goes_on (feed host cb buffer (u, s)).1 ≡ false
    → (let r = feed host cb buffer (u, s) in feed host after more r.0 ≡ r)
unfolding feed
feed-feed {U = U} host cb after buffer more u s h =
    next (feed host cb buffer (u, s))
      (feed_with-Ends host (skip_levels host max_depth) cb buffer u s) h
  where
    next : (r : (U × IStream) × Error) → Ends r → goes_on r.1 ≡ false → feed host after more r.0 ≡ r
    next ((v, t), e) (inl on) off = let clash : false ≡ true = sym off ∙ on in cc
    next ((v, t), e) (inr (same, bad)) off =
        refused host after more v t (ap is_ok same ∙ bad) ∙ ap (λ x. ((v, t), x)) same
