-- ===== src/IStream/Window/Loops.antt =====
-- The loop of dispatchLevel: each round reads a byte at least.
use mathlib.Core.Path.{subst}
use corelib_cpp.Common.{
  ℕ, zero, suc, ◌≤◌, ◌<◌, ◌≡◌, refl, sym, arith, Bool, true, false, not, ◌&&◌, if◌then◌else◌,
}
use corelib_cpp.Common.{List, [], ◌∷◌, length, All}
use corelib_cpp.Common.Bytes.{IsByte}
use corelib_cpp.Word.{Endian}
use corelib_cpp.IStream.{IStream}
use corelib_cpp.IStream.Levels.{
  Handler, Field, suspend_here, discount_skipped, skip_field, begin_field,
}
use corelib_cpp.IStream.Dispatch.{at_end, finish_field, dispatch_field, dispatch_loop, no_handler}
use corelib_cpp.IStream.Window.{Behind, here, further, bytes_behind, no_longer, either}
use corelib_cpp.IStream.Window.Steps.{Stays, skip_field-Stays, suspend_here_p, discount_skipped_p}
use corelib_cpp.IStream.Window.Rounds.{Begun, begin_field-Begun}

-- A handler that leaves a back part of the bytes.
abbrev pub Keeps {ℓ} : {U : Type ℓ} → Handler U → Type ℓ
Keeps {U = U} cb =
    (id size count : ℕ) (u : U) (s : IStream)
    → All IsByte s.p
    → Behind s.p (cb id size count (u, s)).1.p

pub no_handler-Keeps : Keeps no_handler
no_handler-Keeps id size count u s k = here s.p

pub suspended-Behind :
    (q : List ℕ) (id : ℕ) (d : Bool) (s : IStream) → Behind q s.p → Behind q (suspend_here id d s).p
suspended-Behind q id d s h = subst (Behind q) (sym (suspend_here_p id d s)) h

pub discounted-Behind :
    (q from : List ℕ) (s : IStream) → Behind q s.p → Behind q (discount_skipped from s).p
discounted-Behind q from s h = subst (Behind q) (sym (discount_skipped_p from s)) h

finish_field-Behind :
    (skip : IStream → IStream) (start q : List ℕ) (id : ℕ) (s : IStream)
    → Stays skip
    → All IsByte q
    → Behind q s.p
    → Behind q (finish_field skip start q id s).0.p
unfolding finish_field
finish_field-Behind skip start q id s stays k h =
    let away = discount_skipped start (skip (record s { p = q })) in
    tail (if declined then away else s) (
      either (λ (t : IStream). Behind q t.p) declined away s
        (discounted-Behind q start (skip (record s { p = q })) (stays (record s { p = q }) k)) h)
  where
    declined : Bool
    declined = not s.incomplete && not s.consumed

    tail :
        (t : IStream)
        → Behind q t.p
        → Behind q
            (let r : IStream × Bool =
                if t.incomplete then (suspend_here id declined t, false) else (t, true) in
              r).0.p
    tail t b =
        either (λ (r : IStream × Bool). Behind q r.0.p) t.incomplete _ _
          (suspended-Behind q id declined t b) b

module _ {ℓ} {U : Type ℓ} (host : Endian) (sequence : IStream → IStream) (cb : Handler U) where
  -- A round leaves the pointer behind its bytes, and nearer to the end where the loop goes on.
  abbrev pub Rest : List ℕ → (U × IStream) × Bool → Type 0
  Rest p ((u, t), go) = Behind p t.p × (go ≡ true → length t.p < length p)

  pub dispatch_field-Rest :
      (stop : Bool) (u : U) (s : IStream)
      → Stays sequence
      → Keeps cb
      → All IsByte s.p
      → Rest s.p (dispatch_field host sequence cb stop (u, s))
  unfolding dispatch_field
  dispatch_field-Rest stop u s inner keeps k =
      next (begin_field host stop s) (begin_field-Begun host stop s k)
    where
      settled :
          (t z : IStream)
          → Behind s.p t.p
          → length t.p < length s.p
          → Behind t.p z.p
          → (start : List ℕ)
          → Behind s.p (finish_field (skip_field host sequence) start t.p t.field_id z).0.p
            × (length (finish_field (skip_field host sequence) start t.p t.field_id z).0.p
                < length s.p)
      settled t z h l b start =
          let after =
            finish_field-Behind (skip_field host sequence) start t.p t.field_id z
              (skip_field-Stays host sequence inner) (bytes_behind s.p t.p h k) b in
          let end = (finish_field (skip_field host sequence) start t.p t.field_id z).0 in
          (further s.p t.p end.p h after, omega (arith, no_longer t.p end.p after))

      next :
          (r : IStream × Field)
          → Begun s.p r
          → Rest s.p (
              let finish : U × IStream → (U × IStream) × Bool = λ st.
                let z = finish_field (skip_field host sequence) s.p r.0.p r.0.field_id st.1 in
                ((st.0, z.0), z.1) in
              elim r.1 as (λ x. (U × IStream) × Bool) [
                | Field.stop ↦ ((u, r.0), false)
                | Field.ready ↦ finish (cb r.0.field_id r.0.fix_len r.0.count (u, r.0))
                | Field.skip_elem ↦ finish (u, r.0)
              ])
      next (t, Field.stop) h = (h, λ c. cc)
      next (t, Field.ready) (h, l) =
          let z = (cb t.field_id t.fix_len t.count (u, t)).1 in
          let (b, m) =
            settled t z h l (keeps t.field_id t.fix_len t.count u t (bytes_behind s.p t.p h k))
              s.p in
          (b, λ c. m)
      next (t, Field.skip_elem) (h, l) = let (b, m) = settled t t h l (here t.p) s.p in (b, λ c. m)

  pub dispatch_loop-Behind :
      (fuel : ℕ) (stop : Bool) (u : U) (s : IStream)
      → Stays sequence
      → Keeps cb
      → All IsByte s.p
      → Behind s.p (dispatch_loop host sequence cb fuel stop (u, s)).0.1.p
  unfolding dispatch_loop
  dispatch_loop-Behind zero stop u s inner keeps k = here s.p
  dispatch_loop-Behind (suc fuel) stop u s inner keeps k =
      next (not (at_end s) && not s.error && not s.incomplete)
        (dispatch_field host sequence cb stop (u, s)) (dispatch_field-Rest stop u s inner keeps k)
        (λ v t b. dispatch_loop-Behind fuel stop v t inner keeps b)
    where
      next :
          (g : Bool) (r : (U × IStream) × Bool)
          → Rest s.p r
          → ((v : U) (t : IStream)
              → All IsByte t.p
              → Behind t.p (dispatch_loop host sequence cb fuel stop (v, t)).0.1.p)
          → Behind s.p
              (elim g as (λ x. (U × IStream) × Bool) [
                | false ↦ ((u, s), true)
                | true ↦ elim r.1 as (λ x. (U × IStream) × Bool) [
                  | true ↦ dispatch_loop host sequence cb fuel stop r.0
                  | false ↦ r
                ]
              ]).0.1.p
      next false r h f = here s.p
      next true ((v, t), false) (h, l) f = h
      next true ((v, t), true) (h, l) f =
          further s.p t.p (dispatch_loop host sequence cb fuel stop (v, t)).0.1.p h
            (f v t (bytes_behind s.p t.p h k))

  -- At the end of the window there is no round.
  no_round :
      (fuel : ℕ) (stop : Bool) (u : U) (p : List ℕ) (s : IStream)
      → length p ≤ 0
      → dispatch_loop host sequence cb fuel stop (u, record s { p = p })
        ≡ ((u, record s { p = p }), true)
  unfolding dispatch_loop
  no_round zero stop u p s h = refl
  no_round (suc fuel) stop u [] s h = refl
  no_round (suc fuel) stop u (b ∷ p) s h = absurd (omega arith)

  rounds-agree :
      (a b : ℕ) (stop : Bool) (u : U) (s : IStream)
      → Stays sequence
      → Keeps cb
      → All IsByte s.p
      → length s.p ≤ a
      → length s.p ≤ b
      → dispatch_loop host sequence cb a stop (u, s) ≡ dispatch_loop host sequence cb b stop (u, s)
  unfolding dispatch_loop
  rounds-agree zero b stop u s inner keeps k ha hb = sym (no_round b stop u s.p s ha)
  rounds-agree (suc a) zero stop u s inner keeps k ha hb = no_round (suc a) stop u s.p s hb
  rounds-agree (suc a) (suc b) stop u s inner keeps k ha hb =
      next (not (at_end s) && not s.error && not s.incomplete)
        (dispatch_field host sequence cb stop (u, s)) (dispatch_field-Rest stop u s inner keeps k)
        (λ v t c l. rounds-agree a b stop v t inner keeps c (omega arith) (omega arith))
    where
      next :
          (g : Bool) (r : (U × IStream) × Bool)
          → Rest s.p r
          → ((v : U) (t : IStream)
              → All IsByte t.p
              → length t.p < length s.p
              → dispatch_loop host sequence cb a stop (v, t)
                ≡ dispatch_loop host sequence cb b stop (v, t))
          → (elim g as (λ x. (U × IStream) × Bool) [
            | false ↦ ((u, s), true)
            | true ↦ elim r.1 as (λ x. (U × IStream) × Bool) [
              | true ↦ dispatch_loop host sequence cb a stop r.0
              | false ↦ r
            ]
          ])
            ≡ (elim g as (λ x. (U × IStream) × Bool) [
              | false ↦ ((u, s), true)
              | true ↦ elim r.1 as (λ x. (U × IStream) × Bool) [
                | true ↦ dispatch_loop host sequence cb b stop r.0
                | false ↦ r
              ]
            ])
      next false r h f = refl
      next true ((v, t), false) h f = refl
      next true ((v, t), true) (h, l) f = f v t (bytes_behind s.p t.p h k) (l refl)

  -- The loop of dispatchLevel needs no more rounds than there are bytes: on any bytes, with a
  -- handler and a skipping of sequences that leave a back part of the bytes, more rounds than there
  -- are bytes leave its result as it is.
  pub dispatch_loop-length :
      (fuel : ℕ) (stop : Bool) (u : U) (s : IStream)
      → Stays sequence
      → Keeps cb
      → All IsByte s.p
      → length s.p ≤ fuel
      → dispatch_loop host sequence cb fuel stop (u, s)
        ≡ dispatch_loop host sequence cb (length s.p) stop (u, s)
  dispatch_loop-length fuel stop u s inner keeps k enough =
      rounds-agree fuel (length s.p) stop u s inner keeps k enough (omega arith)
