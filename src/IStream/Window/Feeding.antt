-- ===== src/IStream/Window/Feeding.antt =====
-- The loop of parseTopLevel runs to an end.
use mathlib.Core.Path.{subst}
use corelib_cpp.Common.{
  ℕ, zero, suc, lt_or_ge, inl, inr, ◌≤◌, ◌≡◌, refl, sym, arith, Bool, true, false,
}
use corelib_cpp.Common.{List, [], ◌∷◌, length, All}
use corelib_cpp.Common.Bytes.{IsByte}
use corelib_cpp.Word.{Endian}
use corelib_cpp.IStream.{IStream}
use corelib_cpp.IStream.Levels.{Handler}
use corelib_cpp.IStream.Dispatch.{skip_levels}
use corelib_cpp.IStream.Feed.{top_field, top_loop}
use corelib_cpp.IStream.Window.{bytes_behind}
use corelib_cpp.IStream.Window.Steps.{Stays}
use corelib_cpp.IStream.Window.Loops.{Keeps, Rest}
use corelib_cpp.IStream.Window.Levels.{skip_levels-Stays}
use corelib_cpp.IStream.Window.Top.{top_field-Rest}

module _ {ℓ} {U : Type ℓ} (host : Endian) (sequence : IStream → IStream) (cb : Handler U) where
  no_round :
      (fuel : ℕ) (u : U) (p : List ℕ) (s : IStream)
      → length p ≤ 0
      → top_loop host sequence cb fuel (u, record s { p = p }) ≡ (u, record s { p = p })
  unfolding top_loop
  no_round zero u p s h = refl
  no_round (suc fuel) u [] s h = refl
  no_round (suc fuel) u (b ∷ p) s h = absurd (omega arith)

  -- `while (p_ < end)`: a run of the loop that ends, with the count of its rounds. It ends where its test
  -- fails, or in a round that returns.
  pub data Run : ℕ → U × IStream → U × IStream → Type ℓ where
    tested : (u : U) (s : IStream) → length s.p ≤ 0 → Run 0 (u, s) (u, s)
    returned :
        (u : U) (s : IStream) (st : U × IStream)
        → 1 ≤ length s.p
        → top_field host sequence cb (u, s) ≡ (st, false)
        → Run 1 (u, s) st
    continued :
        (u : U) (s : IStream) (st end : U × IStream) (n : ℕ)
        → 1 ≤ length s.p
        → top_field host sequence cb (u, s) ≡ (st, true)
        → Run n st end
        → Run (suc n) (u, s) end

  -- A run of at most `b` rounds.
  abbrev pub Ended : ℕ → U × IStream → U × IStream → Type ℓ
  Ended b st end = (n : ℕ) × (n ≤ b) × Run n st end

  round-Ended :
      (b : ℕ) (u : U) (s : IStream) (go : U × IStream → U × IStream) (r : (U × IStream) × Bool)
      → 1 ≤ length s.p
      → length s.p ≤ suc b
      → top_field host sequence cb (u, s) ≡ r
      → All IsByte s.p
      → Rest host sequence cb s.p r
      → ((v : U) (t : IStream)
          → All IsByte t.p
          → length t.p ≤ b
          → Ended (length t.p) (v, t) (go (v, t)))
      → Ended (length s.p) (u, s) (elim r.1 as (λ x. U × IStream) [ true ↦ go r.0 | false ↦ r.0 ])
  round-Ended b u s go ((v, t), false) some_left room e k (h, l) f =
      (1, some_left, Run.returned u s (v, t) some_left e)
  round-Ended b u s go ((v, t), true) some_left room e k (h, l) f =
      let shorter = l refl in
      let (n, few, run) = f v t (bytes_behind s.p t.p h k) (omega arith) in
      (suc n, omega arith, Run.continued u s (v, t) (go (v, t)) n some_left e run)

  one_round :
      (fuel : ℕ) (u : U) (p : List ℕ) (s : IStream)
      → 1 ≤ length p
      → top_loop host sequence cb (suc fuel) (u, record s { p = p }) ≡ (
          let r = top_field host sequence cb (u, record s { p = p }) in
          elim r.1 as (λ x. U × IStream) [
            | true ↦ top_loop host sequence cb fuel r.0
            | false ↦ r.0
          ])
  unfolding top_loop
  one_round fuel u [] s h = absurd (omega arith)
  one_round fuel u (b ∷ p) s h = refl

  not_begun :
      (fuel : ℕ) (u : U) (s : IStream)
      → length s.p ≤ 0
      → Ended (length s.p) (u, s) (top_loop host sequence cb fuel (u, s))
  not_begun fuel u s none_left =
      subst (λ st. Ended (length s.p) (u, s) st) (sym (no_round fuel u s.p s none_left))
        (0, omega arith, Run.tested u s none_left)

  loop-Ended :
      (fuel : ℕ) (u : U) (s : IStream)
      → Stays sequence
      → Keeps cb
      → All IsByte s.p
      → length s.p ≤ fuel
      → Ended (length s.p) (u, s) (top_loop host sequence cb fuel (u, s))
  loop-Ended zero u s stays keeps k enough = not_begun zero u s enough
  loop-Ended (suc fuel) u s stays keeps k enough = elim (lt_or_ge 0 (length s.p)) [
    | inl some_left ↦
        subst (λ st. Ended (length s.p) (u, s) st) (sym (one_round fuel u s.p s some_left))
          (round-Ended fuel u s (top_loop host sequence cb fuel) (top_field host sequence cb (u, s))
            some_left enough refl k (top_field-Rest host sequence cb u s stays keeps k)
            (λ v t c l. loop-Ended fuel v t stays keeps c l))
    | inr none_left ↦ not_begun (suc fuel) u s none_left
  ]

-- The loop of parseTopLevel ends: on any bytes, with sequences nested to any depth and a handler
-- that leaves a back part of the bytes, there is a run of its rounds, of which there are no more
-- than bytes, that ends where the test of the loop fails or in a round that returns; and with as
-- much fuel as there are bytes, or more, the loop gives what that run ends with.
pub top_loop-Run {ℓ} :
    {U : Type ℓ} (host : Endian) (levels fuel : ℕ) (cb : Handler U) (u : U) (s : IStream)
    → Keeps cb
    → All IsByte s.p
    → length s.p ≤ fuel
    → (n : ℕ) × (n ≤ length s.p)
      × Run host
          (skip_levels host levels)
          cb
          n
          (u, s)
          (top_loop host (skip_levels host levels) cb fuel (u, s))
top_loop-Run host levels fuel cb u s keeps k enough =
    loop-Ended host (skip_levels host levels) cb fuel u s (skip_levels-Stays host levels) keeps k
      enough
