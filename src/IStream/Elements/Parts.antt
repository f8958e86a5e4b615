-- ===== src/IStream/Elements/Parts.antt =====
-- The loop of one element a round, on a part of the bytes and with more behind them.
use corelib_cpp.Common.{
  ℕ, zero, suc, ◌+◌, ◌-◌, ◌≤◌, ◌<◌, ◌≡◌, refl, sym, ap, ◌∙◌, arith, true, false, Bool-cases, ◌⊎◌,
  inl, inr,
}
use corelib_cpp.Common.{List, ◌++◌, All}
use corelib_cpp.Common.Bytes.{IsByte}
use corelib_cpp.Varint.{got, cut}
use corelib_cpp.Varint.Behind.{extend}
use corelib_cpp.IStream.{IStream}
use corelib_cpp.IStream.Scalars.{Value}
use corelib_cpp.IStream.Elements.{Pass}
use corelib_cpp.IStream.Elements.Each.{each, Lawful, each-got, Read-cases}

-- The checked read with more bytes behind it.
abbrev pub Extends : Pass → List ℕ → Type 0
Extends q more =
    (p : List ℕ)
    → All IsByte p
    → (q.checked p ≡ cut) ⊎ (q.checked (p ++ more) ≡ extend more (q.checked p))

-- How `k` elements from index `i` on end on `front`, and with `more` behind it: all read, an error, or
-- the bytes end inside the element `j`, from which the longer read goes on.
pub data Ends (q : Pass) (k i : ℕ) (dst : List Value) (s : IStream) (front more : List ℕ)
    : Type 0 where
  all_read :
      (left : List ℕ) (d : List Value)
      → All IsByte left
      → each q k i dst (record s { p = front }) ≡ (record s { p = left }, d, true)
      → each q k i dst (record s { p = front ++ more }) ≡ (record s { p = left ++ more }, d, true)
      → Ends q k i dst s front more
  failed :
      (left : List ℕ) (d : List Value)
      → each q k i dst (record s { p = front }) ≡ (record s { p = left; error = true }, d, false)
      → Ends q k i dst s front more
  stopped :
      (j : ℕ) (left : List ℕ) (d : List Value)
      → i ≤ j
      → j < i + k
      → All IsByte left
      → each q k i dst (record s { p = front })
        ≡ (record s { p = left; pend_done = j; incomplete = true }, d, false)
      → each q k i dst (record s { p = front ++ more })
        ≡ each q (i + k - j) j d (record s { p = left ++ more })
      → Ends q k i dst s front more

-- An element before them.
after_got :
    (q : Pass) (k i : ℕ) (dst next : List Value) (s : IStream) (front rest more : List ℕ)
    → each q (suc k) i dst (record s { p = front }) ≡ each q k (i + 1) next (record s { p = rest })
    → each q (suc k) i dst (record s { p = front ++ more })
      ≡ each q k (i + 1) next (record s { p = rest ++ more })
    → Ends q k (i + 1) next s rest more
    → Ends q (suc k) i dst s front more
after_got q k i dst next s front rest more e f (all_read left d b h h') =
    all_read left d b (e ∙ h) (f ∙ h')
after_got q k i dst next s front rest more e f (failed left d h) = failed left d (e ∙ h)
after_got q k i dst next s front rest more e f (stopped j left d lo hi b h h') =
    let span : i + 1 + k - j ≡ i + suc k - j = omega arith in
    stopped j left d (omega arith) (omega arith) b (e ∙ h)
      (f ∙ h' ∙ ap (λ m. each q m j d (record s { p = left ++ more })) span)

module _ (q : Pass) (law : Lawful q) (more : List ℕ) (ext : Extends q more) where
  pub each-Ends :
      (k i : ℕ) (dst : List Value) (s : IStream) (front : List ℕ)
      → All IsByte front
      → Ends q k i dst s front more
  unfolding each
  each-Ends zero i dst s front b = all_read front dst b refl refl
  each-Ends (suc k) i dst s front b =
      let span : i + suc k - i ≡ suc k = omega arith in
      elim (Read-cases (q.checked front)) [
        | inr (inr r) ↦
            stopped i front dst (omega arith) (omega arith) b (rw (each, r) refl)
              (ap (λ m. each q m i dst (record s { p = front ++ more })) (sym span))
        | inr (inl (rest, r)) ↦ failed rest dst (rw (each, r) refl)
        | inl (v, rest, r) ↦ elim (ext front b) [
          | inl ends ↦ absurd (got_cut v rest (sym r ∙ ends))
          | inr on ↦
              let r' : q.checked (front ++ more) ≡ got v (rest ++ more) = on ∙ ap (extend more) r in
              elim (Bool-cases (q.admit v)) [
                | inr off ↦ failed rest dst (rw (each, r, off) refl)
                | inl ok ↦
                    after_got q k i dst (q.put i v dst) s front rest more
                      (each-got q k i v rest dst (record s { p = front }) r ok)
                      (each-got q k i v (rest ++ more) dst (record s { p = front ++ more }) r' ok)
                      (each-Ends k (i + 1) (q.put i v dst) s rest (law.behind front v rest b r).0)
              ]
        ]
      ]
    where
      got_cut : (v : ℕ) (rest : List ℕ) → ¬ (got v rest ≡ cut)
      got_cut v rest e = cc
