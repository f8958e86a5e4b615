-- ===== src/Varint/Behind.antt =====
-- What a varint read leaves behind, and more bytes behind what is read.
use corelib_cpp.Common.{
  ℕ, zero, suc, ◌%◌, ◌≤◌, ◌≡◌, refl, sym, ap, ◌∙◌, arith, ◌⊎◌, inl, inr, ltb, ◌==◌, ◌&&◌,
  Bool-cases,
}
use corelib_cpp.Common.{List, [], ◌∷◌, ◌++◌, length, All, All-append}
use corelib_cpp.Common.Bytes.{IsByte}
use mathlib.Core.Path.{subst}
use corelib_cpp.Word.{Endian}
use corelib_cpp.Varint.{Read, got, overflow, cut, get_varint}
use corelib_cpp.Varint.Spec.{parse, under}
use corelib_cpp.Varint.Decode.{get_varint-parse}

-- The bytes that a read leaves are bytes.
abbrev pub Leaves : Read → Type 0
Leaves (got v rest) = All IsByte rest
Leaves (overflow rest) = All IsByte rest
Leaves cut = Unit

under-Leaves : (g : ℕ) (r : Read) → Leaves r → Leaves (under g r)
under-Leaves g (got v rest) l = l
under-Leaves g (overflow rest) l = l
under-Leaves g cut l = l

parse-Leaves : (k : ℕ) (p : List ℕ) → All IsByte p → Leaves (parse k p)
unfolding parse
parse-Leaves zero p b = b
parse-Leaves (suc k) [] b = tt
parse-Leaves (suc k) (x ∷ p) b = elim (Bool-cases ((k == 0) && ltb 1 x)) [
  | inl over ↦ rw (parse, over) b.1
  | inr free ↦ elim (Bool-cases (ltb x 128)) [
    | inl last ↦ rw (parse, free, last) b.1
    | inr more ↦ rw (parse, free, more) (under-Leaves (x % 128) (parse k p) (parse-Leaves k p b.1))
  ]
]

pub get_varint-Leaves : (e : Endian) (p : List ℕ) → All IsByte p → Leaves (get_varint e p)
get_varint-Leaves e p b = subst Leaves (sym (get_varint-parse e p b)) (parse-Leaves 10 p b)

-- The same read with the bytes `m` behind it.
abbrev pub extend : List ℕ → Read → Read
extend m (got v rest) = got v (rest ++ m)
extend m (overflow rest) = overflow (rest ++ m)
extend m cut = cut

got_not_cut : (v : ℕ) (rest : List ℕ) → ¬ (got v rest ≡ cut)
got_not_cut v rest e = cc

overflow_not_cut : (rest : List ℕ) → ¬ (Read.overflow rest ≡ cut)
overflow_not_cut rest e = cc

under-cut : (g : ℕ) (r : Read) → under g r ≡ cut → r ≡ cut
under-cut g (got v rest) e = cc
under-cut g (overflow rest) e = cc
under-cut g cut e = refl

under-extend : (g : ℕ) (m : List ℕ) (r : Read) → under g (extend m r) ≡ extend m (under g r)
under-extend g m (got v rest) = refl
under-extend g m (overflow rest) = refl
under-extend g m cut = refl

parse-extend :
    (k : ℕ) (p m : List ℕ) → (parse k p ≡ cut) ⊎ (parse k (p ++ m) ≡ extend m (parse k p))
unfolding parse
parse-extend zero p m = inr refl
parse-extend (suc k) [] m = inl refl
parse-extend (suc k) (x ∷ p) m = elim (Bool-cases ((k == 0) && ltb 1 x)) [
  | inl over ↦ inr (rw (parse, over) refl)
  | inr free ↦ elim (Bool-cases (ltb x 128)) [
    | inl last ↦ inr (rw (parse, free, last) refl)
    | inr more ↦ elim (parse-extend k p m) [
      | inl stop ↦ inl (rw (parse, free, more, stop) refl)
      | inr on ↦ inr (rw (parse, free, more, on) (under-extend (x % 128) m (parse k p)))
    ]
  ]
]

-- What is not cut off is read the same with more bytes behind it.
pub get_varint-extend :
    (e : Endian) (p m : List ℕ)
    → All IsByte p
    → All IsByte m
    → (get_varint e p ≡ cut) ⊎ (get_varint e (p ++ m) ≡ extend m (get_varint e p))
get_varint-extend e p m b c = elim (parse-extend 10 p m) [
  | inl stop ↦ inl (get_varint-parse e p b ∙ stop)
  | inr on ↦ inr (
      get_varint-parse e (p ++ m) (All-append IsByte p m b c)
      ∙ on
      ∙ ap (extend m) (sym (get_varint-parse e p b)))
]

parse-long : (k : ℕ) (p : List ℕ) → k ≤ length p → ¬ (parse k p ≡ cut)
unfolding parse
parse-long zero p l e = cc
parse-long (suc k) [] l e = absurd (omega arith)
parse-long (suc k) (x ∷ p) l e = elim (Bool-cases ((k == 0) && ltb 1 x)) [
  | inl over ↦ let f : Read.overflow p ≡ cut = rw (parse, over) at e in overflow_not_cut p f
  | inr free ↦ elim (Bool-cases (ltb x 128)) [
    | inl last ↦ let f : got x p ≡ cut = rw (parse, free, last) at e in got_not_cut x p f
    | inr more ↦
        let f : under (x % 128) (parse k p) ≡ cut = rw (parse, free, more) at e in
        parse-long k p (omega arith) (under-cut (x % 128) (parse k p) f)
  ]
]

-- Ten bytes never cut a varint off.
pub get_varint-long :
    (e : Endian) (p : List ℕ) → All IsByte p → 10 ≤ length p → ¬ (get_varint e p ≡ cut)
get_varint-long e p b l h = parse-long 10 p l (sym (get_varint-parse e p b) ∙ h)
