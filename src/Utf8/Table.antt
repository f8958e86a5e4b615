-- ===== src/Utf8/Table.antt =====
-- utf8Dfa: what the table says of every byte, found by running through it.
use corelib_cpp.Common.{
  ℕ, zero, suc, ◌<◌, ◌≡◌, refl, ap, ◌∙◌, arith, Bool, true, ◌==◌, ◌&&◌, lt_or_ge, inl, inr,
}
use corelib_cpp.Common.{List, [], ◌∷◌, ◌++◌, All}
use corelib_cpp.Common.Bytes.{IsByte}
use corelib_cpp.Utf8.{utf8_step, utf8_advance}

-- Whether a test holds of all numbers below `n`.
unfoldable pub all_below : (ℕ → Bool) → ℕ → Bool
all_below f zero = true
all_below f (suc n) = f n && all_below f n

pub all_below-holds : (f : ℕ → Bool) (n b : ℕ) → all_below f n ≡ true → b < n → f b ≡ true
unfolding all_below
all_below-holds f zero b h l = absurd (omega arith)
all_below-holds f (suc n) b h l = elim (lt_or_ge b n) [
  | inl below ↦ all_below-holds f n b (ground arith) below
  | inr above ↦ (let e : b ≡ n = omega arith in ap f e ∙ ground arith)
]

ascii_test : all_below (λ b. utf8_step 0 b == 0) 128 ≡ true
unfolding all_below utf8_step
ascii_test = refl

reject_test : all_below (λ b. utf8_step 12 b == 12) 256 ≡ true
unfolding all_below utf8_step
reject_test = refl

-- An ASCII byte is accepted.
pub utf8_step-ascii : (b : ℕ) → b < 128 → utf8_step 0 b ≡ 0
utf8_step-ascii b h =
    let e : (utf8_step 0 b == 0) ≡ true =
      all_below-holds (λ c. utf8_step 0 c == 0) 128 b ascii_test h in
    ground arith

-- A rejection is final.
utf8_step-reject : (b : ℕ) → b < 256 → utf8_step 12 b ≡ 12
utf8_step-reject b h =
    let e : (utf8_step 12 b == 12) ≡ true =
      all_below-holds (λ c. utf8_step 12 c == 12) 256 b reject_test h in
    ground arith

pub utf8_advance-reject : (p : List ℕ) → All IsByte p → utf8_advance 12 p ≡ 12
unfolding utf8_advance
utf8_advance-reject [] h = refl
utf8_advance-reject (b ∷ p) h =
    ap (λ s. utf8_advance s p) (utf8_step-reject b h.0) ∙ utf8_advance-reject p h.1

-- Two chunks, one after the other, are as good as one.
pub utf8_advance-append :
    (state : ℕ) (xs ys : List ℕ)
    → utf8_advance state (xs ++ ys) ≡ utf8_advance (utf8_advance state xs) ys
unfolding utf8_advance
utf8_advance-append state [] ys = refl
utf8_advance-append state (x ∷ xs) ys = utf8_advance-append (utf8_step state x) xs ys
