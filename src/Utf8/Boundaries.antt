-- ===== src/Utf8/Boundaries.antt =====
-- Where a code point begins: what the table says of a byte that continues one, in every state.
use mathlib.Core.Path.{subst}
use corelib_cpp.Common.{
  ℕ, zero, suc, ◌*◌, ◌%◌, ◌/◌, ◌<◌, ◌≡◌, refl, sym, ap, ◌∙◌, arith, Bool, true, false, not, ◌==◌,
  ◌&&◌, ◌||◌, inl, inr, if◌then◌else◌, ltb, Bool-cases,
}
use corelib_cpp.Common.{List, [], ◌∷◌, ◌++◌, All, All-front, All-back}
use corelib_cpp.Common.Bytes.{IsByte}
use corelib_cpp.Utf8.{utf8_step, utf8_advance}
use corelib_cpp.Utf8.Table.{all_below, all_below-holds, utf8_advance-append, utf8_advance-reject}
use corelib_cpp.Containers.FixedString.{continues}

-- Of state 12 * k and byte b: the next state is a multiple of 12 below 108, and it is the rejecting
-- one unless `b` continues exactly where a code point is open.
step_test : ℕ → ℕ → Bool
step_test st b =
    let s = utf8_step st b in
    ltb s 108
    && (s % 12 == 0)
    && (if st == 0 then not (continues b) || (s == 12) else continues b || (s == 12))

test0 : all_below (step_test 0) 256 ≡ true
unfolding all_below utf8_step step_test
test0 = refl

test1 : all_below (step_test 12) 256 ≡ true
unfolding all_below utf8_step step_test
test1 = refl

test2 : all_below (step_test 24) 256 ≡ true
unfolding all_below utf8_step step_test
test2 = refl

test3 : all_below (step_test 36) 256 ≡ true
unfolding all_below utf8_step step_test
test3 = refl

test4 : all_below (step_test 48) 256 ≡ true
unfolding all_below utf8_step step_test
test4 = refl

test5 : all_below (step_test 60) 256 ≡ true
unfolding all_below utf8_step step_test
test5 = refl

test6 : all_below (step_test 72) 256 ≡ true
unfolding all_below utf8_step step_test
test6 = refl

test7 : all_below (step_test 84) 256 ≡ true
unfolding all_below utf8_step step_test
test7 = refl

test8 : all_below (step_test 96) 256 ≡ true
unfolding all_below utf8_step step_test
test8 = refl

tests : (k : ℕ) → k < 9 → all_below (step_test (12 * k)) 256 ≡ true
tests zero h = test0
tests (suc zero) h = test1
tests (suc (suc zero)) h = test2
tests (suc (suc (suc zero))) h = test3
tests (suc (suc (suc (suc zero)))) h = test4
tests (suc (suc (suc (suc (suc zero))))) h = test5
tests (suc (suc (suc (suc (suc (suc zero)))))) h = test6
tests (suc (suc (suc (suc (suc (suc (suc zero))))))) h = test7
tests (suc (suc (suc (suc (suc (suc (suc (suc zero)))))))) h = test8
tests (suc (suc (suc (suc (suc (suc (suc (suc (suc k))))))))) h = absurd (omega arith)

-- The states of the automaton.
abbrev pub IsState : ℕ → Type 0
IsState st = (st < 108) × (st % 12 ≡ 0)

step_tested : (st b : ℕ) → IsState st → b < 256 → step_test st b ≡ true
step_tested st b h l =
    let e : 12 * (st / 12) ≡ st = omega arith in
    all_below-holds (step_test st) 256 b
      (subst (λ z. all_below (step_test z) 256 ≡ true) e (tests (st / 12) (omega arith))) l

step-IsState : (st b : ℕ) → IsState st → b < 256 → IsState (utf8_step st b)
unfolding step_test
step-IsState st b h l = let e = step_tested st b h l in ground arith

-- Inside a code point a byte that does not continue it is rejected.
step_open :
    (st b : ℕ)
    → IsState st
    → b < 256
    → (st == 0) ≡ false
    → continues b ≡ false
    → utf8_step st b ≡ 12
unfolding step_test
step_open st b h l inside c = let e = step_tested st b h l in ground arith

-- So is a byte that continues none.
step_start : (b : ℕ) → b < 256 → continues b ≡ true → utf8_step 0 b ≡ 12
unfolding step_test
step_start b l c = let e = step_tested 0 b (omega arith, refl) l in ground arith

pub advance-IsState :
    (st : ℕ) (p : List ℕ) → IsState st → All IsByte p → IsState (utf8_advance st p)
unfolding utf8_advance
advance-IsState st [] h k = h
advance-IsState st (b ∷ p) h k = advance-IsState (utf8_step st b) p (step-IsState st b h k.0) k.1

rejected :
    (st b : ℕ) (p : List ℕ) → All IsByte p → utf8_step st b ≡ 12 → utf8_advance st (b ∷ p) ≡ 12
unfolding utf8_advance
rejected st b p k e = ap (λ z. utf8_advance z p) e ∙ utf8_advance-reject p k

-- Valid text is valid up to any byte that does not continue a code point, and up to no other.
pub boundary :
    (xs : List ℕ) (b : ℕ) (ys : List ℕ)
    → All IsByte (xs ++ (b ∷ ys))
    → utf8_advance 0 (xs ++ (b ∷ ys)) ≡ 0
    → continues b ≡ not (utf8_advance 0 xs == 0)
boundary xs b ys k v =
    let st = utf8_advance 0 xs in
    let behind = All-back IsByte xs (b ∷ ys) k in
    let state : IsState st =
      advance-IsState 0 xs (omega arith, refl) (All-front IsByte xs (b ∷ ys) k) in
    let whole : utf8_advance st (b ∷ ys) ≡ 0 = sym (utf8_advance-append 0 xs (b ∷ ys)) ∙ v in
    elim (Bool-cases (st == 0)) [
      | inl start ↦ elim (Bool-cases (continues b)) [
        | inl c ↦
            let at_start : st ≡ 0 = ground arith in
            absurd (
              omega (
                arith,
                whole,
                rejected st b ys behind.1
                    (ap (λ z. utf8_step z b) at_start ∙ step_start b behind.0 c),
              ))
        | inr c ↦ ground arith
      ]
      | inr inside ↦ elim (Bool-cases (continues b)) [
        | inl c ↦ ground arith
        | inr c ↦ absurd (
            omega
              (arith, whole, rejected st b ys behind.1 (step_open st b state behind.0 inside c)))
      ]
    ]
