-- ===== src/Containers/Truncation.antt =====
-- FixedString::assign on text that is too long.
use mathlib.Core.Path.{subst}
use corelib_cpp.Common.{
  ℕ, zero, suc, ◌≤◌, ◌<◌, ◌≡◌, refl, sym, ap, ◌∙◌, arith, true, not, ◌==◌, leb, if◌then◌else◌, inl,
  inr, Bool-cases, lt_or_ge,
}
use corelib_cpp.Common.{le→leb, gt→leb}
use corelib_cpp.Common.{
  List, [], ◌∷◌, ◌++◌, length, length-take, take, drop, get_or, set, All, All-take, take_all,
  take-append,
}
use corelib_cpp.Common.Bytes.{IsByte}
use corelib_cpp.Word.{Endian}
use corelib_cpp.Utf8.{utf8_advance, utf8_valid}
use corelib_cpp.Utf8.Verdict.{utf8_valid-utf8_advance}
use corelib_cpp.Utf8.Boundaries.{boundary}
use corelib_cpp.Containers.FixedString
use corelib_cpp.Containers.FixedString.{FixedString, continues, utf8_prefix, assign, view}
use corelib_cpp.Containers.Refine.{take-set_before}

split_at :
    (k : ℕ) (sv : List ℕ) → k < length sv → sv ≡ take k sv ++ (get_or sv k 0 ∷ drop (suc k) sv)
split_at k [] h = absurd (omega arith)
split_at zero (x ∷ sv) h = refl
split_at (suc k) (x ∷ sv) h = ap (λ l. x ∷ l) (split_at k sv (omega arith))

-- At each index of valid text, the byte there continues a code point unless the text before it is valid.
cut_at :
    (sv : List ℕ) (k : ℕ)
    → All IsByte sv
    → utf8_advance 0 sv ≡ 0
    → k < length sv
    → continues (get_or sv k 0) ≡ not (utf8_advance 0 (take k sv) == 0)
cut_at sv k b v h =
    let e = split_at k sv h in
    boundary (take k sv) (get_or sv k 0) (drop (suc k) sv) (subst (All IsByte) e b)
      (ap (utf8_advance 0) (sym e) ∙ v)

-- What utf8_prefix finds: a valid front part, of `n` bytes at most, and no longer one is valid.
pub record Longest (sv : List ℕ) (n m : ℕ) : Type 0 where
  pub fits : m ≤ n
  pub valid : utf8_advance 0 (take m sv) ≡ 0
  pub best : (k : ℕ) → k ≤ n → k ≤ length sv → utf8_advance 0 (take k sv) ≡ 0 → k ≤ m

utf8_prefix-Longest :
    (sv : List ℕ) (n : ℕ)
    → All IsByte sv
    → utf8_advance 0 sv ≡ 0
    → n < length sv
    → Longest sv n (utf8_prefix sv n)
unfolding utf8_prefix utf8_advance
utf8_prefix-Longest sv zero b v h = record { fits = omega arith; valid = refl; best = λ k l w e. l }
utf8_prefix-Longest sv (suc n) b v h =
    let c = cut_at sv (suc n) b v h in
    elim (Bool-cases (continues (get_or sv (suc n) 0))) [
      | inl on ↦
          let ih = utf8_prefix-Longest sv n b v (omega arith) in
          rw on (record {
            fits = omega (arith, ih.fits);
            valid = ih.valid;
            best = λ k l w e. elim (lt_or_ge k (suc n)) [
              | inl below ↦ ih.best k (omega arith) w e
              | inr above ↦
                  let top : k ≡ suc n = omega arith in
                  let whole : utf8_advance 0 (take (suc n) sv) ≡ 0 =
                    subst (λ j. utf8_advance 0 (take j sv) ≡ 0) top e in
                  absurd (ground arith)
            ];
          })
      | inr off ↦ rw off (record { fits = omega arith; valid = ground arith; best = λ k l w e. l })
    ]

zero_test : (n : ℕ) → (n == 0) ≡ true → n ≡ 0
zero_test n h = ground arith

fitting : List ℕ → FixedString → ℕ
fitting sv s =
    if leb (length sv) (FixedString.capacity s)
    then length sv
    else utf8_prefix sv (FixedString.capacity s)

fitting-Longest :
    (sv : List ℕ) (s : FixedString)
    → All IsByte sv
    → utf8_advance 0 sv ≡ 0
    → Longest sv (FixedString.capacity s) (fitting sv s) × (fitting sv s ≤ length sv)
unfolding fitting
fitting-Longest sv s b v = elim (lt_or_ge (FixedString.capacity s) (length sv)) [
  | inl long ↦
      let found = utf8_prefix-Longest sv (FixedString.capacity s) b v long in
      rw (gt→leb (length sv) (FixedString.capacity s) long) (found, omega (arith, found.fits))
  | inr short ↦ rw (le→leb (length sv) (FixedString.capacity s) short) (
    record {
      fits = short;
      valid = ap (utf8_advance 0) (take_all (length sv) sv (omega arith)) ∙ v;
      best = λ k l w e. w;
    },
    omega arith,
  )
]

view_taken :
    (n : ℕ) (sv rest : List ℕ) → n ≤ length sv → take n (set (take n sv ++ rest) n 0) ≡ take n sv
view_taken n sv rest h =
    take-set_before n n 0 (take n sv ++ rest) (omega arith)
    ∙ take-append n (take n sv) rest (omega (arith, length-take n sv))

-- After valid UTF-8 is assigned, a FixedString holds a front part of it of at most as many bytes
-- as it has room for, which is valid UTF-8, and no longer front part that it has room for is
-- valid.
pub assign-view :
    (host : Endian) (sv : List ℕ) (s : FixedString)
    → All IsByte sv
    → utf8_valid host sv ≡ true
    → (view (assign sv s) ≡ take (assign sv s).len sv)
      × ((assign sv s).len ≤ FixedString.capacity s)
      × (utf8_valid host (view (assign sv s)) ≡ true)
      × ((k : ℕ)
          → k ≤ FixedString.capacity s
          → k ≤ length sv
          → utf8_valid host (take k sv) ≡ true
          → k ≤ (assign sv s).len)
unfolding assign fitting
assign-view host sv s b v =
    let text = zero_test (utf8_advance 0 sv) (sym (utf8_valid-utf8_advance host sv b) ∙ v) in
    let (found, within) = fitting-Longest sv s b text in
    let m = fitting sv s in
    let same = view_taken m sv (drop m s.buf) within in
    (
      same,
      found.fits,
      ap (utf8_valid host) same
          ∙ utf8_valid-utf8_advance host (take m sv) (All-take IsByte m sv b)
          ∙ ap (λ z. z == 0) found.valid,
      λ k l w e. found.best k l w (
          zero_test (utf8_advance 0 (take k sv))
            (sym (utf8_valid-utf8_advance host (take k sv) (All-take IsByte k sv b)) ∙ e)),
    )
