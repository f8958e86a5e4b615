-- ===== src/IStream/Window.antt =====
-- The bytes that are left of a window, behind each step of IStreamImpl: a back part of those before.
pub mod Steps
pub mod Rounds
pub mod Loops
pub mod Levels
pub mod Top
pub mod Feeding
use corelib_cpp.Common.{
  ℕ, zero, suc, ◌+◌, ◌-◌, ◌%◌, ◌≤◌, ◌<◌, ◌≡◌, refl, sym, ap, ◌∙◌, arith, Bool, true, false, ltb,
  ◌==◌, ◌&&◌, if◌then◌else◌,
}
use corelib_cpp.Common.{
  List, [], ◌∷◌, ◌++◌, append_assoc, append-nil, length, length-append, All, All-back, drop,
}
use corelib_cpp.Common.Bytes.{IsByte}
use mathlib.Core.Path.{subst}
use corelib_cpp.Word.{Endian}
use corelib_cpp.Varint.{Read, got, overflow, cut, get_varint, Skip, skipped, skip_varint}
use corelib_cpp.Varint.Spec.{parse, under}
use corelib_cpp.Varint.Decode.{get_varint-parse}
use corelib_cpp.Varint.Skipping.{skim, skip_varint-get_varint}
use corelib_cpp.IStream.{IStream}

-- The bytes from a later pointer of the same window.
abbrev pub Behind : List ℕ → List ℕ → Type 0
Behind p q = (front : List ℕ) × (p ≡ front ++ q)

pub here : (p : List ℕ) → Behind p p
here p = ([], refl)

pub further : (p q r : List ℕ) → Behind p q → Behind q r → Behind p r
further p q r (f, e) (g, d) = (f ++ g, e ∙ ap (λ t. f ++ t) d ∙ sym (append_assoc f g r))

pub bytes_behind : (p q : List ℕ) → Behind p q → All IsByte p → All IsByte q
bytes_behind p q (f, e) k = All-back IsByte f q (subst (All IsByte) e k)

pub no_longer : (p q : List ℕ) → Behind p q → length q ≤ length p
no_longer p q (f, e) = omega (arith, ap length e, length-append f q)

pub drop-Behind : (n : ℕ) (p : List ℕ) → Behind p (drop n p)
drop-Behind zero p = here p
drop-Behind (suc n) [] = here []
drop-Behind (suc n) (b ∷ p) = let (f, e) = drop-Behind n p in (b ∷ f, ap (λ t. b ∷ t) e)

pub nil-Behind : (p : List ℕ) → Behind p []
nil-Behind p = (p, sym (append-nil p))

-- What holds of both branches holds of the test.
pub either {ℓ κ} :
    {A : Type ℓ} (P : A → Type κ) (b : Bool) (x y : A) → P x → P y → P (if b then x else y)
either P true x y h k = h
either P false x y h k = k

-- What a varint that was read leaves: bytes behind at least one.
abbrev pub Left : List ℕ → Read → Type 0
Left p (got v rest) = Behind p rest × (length rest < length p)
Left p (overflow rest) = Behind p rest
Left p cut = Unit {0}

abbrev pub Passed : List ℕ → Skip → Type 0
Passed p (skipped rest) = Behind p rest × (length rest < length p)
Passed p (Skip.overflow rest) = Behind p rest
Passed p Skip.cut = Unit {0}

later : (b : ℕ) (p q : List ℕ) → Behind p q → Behind (b ∷ p) q
later b p q (f, e) = (b ∷ f, ap (λ t. b ∷ t) e)

under-Left : (b g : ℕ) (p : List ℕ) (r : Read) → Left p r → Left (b ∷ p) (under g r)
under-Left b g p (got v rest) (h, l) = (later b p rest h, omega arith)
under-Left b g p (overflow rest) h = later b p rest h
under-Left b g p cut h = tt

parse-Left : (k : ℕ) (p : List ℕ) → Left p (parse k p)
unfolding parse
parse-Left zero p = here p
parse-Left (suc k) [] = tt
parse-Left (suc k) (b ∷ p) =
    either (Left (b ∷ p)) ((k == 0) && ltb 1 b) (Read.overflow p) _ (later b p p (here p)) (
      either (Left (b ∷ p)) (ltb b 128) (got b p) _ (later b p p (here p), omega arith)
        (under-Left b (b % 128) p (parse k p) (parse-Left k p)))

pub get_varint-Left : (host : Endian) (p : List ℕ) → All IsByte p → Left p (get_varint host p)
get_varint-Left host p k = subst (Left p) (sym (get_varint-parse host p k)) (parse-Left 10 p)

skim-Passed : (p : List ℕ) (r : Read) → Left p r → Passed p (skim r)
skim-Passed p (got v rest) h = h
skim-Passed p (overflow rest) h = h
skim-Passed p cut h = h

pub skip_varint-Passed : (host : Endian) (p : List ℕ) → All IsByte p → Passed p (skip_varint host p)
skip_varint-Passed host p k =
    subst (Passed p) (sym (skip_varint-get_varint host p k))
      (skim-Passed p (get_varint host p) (get_varint-Left host p k))
