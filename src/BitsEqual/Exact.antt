-- ===== src/BitsEqual/Exact.antt =====
-- bitsEqual against equality of the bit patterns.
use corelib_cpp.Common.{
  ℕ, ◌*◌, ◌^◌, ◌<◌, ◌≡◌, refl, sym, ap, ap₂, ◌∙◌, arith, true, false, ◌==◌, Bool-cases, inl, inr,
}
use corelib_cpp.Common.{List, [], ◌∷◌, ◌++◌, length, length-append, length-reverse, All}
use corelib_cpp.Common.Bytes.{to_le, from_le, length-to_le, from_le-to_le}
use corelib_cpp.Word.{Endian, little, big, memcpy_out, memcpy_in}
use mathlib.Core.List.{reverse-reverse}
use corelib_cpp.OStream.Fields.{Float, float_size}
use corelib_cpp.BitsEqual.{object_bytes, memcmp_zero, bits_equal}

-- A bit pattern of the size of the type.
abbrev pub IsPattern : Float → ℕ → Type 0
IsPattern f x = x < 256 ^ float_size f

memcmp_zero_same : (xs : List ℕ) → memcmp_zero xs xs ≡ true
unfolding memcmp_zero
memcmp_zero_same [] = refl
memcmp_zero_same (x ∷ xs) = ground (arith, memcmp_zero_same xs)

memcmp_zero-eq : (xs ys : List ℕ) → length xs ≡ length ys → memcmp_zero xs ys ≡ true → xs ≡ ys
unfolding memcmp_zero
memcmp_zero-eq [] [] l h = refl
memcmp_zero-eq [] (y ∷ ys) l h = absurd (omega arith)
memcmp_zero-eq (x ∷ xs) [] l h = cc
memcmp_zero-eq (x ∷ xs) (y ∷ ys) l h =
    let e : (x ≡ y) × (memcmp_zero xs ys ≡ true) = ground arith in
    ap₂ (λ z zs. z ∷ zs) e.0 (memcmp_zero-eq xs ys (omega arith) e.1)

append-cancel :
    (xs ys us vs : List ℕ) → length xs ≡ length ys → xs ++ us ≡ ys ++ vs → (xs ≡ ys) × (us ≡ vs)
append-cancel [] [] us vs l e = (refl, e)
append-cancel [] (y ∷ ys) us vs l e = absurd (omega arith)
append-cancel (x ∷ xs) [] us vs l e = absurd (omega arith)
append-cancel (x ∷ xs) (y ∷ ys) us vs l e =
    let tail : xs ++ us ≡ ys ++ vs = cc in
    let head : x ≡ y = cc in
    let (same, rest) = append-cancel xs ys us vs (omega arith) tail in
    (ap₂ (λ z zs. z ∷ zs) head same, rest)

-- Memory of either byte order.
length-memcpy_out : (host : Endian) (n x : ℕ) → length (memcpy_out host n x) ≡ n
unfolding memcpy_out
length-memcpy_out little n x = length-to_le n x
length-memcpy_out big n x = length-reverse (to_le n x) ∙ length-to_le n x

memcpy_in-memcpy_out :
    (host : Endian) (n x : ℕ) → x < 256 ^ n → memcpy_in host (memcpy_out host n x) ≡ x
unfolding memcpy_out memcpy_in
memcpy_in-memcpy_out little n x h = from_le-to_le n x h
memcpy_in-memcpy_out big n x h = ap from_le (reverse-reverse (to_le n x)) ∙ from_le-to_le n x h

module _ (host : Endian) (f : Float) where
  memcpy_out-injective :
      (x y : ℕ)
      → IsPattern f x
      → IsPattern f y
      → memcpy_out host (float_size f) x ≡ memcpy_out host (float_size f) y
      → x ≡ y
  memcpy_out-injective x y hx hy e =
      sym (memcpy_in-memcpy_out host (float_size f) x hx)
      ∙ ap (memcpy_in host) e
      ∙ memcpy_in-memcpy_out host (float_size f) y hy

  length-object_bytes : (a : List ℕ) → length (object_bytes host f a) ≡ length a * float_size f
  unfolding object_bytes
  length-object_bytes [] = omega arith
  length-object_bytes (x ∷ a) = omega (
    arith,
    length-append (memcpy_out host (float_size f) x) (object_bytes host f a),
    length-memcpy_out host (float_size f) x,
    length-object_bytes a,
  )

  object_bytes-injective :
      (a b : List ℕ)
      → All (IsPattern f) a
      → All (IsPattern f) b
      → length a ≡ length b
      → object_bytes host f a ≡ object_bytes host f b
      → a ≡ b
  unfolding object_bytes
  object_bytes-injective [] [] ha hb l e = refl
  object_bytes-injective [] (y ∷ b) ha hb l e = absurd (omega arith)
  object_bytes-injective (x ∷ a) [] ha hb l e = absurd (omega arith)
  object_bytes-injective (x ∷ a) (y ∷ b) ha hb l e =
      let (head, tail) =
        append-cancel (memcpy_out host (float_size f) x) (memcpy_out host (float_size f) y)
          (object_bytes host f a) (object_bytes host f b)
          (length-memcpy_out host (float_size f) x ∙ sym (length-memcpy_out host (float_size f) y))
          e in
      ap₂ (λ z zs. z ∷ zs) (memcpy_out-injective x y ha.0 hb.0 head)
        (object_bytes-injective a b ha.1 hb.1 (omega arith) tail)

nil_of : (xs : List ℕ) → length xs ≡ 0 → xs ≡ []
nil_of [] l = refl
nil_of (x ∷ xs) l = absurd (omega arith)

bits_equal_sound :
    (host : Endian) (f : Float) (a b : List ℕ)
    → All (IsPattern f) a
    → All (IsPattern f) b
    → bits_equal host f a b ≡ true
    → a ≡ b
unfolding bits_equal
bits_equal_sound host f a b ha hb e = elim (Bool-cases (length a == length b)) [
  | inr off ↦ let g : false ≡ true = rw (bits_equal, off) at e in cc
  | inl on ↦
      let same : length a ≡ length b = ground arith in
      elim (Bool-cases (length a == 0)) [
        | inl empty ↦ nil_of a (ground arith) ∙ sym (nil_of b (ground arith))
        | inr some_there ↦ object_bytes-injective host f a b ha hb same (
            memcmp_zero-eq (object_bytes host f a) (object_bytes host f b)
              (length-object_bytes host f a
                ∙ ap (λ n. n * float_size f) same
                ∙ sym (length-object_bytes host f b))
              (rw (bits_equal, on, some_there) at e))
      ]
]

bits_equal_same : (host : Endian) (f : Float) (a : List ℕ) → bits_equal host f a a ≡ true
unfolding bits_equal
bits_equal_same host f a =
    let on : (length a == length a) ≡ true = ground arith in
    elim (Bool-cases (length a == 0)) [
      | inl empty ↦ rw (bits_equal, on, empty) refl
      | inr some_there ↦ rw (bits_equal, on, some_there) (memcmp_zero_same (object_bytes host f a))
    ]

-- On arrays of bit patterns of the element type and on either kind of host, bitsEqual answers
-- true for equal arrays, and only for these.
pub bits_equal-exact :
    (host : Endian) (f : Float) (a b : List ℕ)
    → All (IsPattern f) a
    → All (IsPattern f) b
    → (bits_equal host f a b ≡ true → a ≡ b) × (a ≡ b → bits_equal host f a b ≡ true)
bits_equal-exact host f a b ha hb = (
  bits_equal_sound host f a b ha hb,
  λ e. ap (λ z. bits_equal host f a z) (sym e) ∙ bits_equal_same host f a,
)
