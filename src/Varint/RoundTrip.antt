-- ===== src/Varint/RoundTrip.antt =====
-- `encodeVarint` and `getVarint` together.
use corelib_cpp.Common.{ℕ, zero, suc, ◌+◌, ◌*◌, ◌/◌, ◌%◌, ◌^◌, ◌≤◌, ◌<◌, ◌≡◌, refl, arith}
use corelib_cpp.Common.{List, [], ◌∷◌, ◌++◌, ap, ◌∙◌, sym, length, All, All-append, All-front}
use corelib_cpp.Common.{length-append, inl, inr, lt_or_ge, lt→ltb, ge→ltb}
use corelib_cpp.Common.Bytes.{IsByte}
use corelib_cpp.Word.{Endian}
use corelib_cpp.Varint.{Read, got, overflow, cut, get_varint, encode_varint}
use corelib_cpp.Varint.Spec.{parse, under, varint, groups_of, groups_of-IsByte, parse-groups_of}
use corelib_cpp.Varint.Spec.{length-groups_of}
use corelib_cpp.Varint.Encode.{encode_varint-varint}
use corelib_cpp.Varint.Decode.{get_varint-parse}
use mathlib.Core.Path.{subst}
use native.Mathlib.Nat.{pow-suc, one-le-pow}

-- The encoding of a 64-bit value is one to ten bytes.
pub encode_varint_shape :
    (v : ℕ)
    → v < 2 ^ 64
    → All IsByte (encode_varint v)
      × (1 ≤ length (encode_varint v))
      × (length (encode_varint v) ≤ 10)
encode_varint_shape v h =
    let (lo, hi) = length-groups_of 9 v in
    rw (encode_varint-varint v h) (unfold varint in (groups_of-IsByte 9 v (omega arith), lo, hi))

-- Reading at a pointer to the encoding of a 64-bit value, whatever bytes stand behind it and on
-- either kind of host, gives the value and the pointer behind the encoding.
pub get_varint-encode_varint :
    (e : Endian) (v : ℕ) (rest : List ℕ)
    → v < 2 ^ 64
    → All IsByte rest
    → get_varint e (encode_varint v ++ rest) ≡ got v rest
get_varint-encode_varint e v rest h k =
    get_varint-parse e (encode_varint v ++ rest)
      (All-append IsByte (encode_varint v) rest (encode_varint_shape v h).0 k)
    ∙ rw (encode_varint-varint v h) (unfold varint in parse-groups_of 9 v rest (omega arith))

under-eq-got :
    (g : ℕ) (r : Read) (v : ℕ) (rest : List ℕ)
    → under g r ≡ got v rest
    → (w : ℕ) × (r ≡ got w rest) × (v ≡ g + 128 * w)
under-eq-got g (got w s) v rest e = (w, ground arith, ground arith)
under-eq-got g (overflow s) v rest e = cc
under-eq-got g cut v rest e = cc

-- What the format gives when `k + 1` bytes may come.
parse_bounds :
    (k : ℕ) (p : List ℕ) (v : ℕ) (rest : List ℕ)
    → parse (suc k) p ≡ got v rest
    → (v < 2 * 128 ^ k) × (length rest < length p) × (length p ≤ length rest + suc k)
unfolding parse
parse_bounds k [] v rest e = cc
parse_bounds zero (b ∷ p) v rest e = ground arith
parse_bounds (suc k) (b ∷ p) v rest e = elim (lt_or_ge b 128) [
  | inl last ↦ ground (arith, one-le-pow (suc k) 128)
  | inr more ↦
      let (w, inner, value) = under-eq-got (b % 128) (parse (suc k) p) v rest (ground arith) in
      let (a, c, d) = parse_bounds k p w rest inner in
      (omega (arith, pow-suc 128 k), omega arith, omega arith)
]

-- A value that the reader returns fits 64 bits, and it has read between one and ten bytes.
pub get_varint_bounds :
    (e : Endian) (p : List ℕ) (v : ℕ) (rest : List ℕ)
    → All IsByte p
    → get_varint e p ≡ got v rest
    → (v < 2 ^ 64) × (length rest < length p) × (length p ≤ length rest + 10)
get_varint_bounds e p v rest k h =
    let (a, b, c) = parse_bounds 9 p v rest (sym (get_varint-parse e p k) ∙ h) in
    (omega arith, b, c)

-- A proper prefix of an encoding.
groups_of-prefix :
    (k v x : ℕ) (front back : List ℕ)
    → v < 2 * 128 ^ k
    → groups_of k v ≡ front ++ (x ∷ back)
    → parse (suc k) front ≡ cut
unfolding groups_of parse
groups_of-prefix k v x [] back h e = refl
groups_of-prefix zero v x (f ∷ front) back h e =
    absurd (omega (arith, ap length e, length-append front (x ∷ back)))
groups_of-prefix (suc k) v x (f ∷ front) back h e = elim (lt_or_ge v 128) [
  | inl small ↦
      let short : v ∷ [] ≡ f ∷ (front ++ (x ∷ back)) = rw (lt→ltb v 128 small) at e in
      absurd (omega (arith, ap length short, length-append front (x ∷ back)))
  | inr large ↦
      let long : (v % 128 + 128) ∷ groups_of k (v / 128) ≡ f ∷ (front ++ (x ∷ back)) =
        rw (ge→ltb v 128 large) at e in
      let inner : parse (suc k) front ≡ cut =
        groups_of-prefix k (v / 128) x front back (omega (arith, pow-suc 128 k)) (cc) in
      let head : f ≡ v % 128 + 128 = cc in
      rw (head, ge→ltb (v % 128 + 128) 128 (omega arith), inner) (ground arith)
]

-- The reader finds any proper front part of the encoding of a 64-bit value cut off.
pub get_varint-prefix :
    (e : Endian) (v x : ℕ) (front back : List ℕ)
    → v < 2 ^ 64
    → encode_varint v ≡ front ++ (x ∷ back)
    → get_varint e front ≡ cut
get_varint-prefix e v x front back h w =
    get_varint-parse e front
      (All-front IsByte front (x ∷ back) (subst (All IsByte) w (encode_varint_shape v h).0))
    ∙ groups_of-prefix 9 v x front back (omega arith) (split ∙ w)
  where
    split : groups_of 9 v ≡ encode_varint v
    split = unfold varint in sym (encode_varint-varint v h)
