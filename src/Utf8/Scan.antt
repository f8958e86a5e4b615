-- ===== src/Utf8/Scan.antt =====
-- utf8Valid: its two scans over ASCII bytes.
use mathlib.Core.Path.{subst}
use corelib_cpp.Common.{
  ℕ, zero, suc, ◌+◌, ◌*◌, ◌^◌, ◌≤◌, ◌<◌, ◌≡◌, refl, sym, ap, ◌∙◌, arith, Bool, true, ltb, leb, ◌==◌,
  ◌&&◌,
}
use corelib_cpp.Common.{
  List, [], ◌∷◌, All, length, take, drop, replicate, bit_and, if◌then◌else◌, Bool-cases, lt_or_ge,
  inl, inr,
}
use corelib_cpp.Common.{
  length-take, length-drop, length-reverse, All-reverse, All-take, All-drop, take-append-drop,
  lt→ltb, ge→ltb, leb→le, ==_iff,
}
use mathlib.Core.List.{reverse, reverse-reverse}
use corelib_cpp.Common.Bits.{bit_and_window, bit_and_fields}
use corelib_cpp.Common.Bytes.{IsByte, from_le}
use corelib_cpp.Word.{Endian, little, big, memcpy_in}
use corelib_cpp.Utf8.{utf8_advance, utf8_skip_words, utf8_skip_bytes}
use corelib_cpp.Utf8.Table.{utf8_step-ascii, utf8_advance-append}

abbrev pub IsAscii : ℕ → Type 0
IsAscii b = b < 128

utf8_advance-ascii : (p : List ℕ) → All IsAscii p → utf8_advance 0 p ≡ 0
unfolding utf8_advance
utf8_advance-ascii [] h = refl
utf8_advance-ascii (b ∷ p) h =
    ap (λ s. utf8_advance s p) (utf8_step-ascii b h.0) ∙ utf8_advance-ascii p h.1

-- The word test.
abbrev top : ℕ → ℕ
top b = if ltb b 128 then 0 else 128

abbrev top_bits : List ℕ → List ℕ
top_bits [] = []
top_bits (b ∷ bs) = top b ∷ top_bits bs

top_lem : (b : ℕ) → b < 256 → bit_and b 128 ≡ top b
top_lem b h = ground (arith, bit_and_window b 7 1)

masked_tops :
    (bs : List ℕ)
    → All IsByte bs
    → bit_and (from_le bs) (from_le (replicate (length bs) 128)) ≡ from_le (top_bits bs)
masked_tops [] h = refl
masked_tops (b ∷ bs) h =
    rw (whole, tail)
      (bit_and_fields 8 _ b _ 128 (omega arith) (omega arith)
        ∙ omega (arith, masked_tops bs h.1, top_lem b h.0))
  where
    whole : b + 256 * from_le bs ≡ from_le bs * 2 ^ 8 + b
    whole = omega arith

    tail :
        128 + 256 * from_le (replicate (length bs) 128)
        ≡ from_le (replicate (length bs) 128) * 2 ^ 8 + 128
    tail = omega arith

tops_clear : (bs : List ℕ) → from_le (top_bits bs) ≡ 0 → All IsAscii bs
tops_clear [] h = tt
tops_clear (b ∷ bs) h = (ground arith, tops_clear bs (omega arith))

word_test :
    (bs : List ℕ)
    → length bs ≡ 8
    → All IsByte bs
    → bit_and (from_le bs) 0x8080808080808080 ≡ 0
    → All IsAscii bs
word_test bs l h e =
    let mask : from_le (replicate (length bs) 128) ≡ 0x8080808080808080 =
      ap (λ n. from_le (replicate n 128)) l in
    tops_clear bs (sym (masked_tops bs h) ∙ ap (bit_and (from_le bs)) mask ∙ e)

host_word_test :
    (host : Endian) (bs : List ℕ)
    → length bs ≡ 8
    → All IsByte bs
    → bit_and (memcpy_in host bs) 0x8080808080808080 ≡ 0
    → All IsAscii bs
unfolding memcpy_in
host_word_test little bs l h e = word_test bs l h e
host_word_test big bs l h e = subst (All IsAscii) (reverse-reverse bs) (
    All-reverse IsAscii (reverse bs)
      (word_test (reverse bs) (length-reverse bs ∙ l) (All-reverse IsByte bs h) e))

and_left : (a b : Bool) → a && b ≡ true → a ≡ true
and_left a b h = ground arith

and_right : (a b : Bool) → a && b ≡ true → b ≡ true
and_right a b h = ground arith

word-IsAscii :
    (host : Endian) (p : List ℕ)
    → All IsByte p
    → leb 8 (length p) && (bit_and (memcpy_in host (take 8 p)) 0x8080808080808080 == 0) ≡ true
    → All IsAscii (take 8 p)
word-IsAscii host p h passed =
    let w = bit_and (memcpy_in host (take 8 p)) 0x8080808080808080 in
    let enough : 8 ≤ length p = leb→le 8 (length p) (and_left (leb 8 (length p)) (w == 0) passed) in
    let clear : w ≡ 0 = (==_iff w 0).0 (and_right (leb 8 (length p)) (w == 0) passed) in
    let size : length (take 8 p) ≡ 8 = (let e = length-take 8 p in omega arith) in
    host_word_test host (take 8 p) size (All-take IsByte 8 p h) clear

-- A scan takes ASCII bytes off the front.
pub record Scanned (p q : List ℕ) : Type 0 where
  pub same : utf8_advance 0 p ≡ utf8_advance 0 q
  pub short : length q ≤ length p
  pub bytes : All IsByte p → All IsByte q

pub Scanned-trans : {p q r : List ℕ} → Scanned p q → Scanned q r → Scanned p r
Scanned-trans a b = record {
  same = a.same ∙ b.same;
  short = omega (arith, a.short, b.short);
  bytes = λ h. b.bytes (a.bytes h);
}

Scanned-drop : (n : ℕ) (p : List ℕ) → All IsAscii (take n p) → Scanned p (drop n p)
Scanned-drop n p h = record {
  same =
      sym (ap (utf8_advance 0) (take-append-drop n p))
      ∙ utf8_advance-append 0 (take n p) (drop n p)
      ∙ ap (λ s. utf8_advance s (drop n p)) (utf8_advance-ascii (take n p) h);
  short = omega (arith, length-drop n p);
  bytes = All-drop IsByte n p;
}

Scanned-refl : (p : List ℕ) → Scanned p p
Scanned-refl p = record { same = refl; short = omega arith; bytes = λ h. h }

pub utf8_skip_words-Scanned :
    (host : Endian) (fuel : ℕ) (p : List ℕ) → All IsByte p → Scanned p (utf8_skip_words host fuel p)
unfolding utf8_skip_words
utf8_skip_words-Scanned host zero p h = Scanned-refl p
utf8_skip_words-Scanned host (suc fuel) p h =
    let test = leb 8 (length p) && (bit_and (memcpy_in host (take 8 p)) 0x8080808080808080 == 0) in
    elim (Bool-cases test) [
      | inl passed ↦ rw passed (
          Scanned-trans (Scanned-drop 8 p (word-IsAscii host p h passed))
            (utf8_skip_words-Scanned host fuel (drop 8 p) (All-drop IsByte 8 p h)))
      | inr failed ↦ rw failed (Scanned-refl p)
    ]

pub utf8_skip_bytes-Scanned : (p : List ℕ) → Scanned p (utf8_skip_bytes p)
unfolding utf8_skip_bytes
utf8_skip_bytes-Scanned [] = Scanned-refl []
utf8_skip_bytes-Scanned (b ∷ p) = elim (lt_or_ge b 128) [
  | inl ascii ↦
      rw (lt→ltb b 128 ascii)
        (Scanned-trans (Scanned-drop 1 (b ∷ p) (ascii, tt)) (utf8_skip_bytes-Scanned p))
  | inr more ↦ rw (ge→ltb b 128 more) (Scanned-refl (b ∷ p))
]
