-- ===== src/Varint/Windowed.antt =====
-- `getVarintWindowed`, compared with the format.
use corelib_cpp.Common.{ℕ, suc, ◌+◌, ◌*◌, ◌/◌, ◌%◌, ◌^◌, ◌≤◌, ◌<◌, ◌≡◌, refl, arith}
use corelib_cpp.Common.{List, [], ◌∷◌, ◌++◌, bit_and, ap, ◌∙◌, sym}
use corelib_cpp.Common.{length, take, drop, get_or, All, inl, inr, false, lt_or_ge}
use corelib_cpp.Common.{length-append, take_front}
use corelib_cpp.Common.{get_or-append, drop_past, ◌==◌}
use corelib_cpp.Common.{lt→ltb}
use corelib_cpp.Common.Bits.{bit_and_mask, bit_and_window, bit_or_low}
use corelib_cpp.Common.Bytes.{IsByte, from_le}
use corelib_cpp.Word.{not64}
use corelib_cpp.Word.Gather.{from_groups}
use corelib_cpp.Varint.{Read, got, overflow, countr_zero}
use corelib_cpp.Varint.{windowed_word, window_tail}
use corelib_cpp.Varint.Spec.{parse, under}
use corelib_cpp.Varint.Masks.{gather7-from_groups, gather7-masked}
use corelib_cpp.Varint.Window.{first_clear, first_clear-le, tops, complement_tops, first_clear_at}
use corelib_cpp.Varint.Window.{tops-zero, tops-ne-zero, parse-clear}
use native.Mathlib.Nat.{pow-suc}

first_clear-append :
    (qs r : List ℕ) → first_clear qs < length qs → first_clear (qs ++ r) ≡ first_clear qs
unfolding first_clear
first_clear-append [] r h = absurd (omega arith)
first_clear-append (b ∷ qs) r h = ground (arith, first_clear-append qs r)

-- Groups that all continue, over what is read behind them.
unders : List ℕ → Read → Read
unders [] r = r
unders (q ∷ qs) r = under (q % 128) (unders qs r)

parse-through :
    (qs p : List ℕ) (k : ℕ)
    → first_clear qs ≡ length qs
    → parse (suc (length qs + k)) (qs ++ p) ≡ unders qs (parse (suc k) p)
unfolding first_clear parse unders
parse-through [] p k h = ap (λ t. parse (suc t) p) (omega arith)
parse-through (q ∷ qs) p k h =
    let e : suc (length qs) + k ≡ suc (length qs + k) = omega arith in
    ap (λ t. parse (suc t) (q ∷ (qs ++ p))) e
    ∙ ground (arith, first_clear-le qs, parse-through qs p k)

unders-got :
    (qs : List ℕ) (v : ℕ) (r : List ℕ)
    → unders qs (got v r) ≡ got (from_groups qs + 128 ^ length qs * v) r
unfolding unders
unders-got [] v r = ap (λ t. got t r) (omega arith)
unders-got (q ∷ qs) v r =
    rw (unders-got qs v r)
      (ap (λ t. got t r) (omega (arith, ap (λ t. t * v) (pow-suc 128 (length qs)))))

unders-overflow : (qs r : List ℕ) → unders qs (overflow r) ≡ overflow r
unfolding unders
unders-overflow [] r = refl
unders-overflow (q ∷ qs) r = rw (unders-overflow qs r)

-- The complement of the loaded word keeps a bit for each byte below 128.
pub term-tops :
    (qs : List ℕ)
    → length qs ≡ 8
    → All IsByte qs
    → bit_and (not64 (from_le qs)) 0x8080808080808080 ≡ from_le (tops qs)
term-tops qs l k = rw l at (complement_tops qs k)

-- The test of the first byte, and what it then returns.
pub low_byte :
    (b r : ℕ)
    → b < 256
    → (bit_and (b + 256 * r) 0x80 ≡ b / 128 * 128) × (bit_and (b + 256 * r) 0xff ≡ b)
low_byte b r h =
    (bit_and_window (b + 256 * r) 7 1 ∙ omega arith, bit_and_mask 8 (b + 256 * r) ∙ omega arith)

-- The last two bytes of a windowed read.
window_tail-parse :
    (qs : List ℕ) (b8 b9 : ℕ) (r : List ℕ)
    → length qs ≡ 8
    → b8 < 256
    → b9 < 256
    → from_groups qs < 2 ^ 56
    → window_tail (from_groups qs) (qs ++ (b8 ∷ b9 ∷ r)) ≡ unders qs (parse 2 (b8 ∷ b9 ∷ r))
unfolding window_tail parse
window_tail-parse qs b8 b9 r l h8 h9 fits =
    rw (g8, g9, d9, d10)
      (ground (
        arith,
        bit_and_window b8 7 1,
        bit_and_mask 7 b8,
        bit_or_low 56 (b8 % 128) (from_groups qs) fits,
        bit_or_low 63 b9 (from_groups qs + 2 ^ 56 * (b8 % 128)),
        unders-got qs b8 (b9 ∷ r),
        unders-got qs (b8 % 128 + 128 * b9) r,
        unders-overflow qs r,
        ap (λ t. 128 ^ t) l,
      ))
  where
    whole : List ℕ
    whole = qs ++ (b8 ∷ b9 ∷ r)

    place : (n i : ℕ) → n ≡ length qs + i → n ≡ length qs + i
    place n i e = e

    g8 : get_or whole 8 0 ≡ b8
    g8 = ap (λ t. get_or whole t 0) (place 8 0 (omega arith)) ∙ get_or-append qs (b8 ∷ b9 ∷ r) 0 0

    g9 : get_or whole 9 0 ≡ b9
    g9 = ap (λ t. get_or whole t 0) (place 9 1 (omega arith)) ∙ get_or-append qs (b8 ∷ b9 ∷ r) 1 0

    d9 : drop 9 whole ≡ b9 ∷ r
    d9 = ap (λ t. drop t whole) (place 9 1 (omega arith)) ∙ drop_past qs (b8 ∷ b9 ∷ r) 1

    d10 : drop 10 whole ≡ r
    d10 = ap (λ t. drop t whole) (place 10 2 (omega arith)) ∙ drop_past qs (b8 ∷ b9 ∷ r) 2

pub is_zero-pos : (x : ℕ) → 0 < x → (x == 0) ≡ false
is_zero-pos x h = ground arith

-- The word of eight bytes `b ∷ bs`, with `s` behind them.
module _ (b : ℕ) (bs s : List ℕ) (l : length (b ∷ bs) ≡ 8) (k : All IsByte (b ∷ bs)) where
  qs : List ℕ
  qs = b ∷ bs

  first_byte : bit_and (from_le qs) 0x80 ≡ b / 128 * 128
  unfolding qs
  first_byte = (low_byte b (from_le bs) k.0).0

  word-first : b < 128 → windowed_word (from_le qs) (qs ++ s) ≡ parse 10 (qs ++ s)
  unfolding qs windowed_word parse
  word-first h =
      let clear : b / 128 * 128 ≡ 0 = omega arith in
      rw (first_byte ∙ clear, (low_byte b (from_le bs) k.0).1, lt→ltb b 128 h)

  word-clear :
      128 ≤ b → first_clear qs < 8 → windowed_word (from_le qs) (qs ++ s) ≡ parse 10 (qs ++ s)
  unfolding windowed_word
  word-clear m h =
      rw
        (
          first_byte,
          is_zero-pos (b / 128 * 128) (omega arith),
          term-tops qs size bytes,
          is_zero-pos (from_le (tops qs)) some_top,
          count,
          gather7-masked qs (suc (first_clear qs)) size bytes (omega arith) h,
        )
        (ap (λ t. got (from_groups t) (drop (suc (first_clear qs)) (qs ++ s))) (sym front)
          ∙ sym reads)
    where
      size : length qs ≡ 8
      size = unfold qs in l

      bytes : All IsByte qs
      bytes = unfold qs in k

      some_top : 0 < from_le (tops qs)
      some_top = tops-ne-zero qs (omega (arith, size))

      count : (countr_zero 64 (from_le (tops qs))) / 8 + 1 ≡ suc (first_clear qs)
      count =
          let wide : 64 ≡ 8 * length qs = omega (arith, size) in
          let at : countr_zero 64 (from_le (tops qs)) ≡ 8 * first_clear qs + 7 =
            ap (λ t. countr_zero t (from_le (tops qs))) wide
            ∙ first_clear_at qs (omega (arith, size)) in
          omega (arith, at)

      place : first_clear (qs ++ s) ≡ first_clear qs
      place = first_clear-append qs s (omega (arith, size))

      front : take (suc (first_clear qs)) (qs ++ s) ≡ take (suc (first_clear qs)) qs
      front = take_front (suc (first_clear qs)) qs s (omega (arith, size))

      reads :
          parse 10 (qs ++ s)
          ≡ got
              (from_groups (take (suc (first_clear qs)) (qs ++ s)))
              (drop (suc (first_clear qs)) (qs ++ s))
      reads = rw place at (
          parse-clear (qs ++ s) 9 (omega (arith, place, size, length-append qs s))
            (omega (arith, place)))

  word-full :
      first_clear qs ≡ 8
      → windowed_word (from_le qs) (qs ++ s) ≡ window_tail (from_groups qs) (qs ++ s)
  unfolding windowed_word
  word-full h =
      let size : length qs ≡ 8 = unfold qs in l in
      let bytes : All IsByte qs = unfold qs in k in
      let none_clear : from_le (tops qs) ≡ 0 = tops-zero qs (omega (arith, size)) in
      let high : 128 ≤ b = unfold qs first_clear in ground arith in
      rw (
        first_byte,
        is_zero-pos (b / 128 * 128) (omega arith),
        term-tops qs size bytes,
        none_clear,
        gather7-from_groups qs size bytes,
      )

from_groups-lt : (bs : List ℕ) → from_groups bs < 128 ^ length bs
from_groups-lt [] = omega arith
from_groups-lt (b ∷ bs) = omega (arith, pow-suc 128 (length bs), from_groups-lt bs)

pub word-parse :
    (b : ℕ) (bs : List ℕ) (b8 b9 : ℕ) (r : List ℕ)
    → length (b ∷ bs) ≡ 8
    → All IsByte (b ∷ bs)
    → b8 < 256
    → b9 < 256
    → windowed_word (from_le (b ∷ bs)) ((b ∷ bs) ++ (b8 ∷ b9 ∷ r))
      ≡ parse 10 ((b ∷ bs) ++ (b8 ∷ b9 ∷ r))
unfolding qs
word-parse b bs b8 b9 r l k h8 h9 = elim (lt_or_ge b 128) [
  | inl clear ↦ word-first b bs (b8 ∷ b9 ∷ r) l k clear
  | inr marked ↦ elim (lt_or_ge (first_clear (b ∷ bs)) 8) [
    | inl early ↦ word-clear b bs (b8 ∷ b9 ∷ r) l k marked early
    | inr late ↦
        let full : first_clear (b ∷ bs) ≡ length (b ∷ bs) =
          omega (arith, first_clear-le (b ∷ bs)) in
        let fits : from_groups (b ∷ bs) < 2 ^ 56 = rw l at (from_groups-lt (b ∷ bs)) in
        let nine : length (b ∷ bs) + 1 ≡ 9 = omega arith in
        word-full b bs (b8 ∷ b9 ∷ r) l k (full ∙ l)
        ∙ window_tail-parse (b ∷ bs) b8 b9 r l h8 h9 fits
        ∙ sym (parse-through (b ∷ bs) (b8 ∷ b9 ∷ r) 1 full)
        ∙ ap (λ t. parse (suc t) ((b ∷ bs) ++ (b8 ∷ b9 ∷ r))) nine
  ]
]
