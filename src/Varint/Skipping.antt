-- ===== src/Varint/Skipping.antt =====
-- `skipVarint`, compared with `getVarint`.
use corelib_cpp.Common.{ℕ, zero, suc, ◌*◌, ◌/◌, ◌%◌, ◌≤◌, ◌<◌, ◌≡◌, refl, arith}
use corelib_cpp.Common.{List, [], ◌∷◌, ◌++◌, bit_and, ap, ◌∙◌, sym}
use corelib_cpp.Common.{length, take, All, All-front, inl, inr, lt_or_ge}
use corelib_cpp.Common.{lt→ltb, ge→ltb, le→leb, gt→leb}
use corelib_cpp.Common.Bits.{bit_and_window}
use corelib_cpp.Common.Bytes.{IsByte, from_le}
use corelib_cpp.Word.{Endian, load_little64}
use corelib_cpp.Word.Endianness.{load_little64_lem}
use corelib_cpp.Varint.{Read, got, overflow, cut, Skip, skipped, get_varint_windowed}
use corelib_cpp.Varint.{skip_varint_windowed, skip_varint_loop, skip_varint_slow, skip_varint}
use corelib_cpp.Varint.{countr_zero, get_varint}
use corelib_cpp.Varint.Spec.{parse, under}
use corelib_cpp.Varint.Window.{tops, first_clear, first_clear_at, tops-ne-zero}
use corelib_cpp.Varint.Windowed.{term-tops, is_zero-pos, low_byte}
use corelib_cpp.Varint.Decode.{get_varint_windowed-parse, get_varint-parse}

-- A read with its value forgotten.
abbrev pub skim : Read → Skip
skim (got v rest) = skipped rest
skim (overflow rest) = Skip.overflow rest
skim cut = Skip.cut

skim-under : (g : ℕ) (r : Read) → skim (under g r) ≡ skim r
skim-under g (got v rest) = refl
skim-under g (overflow rest) = refl
skim-under g cut = refl

skip_varint_loop-parse :
    (p : List ℕ) (k : ℕ) → length p ≤ k → All IsByte p → skip_varint_loop p ≡ skim (parse (suc k) p)
unfolding skip_varint_loop parse
skip_varint_loop-parse [] k l h = refl
skip_varint_loop-parse (b ∷ p) zero l h = absurd (omega arith)
skip_varint_loop-parse (b ∷ p) (suc k) l h = ground (
  arith,
  bit_and_window b 7 1,
  skim-under (b % 128) (parse (suc k) p),
  skip_varint_loop-parse p k,
)

-- A first byte below 128 is what the skip finds first.
first_stop :
    (b : ℕ) (bs : List ℕ)
    → length (b ∷ bs) ≡ 8
    → b < 128
    → (0 < from_le (tops (b ∷ bs))) × (countr_zero 64 (from_le (tops (b ∷ bs))) ≡ 7)
first_stop b bs l h =
    let at : first_clear (b ∷ bs) ≡ 0 = unfold first_clear in ground arith in
    let wide : 64 ≡ 8 * length (b ∷ bs) = omega arith in
    (
      tops-ne-zero (b ∷ bs) (omega arith),
      ap (λ t. countr_zero t (from_le (tops (b ∷ bs)))) wide
          ∙ first_clear_at (b ∷ bs) (omega arith)
          ∙ omega arith,
    )

skip_varint_windowed-skim :
    (e : Endian) (b : ℕ) (bs s : List ℕ)
    → length (b ∷ bs) ≡ 8
    → All IsByte (b ∷ bs)
    → load_little64 e (take 8 (b ∷ (bs ++ s))) ≡ from_le (b ∷ bs)
    → skip_varint_windowed e (b ∷ (bs ++ s)) ≡ skim (get_varint_windowed e (b ∷ (bs ++ s)))
unfolding skip_varint_windowed get_varint_windowed
skip_varint_windowed-skim e b bs s l k loaded =
    let test : bit_and (from_le (b ∷ bs)) 0x80 ≡ b / 128 * 128 = (low_byte b (from_le bs) k.0).0 in
    rw (loaded, term-tops (b ∷ bs) l k, test)
      (elim (lt_or_ge b 128) [
        | inl one ↦
            let zeroed : b / 128 * 128 ≡ 0 = omega arith in
            let (some_top, seven) = first_stop b bs l one in
            rw (zeroed, is_zero-pos (from_le (tops (b ∷ bs))) some_top, seven)
        | inr more ↦ rw (is_zero-pos (b / 128 * 128) (omega arith)) (ground arith)
      ])

pub skip_varint_windowed-get_varint_windowed :
    (e : Endian) (p : List ℕ)
    → 10 ≤ length p
    → All IsByte p
    → skip_varint_windowed e p ≡ skim (get_varint_windowed e p)
skip_varint_windowed-get_varint_windowed e (b0 ∷ b1 ∷ b2 ∷ b3 ∷ b4 ∷ b5 ∷ b6 ∷ b7 ∷ s) l h =
    let front = b0 ∷ b1 ∷ b2 ∷ b3 ∷ b4 ∷ b5 ∷ b6 ∷ b7 ∷ [] in
    let bytes : All IsByte front = All-front IsByte front s h in
    skip_varint_windowed-skim e b0 (b1 ∷ b2 ∷ b3 ∷ b4 ∷ b5 ∷ b6 ∷ b7 ∷ []) s refl bytes
      (load_little64_lem e front refl bytes)
skip_varint_windowed-get_varint_windowed e p l h = absurd (omega arith)

skip_varint_slow-parse :
    (e : Endian) (p : List ℕ) → All IsByte p → skip_varint_slow e p ≡ skim (parse 10 p)
unfolding skip_varint_slow
skip_varint_slow-parse e p k = elim (lt_or_ge (length p) 10) [
  | inl short ↦ rw (gt→leb 10 (length p) short) (skip_varint_loop-parse p 9 (omega arith) k)
  | inr long ↦ rw (le→leb 10 (length p) long) (
      skip_varint_windowed-get_varint_windowed e p long k
      ∙ ap skim (get_varint_windowed-parse e p long k))
]

-- On any bytes and either kind of host, skipping a varint ends where reading it ends, in the same
-- one of the three outcomes.
pub skip_varint-get_varint :
    (e : Endian) (p : List ℕ) → All IsByte p → skip_varint e p ≡ skim (get_varint e p)
skip_varint-get_varint e p k = skips p k ∙ ap skim (sym (get_varint-parse e p k))
  where
    skips : (p : List ℕ) → All IsByte p → skip_varint e p ≡ skim (parse 10 p)
    skips [] k = unfold skip_varint in skip_varint_slow-parse e [] k
    skips (b ∷ p) k = elim (lt_or_ge b 128) [
      | inl one ↦ unfold skip_varint parse in rw (lt→ltb b 128 one) (ground arith)
      | inr more ↦ unfold skip_varint in rw (ge→ltb b 128 more) (skip_varint_slow-parse e (b ∷ p) k)
    ]
