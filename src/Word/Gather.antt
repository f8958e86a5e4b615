-- ===== src/Word/Gather.antt =====
-- `gather7` in plain arithmetic.
use corelib_cpp.Common.{ℕ, ◌+◌, ◌*◌, ◌/◌, ◌%◌, ◌^◌, ◌<◌, ◌≡◌, ◌∙◌, ap, arith, bit_and, bit_or}
use corelib_cpp.Common.{List, [], ◌∷◌}
use corelib_cpp.Common.Bits.{bit_and_mask, bit_and_window, bit_and_fields}
use corelib_cpp.Common.Bits.{bit_or_fields, bit_or_low}
use corelib_cpp.Common.Bytes.{from_le}
use corelib_cpp.Word.{shr, gather7}

-- The value of a sequence of groups of seven bits, lowest first. The top bit of a byte is dropped.
abbrev pub from_groups : List ℕ → ℕ
from_groups [] = 0
from_groups (b ∷ bs) = b % 128 + 128 * from_groups bs

-- The first pass on one, two and four fields of 16 bits.
module _ where
  keep1 : (x : ℕ) → x < 2 ^ 16 → bit_and x 0x007F ≡ x % 128
  keep1 x h = bit_and_mask 7 x

  move1 : (x : ℕ) → x < 2 ^ 16 → bit_and x 0x7F00 ≡ x / 256 % 128 * 256
  move1 x h = bit_and_window x 8 7

  keep1_two :
      (y x : ℕ)
      → y < 2 ^ 16
      → x < 2 ^ 16
      → bit_and (y * 2 ^ 16 + x) 0x007F007F ≡ y % 128 * 2 ^ 16 + x % 128
  keep1_two y x hy hx = ground (arith, bit_and_fields 16 y x 0x7F 0x7F, keep1 y, keep1 x)

  move1_two :
      (y x : ℕ)
      → y < 2 ^ 16
      → x < 2 ^ 16
      → bit_and (y * 2 ^ 16 + x) 0x7F007F00 ≡ y / 256 % 128 * 256 * 2 ^ 16 + x / 256 % 128 * 256
  move1_two y x hy hx = ground (arith, bit_and_fields 16 y x 0x7F00 0x7F00, move1 y, move1 x)

  join1_two :
      (s q t r : ℕ)
      → s < 128
      → q < 128
      → t < 128
      → r < 128
      → bit_or (s * 2 ^ 16 + q) (t * 128 * 2 ^ 16 + r * 128)
        ≡ (t * 128 + s) * 2 ^ 16 + (r * 128 + q)
  join1_two s q t r hs hq ht hr =
      ground (arith, bit_or_fields 16 s q (t * 128) (r * 128), bit_or_low 7 t s, bit_or_low 7 r q)

-- A field of two bytes, and what the pass makes of it.
abbrev pair7 : ℕ → ℕ
pair7 x = x / 256 % 128 * 128 + x % 128

pass1_two :
    (y x : ℕ)
    → y < 2 ^ 16
    → x < 2 ^ 16
    → bit_or (y % 128 * 2 ^ 16 + x % 128) (y / 256 % 128 * 128 * 2 ^ 16 + x / 256 % 128 * 128)
      ≡ pair7 y * 2 ^ 16 + pair7 x
pass1_two y x hy hx =
    join1_two (y % 128) (x % 128) (y / 256 % 128) (x / 256 % 128) (omega arith) (omega arith)
      (omega arith) (omega arith)

pass1 :
    (d c b a : ℕ)
    → d < 2 ^ 16
    → c < 2 ^ 16
    → b < 2 ^ 16
    → a < 2 ^ 16
    → let w = (d * 2 ^ 16 + c) * 2 ^ 32 + (b * 2 ^ 16 + a) in
      bit_or (bit_and w 0x007F007F007F007F) (shr (bit_and w 0x7F007F007F007F00) 1)
      ≡ (pair7 d * 2 ^ 16 + pair7 c) * 2 ^ 32 + (pair7 b * 2 ^ 16 + pair7 a)
pass1 d c b a hd hc hb ha = rw (
  bit_and_fields 32 (d * 2 ^ 16 + c) (b * 2 ^ 16 + a) 0x007F007F 0x007F007F (omega arith)
      (omega arith),
  bit_and_fields 32 (d * 2 ^ 16 + c) (b * 2 ^ 16 + a) 0x7F007F00 0x7F007F00 (omega arith)
      (omega arith),
  keep1_two d c hd hc,
  keep1_two b a hb ha,
  move1_two d c hd hc,
  move1_two b a hb ha,
  shifted,
  bit_or_fields 32 (d % 128 * 2 ^ 16 + c % 128) (b % 128 * 2 ^ 16 + a % 128)
      (d / 256 % 128 * 128 * 2 ^ 16 + c / 256 % 128 * 128)
      (b / 256 % 128 * 128 * 2 ^ 16 + a / 256 % 128 * 128) (omega arith) (omega arith),
  pass1_two d c hd hc,
  pass1_two b a hb ha,
)
  where
    shifted :
        shr
          ((d / 256 % 128 * 256 * 2 ^ 16 + c / 256 % 128 * 256) * 2 ^ 32
            + (b / 256 % 128 * 256 * 2 ^ 16 + a / 256 % 128 * 256))
          1
        ≡ (d / 256 % 128 * 128 * 2 ^ 16 + c / 256 % 128 * 128) * 2 ^ 32
          + (b / 256 % 128 * 128 * 2 ^ 16 + a / 256 % 128 * 128)
    shifted = omega arith

-- The second pass: four fields of 14 bits, one in each 16 bits, become two fields of 28 bits.
half2 :
    (y x : ℕ)
    → y < 2 ^ 14
    → x < 2 ^ 14
    → (bit_and (y * 2 ^ 16 + x) 0x00003FFF ≡ x) × (bit_and (y * 2 ^ 16 + x) 0x3FFF0000 ≡ y * 2 ^ 16)
half2 y x hy hx = (bit_and_mask 14 _ ∙ omega arith, bit_and_window _ 16 14 ∙ omega arith)

pass2 :
    (d c b a : ℕ)
    → d < 2 ^ 14
    → c < 2 ^ 14
    → b < 2 ^ 14
    → a < 2 ^ 14
    → let w = (d * 2 ^ 16 + c) * 2 ^ 32 + (b * 2 ^ 16 + a) in
      bit_or (bit_and w 0x00003FFF00003FFF) (shr (bit_and w 0x3FFF00003FFF0000) 2)
      ≡ (d * 2 ^ 14 + c) * 2 ^ 32 + (b * 2 ^ 14 + a)
pass2 d c b a hd hc hb ha = rw (
  bit_and_fields 32 (d * 2 ^ 16 + c) (b * 2 ^ 16 + a) 0x00003FFF 0x00003FFF (omega arith)
      (omega arith),
  bit_and_fields 32 (d * 2 ^ 16 + c) (b * 2 ^ 16 + a) 0x3FFF0000 0x3FFF0000 (omega arith)
      (omega arith),
  (half2 d c hd hc).0,
  (half2 b a hb ha).0,
  (half2 d c hd hc).1,
  (half2 b a hb ha).1,
  shifted,
  bit_or_fields 32 c a (d * 2 ^ 14) (b * 2 ^ 14) (omega arith) (omega arith),
  bit_or_low 14 d c hc,
  bit_or_low 14 b a ha,
)
  where
    shifted : shr (d * 2 ^ 16 * 2 ^ 32 + b * 2 ^ 16) 2 ≡ d * 2 ^ 14 * 2 ^ 32 + b * 2 ^ 14
    shifted = omega arith

pass3 :
    (b a : ℕ)
    → b < 2 ^ 28
    → a < 2 ^ 28
    → let w = b * 2 ^ 32 + a in
      bit_or (bit_and w 0x000000000FFFFFFF) (shr (bit_and w 0x0FFFFFFF00000000) 4) ≡ b * 2 ^ 28 + a
pass3 b a hb ha =
    rw (bit_and_mask 28 (b * 2 ^ 32 + a), bit_and_window (b * 2 ^ 32 + a) 32 28, low, high)
      (bit_or_low 28 b a ha)
  where
    low : (b * 2 ^ 32 + a) % 2 ^ 28 ≡ a
    low = omega arith

    high : shr ((b * 2 ^ 32 + a) / 2 ^ 32 % 2 ^ 28 * 2 ^ 32) 4 ≡ b * 2 ^ 28
    high = omega arith

-- The three passes on four fields of two bytes.
gather7_fields :
    (d c b a : ℕ)
    → d < 2 ^ 16
    → c < 2 ^ 16
    → b < 2 ^ 16
    → a < 2 ^ 16
    → gather7 ((d * 2 ^ 16 + c) * 2 ^ 32 + (b * 2 ^ 16 + a))
      ≡ (pair7 d * 2 ^ 14 + pair7 c) * 2 ^ 28 + (pair7 b * 2 ^ 14 + pair7 a)
unfolding gather7
gather7_fields d c b a hd hc hb ha = rw (
  pass1 d c b a hd hc hb ha,
  pass2 (pair7 d) (pair7 c) (pair7 b) (pair7 a) (omega arith) (omega arith) (omega arith)
      (omega arith),
  pass3 (pair7 d * 2 ^ 14 + pair7 c) (pair7 b * 2 ^ 14 + pair7 a) (omega arith) (omega arith),
)

-- Gathering a word of eight bytes joins their low seven bits, the lowest byte first.
pub gather7_lem :
    (a b c d e f g h : ℕ)
    → a < 256
    → b < 256
    → c < 256
    → d < 256
    → e < 256
    → f < 256
    → g < 256
    → h < 256
    → let bs = a ∷ b ∷ c ∷ d ∷ e ∷ f ∷ g ∷ h ∷ [] in gather7 (from_le bs) ≡ from_groups bs
gather7_lem a b c d e f g h ha hb hc hd he hf hg hh =
    ap gather7 fields
    ∙ gather7_fields (g + 256 * h) (e + 256 * f) (c + 256 * d) (a + 256 * b) (omega arith)
        (omega arith) (omega arith) (omega arith)
    ∙ omega arith
  where
    fields :
        from_le (a ∷ b ∷ c ∷ d ∷ e ∷ f ∷ g ∷ h ∷ [])
        ≡ ((g + 256 * h) * 2 ^ 16 + (e + 256 * f)) * 2 ^ 32
          + ((c + 256 * d) * 2 ^ 16 + (a + 256 * b))
    fields = omega arith
