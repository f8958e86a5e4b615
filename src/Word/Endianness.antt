-- ===== src/Word/Endianness.antt =====
-- The accessors of memory on both kinds of host.
use corelib_cpp.Common.{ℕ, zero, suc, ◌+◌, ◌*◌, ◌/◌, ◌^◌, ◌<◌, ◌≡◌, refl, ◌∙◌, ap, sym, arith}
use corelib_cpp.Common.{bit_and, bit_or, List, [], ◌∷◌, length, All, length-reverse, All-reverse}
use corelib_cpp.Common.Bits.{bit_and_mask, bit_and_window, bit_or_high, bit_or_low}
use corelib_cpp.Common.Bytes.{IsByte, from_le, to_le, to_le-IsByte, from_le-to_le, to_le-from_le}
use corelib_cpp.Word.{Endian, little, big, shl64, shr, swap_bytes, store_little64, load_little64}
use corelib_cpp.Word.{store_bits_loop, store_little_bits, load_bits_loop, load_little_bits}
use native.Mathlib.Numerals.{towards_suc}
use mathlib.Core.List.{reverse, reverse-reverse}
use native.Mathlib.Nat.{div-div-eq-div-mul, one-le-pow, mul_comm, mul-le-mul_right}

-- One more byte under the ones that stand above bit `k`.
join : (k q r : ℕ) → r < 256 → bit_or (q * 2 ^ (k + 8)) (r * 2 ^ k) ≡ (q * 256 + r) * 2 ^ k
join k q r h =
    let wide : 2 ^ (k + 8) ≡ 256 * 2 ^ k = simp towards_suc (omega arith) in
    let below : r * 2 ^ k < 2 ^ (k + 8) = rw wide (grind (arith, one-le-pow k 2)) in
    bit_or_high (k + 8) q (r * 2 ^ k) below ∙ rw wide (omega arith)

swap_bytes-from_le :
    (a b c d e f g h : ℕ)
    → a < 256
    → b < 256
    → c < 256
    → d < 256
    → e < 256
    → f < 256
    → g < 256
    → h < 256
    → swap_bytes (from_le (a ∷ b ∷ c ∷ d ∷ e ∷ f ∷ g ∷ h ∷ []))
      ≡ from_le (h ∷ g ∷ f ∷ e ∷ d ∷ c ∷ b ∷ a ∷ [])
unfolding swap_bytes
swap_bytes-from_le a b c d e f g h ha hb hc hd he hf hg hh =
    rw
      (
        m0,
        m1,
        m2,
        m3,
        m4,
        m5,
        m6,
        m7,
        join 48 a b hb,
        join 40 (a * 256 + b) c hc,
        join 32 ((a * 256 + b) * 256 + c) d hd,
        join 24 (((a * 256 + b) * 256 + c) * 256 + d) e he,
        join 16 ((((a * 256 + b) * 256 + c) * 256 + d) * 256 + e) f hf,
        join 8 (((((a * 256 + b) * 256 + c) * 256 + d) * 256 + e) * 256 + f) g hg,
        bit_or_high 8 ((((((a * 256 + b) * 256 + c) * 256 + d) * 256 + e) * 256 + f) * 256 + g) h
            hh,
      )
      (omega arith)
  where
    w : ℕ
    w = from_le (a ∷ b ∷ c ∷ d ∷ e ∷ f ∷ g ∷ h ∷ [])

    m0 : shl64 (bit_and w 0x00000000000000FF) 56 ≡ a * 2 ^ 56
    m0 = ap (λ t. shl64 t 56) (bit_and_mask 8 w) ∙ omega arith

    m1 : shl64 (bit_and w 0x000000000000FF00) 40 ≡ b * 2 ^ 48
    m1 = ap (λ t. shl64 t 40) (bit_and_window w 8 8) ∙ omega arith

    m2 : shl64 (bit_and w 0x0000000000FF0000) 24 ≡ c * 2 ^ 40
    m2 = ap (λ t. shl64 t 24) (bit_and_window w 16 8) ∙ omega arith

    m3 : shl64 (bit_and w 0x00000000FF000000) 8 ≡ d * 2 ^ 32
    m3 = ap (λ t. shl64 t 8) (bit_and_window w 24 8) ∙ omega arith

    m4 : shr (bit_and w 0x000000FF00000000) 8 ≡ e * 2 ^ 24
    m4 = ap (λ t. shr t 8) (bit_and_window w 32 8) ∙ omega arith

    m5 : shr (bit_and w 0x0000FF0000000000) 24 ≡ f * 2 ^ 16
    m5 = ap (λ t. shr t 24) (bit_and_window w 40 8) ∙ omega arith

    m6 : shr (bit_and w 0x00FF000000000000) 40 ≡ g * 2 ^ 8
    m6 = ap (λ t. shr t 40) (bit_and_window w 48 8) ∙ omega arith

    m7 : shr (bit_and w 0xFF00000000000000) 56 ≡ h
    m7 = ap (λ t. shr t 56) (bit_and_window w 56 8) ∙ omega arith

-- The swap is the reversal of the eight bytes.
pub swap_bytes_lem :
    (bs : List ℕ) → length bs ≡ 8 → All IsByte bs → swap_bytes (from_le bs) ≡ from_le (reverse bs)
swap_bytes_lem (a ∷ b ∷ c ∷ d ∷ e ∷ f ∷ g ∷ h ∷ []) l k =
    swap_bytes-from_le a b c d e f g h k.0 k.1.0 k.1.1.0 k.1.1.1.0 k.1.1.1.1.0 k.1.1.1.1.1.0
      k.1.1.1.1.1.1.0 k.1.1.1.1.1.1.1.0
swap_bytes_lem bs l k = absurd (omega arith)

-- Memory holds the low byte first on either host.
pub store_little64_lem : (e : Endian) (w : ℕ) → w < 2 ^ 64 → store_little64 e w ≡ to_le 8 w
unfolding store_little64
store_little64_lem little w h = refl
store_little64_lem big w h =
    ap (λ v. reverse (to_le 8 (swap_bytes v))) (sym (from_le-to_le 8 w h))
    ∙ ap (λ v. reverse (to_le 8 v)) (swap_bytes_lem (to_le 8 w) refl (to_le-IsByte 8 w))
    ∙ ap reverse
        (to_le-from_le (reverse (to_le 8 w)) (All-reverse IsByte (to_le 8 w) (to_le-IsByte 8 w)))
    ∙ reverse-reverse (to_le 8 w)

pub load_little64_lem :
    (e : Endian) (bs : List ℕ) → length bs ≡ 8 → All IsByte bs → load_little64 e bs ≡ from_le bs
unfolding load_little64
load_little64_lem little bs l h = refl
load_little64_lem big bs l h =
    swap_bytes_lem (reverse bs) (length-reverse bs ∙ l) (All-reverse IsByte bs h)
    ∙ ap from_le (reverse-reverse bs)

wider : (i : ℕ) → 2 ^ (8 * (i + 1)) ≡ 256 * 2 ^ (8 * i)
wider i =
    let e : 8 * (i + 1) ≡ 8 * i + 8 = omega arith in
    ap (λ t. 2 ^ t) e ∙ simp towards_suc (omega arith)

shr_byte : (i bits : ℕ) → bits / 2 ^ (8 * (i + 1)) ≡ bits / 2 ^ (8 * i) / 256
shr_byte i bits = rw wider (
    ap (λ t. bits / t) {x = 256 * 2 ^ (8 * i)} (mul_comm 256 (2 ^ (8 * i)))
    ∙ sym (div-div-eq-div-mul bits (2 ^ (8 * i)) 256))

store_bits_loop-to_le : (n i bits : ℕ) → store_bits_loop n i bits ≡ to_le n (bits / 2 ^ (8 * i))
unfolding store_bits_loop
store_bits_loop-to_le zero i bits = refl
store_bits_loop-to_le (suc n) i bits = ground (
  arith,
  bit_and_mask 8 (bits / 2 ^ (8 * i)),
  shr_byte i bits,
  store_bits_loop-to_le n (i + 1) bits,
)

load_bits_loop-from_le :
    (bs : List ℕ) (i bits : ℕ)
    → All IsByte bs
    → bits < 2 ^ (8 * i)
    → load_bits_loop i bs bits ≡ bits + from_le bs * 2 ^ (8 * i)
unfolding load_bits_loop
load_bits_loop-from_le [] i bits h k = omega arith
load_bits_loop-from_le (b ∷ bs) i bits h k = rw (bit_or_low (8 * i) b bits k) (
    load_bits_loop-from_le bs (i + 1) (b * 2 ^ (8 * i) + bits) h.1 below
    ∙ omega (arith, ap (λ t. from_le bs * t) (wider i)))
  where
    below : b * 2 ^ (8 * i) + bits < 2 ^ (8 * (i + 1))
    below = omega (arith, wider i, mul-le-mul_right (2 ^ (8 * i)) h.0)

-- On either kind of host, storing a float's bits leaves them in memory lowest byte first.
pub store_little_bits_lem : (e : Endian) (n bits : ℕ) → store_little_bits e n bits ≡ to_le n bits
unfolding store_little_bits
store_little_bits_lem little n bits = refl
store_little_bits_lem big n bits = store_bits_loop-to_le n 0 bits ∙ ap (to_le n) (omega arith)

-- On either kind of host, loading a float's bits reads the bytes in memory lowest first.
pub load_little_bits_lem :
    (e : Endian) (bs : List ℕ) → All IsByte bs → load_little_bits e bs ≡ from_le bs
unfolding load_little_bits
load_little_bits_lem little bs h = refl
load_little_bits_lem big bs h = load_bits_loop-from_le bs 0 0 h (omega arith) ∙ omega arith
