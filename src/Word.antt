-- ===== src/Word.antt =====
-- include/sofab/sofab.hpp, namespace detail: 64-bit words and their bytes in memory, and the
-- two word-wide passes that spread a value into varint groups and gather it again.
pub mod Endianness
pub mod Spread
pub mod Gather
use corelib_cpp.Common.{ℕ, zero, suc, ◌+◌, ◌-◌, ◌*◌, ◌/◌, ◌%◌, ◌^◌, bit_and, bit_or}
use corelib_cpp.Common.{List, [], ◌∷◌}
use corelib_cpp.Common.Bytes.{from_le, to_le}
use mathlib.Core.List.{reverse}

-- `uint64_t` arithmetic. The right shift is `/`.
abbrev pub u64 : ℕ → ℕ
u64 x = x % 2 ^ 64

abbrev pub shl64 : ℕ → ℕ → ℕ
shl64 x k = u64 (x * 2 ^ k)

abbrev pub shr : ℕ → ℕ → ℕ
shr x k = x / 2 ^ k

abbrev pub not64 : ℕ → ℕ
not64 x = 2 ^ 64 - 1 - x

-- `std::endian::native`
pub data Endian : Type 0 where
  little big : Endian

-- `memcpy` between a word of `n` bytes and memory keeps the host's byte order.
unfoldable pub memcpy_out : Endian → ℕ → ℕ → List ℕ
memcpy_out little n w = to_le n w
memcpy_out big n w = reverse (to_le n w)

unfoldable pub memcpy_in : Endian → List ℕ → ℕ
memcpy_in little bs = from_le bs
memcpy_in big bs = from_le (reverse bs)

-- The byte swap that both 64-bit accessors spell out.
unfoldable pub swap_bytes : ℕ → ℕ
swap_bytes w =
    bit_or
      (bit_or
        (bit_or
          (bit_or
            (bit_or
              (bit_or
                (bit_or (shl64 (bit_and w 0x00000000000000FF) 56)
                  (shl64 (bit_and w 0x000000000000FF00) 40))
                (shl64 (bit_and w 0x0000000000FF0000) 24))
              (shl64 (bit_and w 0x00000000FF000000) 8))
            (shr (bit_and w 0x000000FF00000000) 8))
          (shr (bit_and w 0x0000FF0000000000) 24))
        (shr (bit_and w 0x00FF000000000000) 40))
      (shr (bit_and w 0xFF00000000000000) 56)

unfoldable pub store_little64 : Endian → ℕ → List ℕ
unfolding swap_bytes memcpy_out
store_little64 little w = memcpy_out little 8 w
store_little64 big w = memcpy_out big 8 (swap_bytes w)

unfoldable pub load_little64 : Endian → List ℕ → ℕ
unfolding swap_bytes memcpy_in
load_little64 little bs = memcpy_in little bs
load_little64 big bs = swap_bytes (memcpy_in big bs)

-- The loop `out[i] = (bits >> (8 * i)) & 0xff`, from index `i` with `n` rounds left.
unfoldable pub store_bits_loop : ℕ → ℕ → ℕ → List ℕ
store_bits_loop zero i bits = []
store_bits_loop (suc n) i bits =
    bit_and (shr bits (8 * i)) 0xff % 256 ∷ store_bits_loop n (i + 1) bits

-- `n` is `sizeof(U)`.
unfoldable pub store_little_bits : Endian → ℕ → ℕ → List ℕ
unfolding memcpy_out store_bits_loop
store_little_bits little n bits = memcpy_out little n bits
store_little_bits big n bits = store_bits_loop n 0 bits

-- The loop `bits |= static_cast<U>(in[i]) << (8 * i)`. A `U` of four or eight bytes holds each
-- shifted byte, since `i` is below `sizeof(U)`.
unfoldable pub load_bits_loop : ℕ → List ℕ → ℕ → ℕ
load_bits_loop i [] bits = bits
load_bits_loop i (b ∷ bs) bits = load_bits_loop (i + 1) bs (bit_or bits (b * 2 ^ (8 * i)))

unfoldable pub load_little_bits : Endian → List ℕ → ℕ
unfolding memcpy_in load_bits_loop
load_little_bits little bs = memcpy_in little bs
load_little_bits big bs = load_bits_loop 0 bs 0

-- Eight groups of seven bits, one moved into each byte.
unfoldable pub spread7 : ℕ → ℕ
spread7 v =
    let w0 = bit_and v 0x00FFFFFFFFFFFFFF in
    let w1 = bit_or (bit_and w0 0x000000000FFFFFFF) (shl64 (bit_and w0 0x00FFFFFFF0000000) 4) in
    let w2 = u64 (w1 + u64 (3 * bit_and w1 0x0FFFC0000FFFC000)) in
    u64 (w2 + bit_and w2 0x3F803F803F803F80)

-- The groups of eight bytes, pushed together.
unfoldable pub gather7 : ℕ → ℕ
gather7 w =
    let w1 = bit_or (bit_and w 0x007F007F007F007F) (shr (bit_and w 0x7F007F007F007F00) 1) in
    let w2 = bit_or (bit_and w1 0x00003FFF00003FFF) (shr (bit_and w1 0x3FFF00003FFF0000) 2) in
    bit_or (bit_and w2 0x000000000FFFFFFF) (shr (bit_and w2 0x0FFFFFFF00000000) 4)
