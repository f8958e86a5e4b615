-- ===== src/Zigzag.antt =====
-- include/sofab/sofab.hpp, zigzagEncode and zigzagDecode: the sign moved to the lowest bit. An
-- `int64_t` is an integer; its casts to and from `uint64_t` are two's complement.
pub mod Laws
use corelib_cpp.Common.{ℕ, ◌+◌, ◌-◌, ◌/◌, ◌%◌, ◌^◌, bit_and, bit_xor, ltb, if◌then◌else◌}
use corelib_cpp.Common.Int.{ℤ, pos, negsuc}
use corelib_cpp.Word.{u64, shl64, shr, not64}

-- `static_cast<uint64_t>` of an `int64_t`, and the cast back.
abbrev pub cast_u64 : ℤ → ℕ
cast_u64 (pos n) = n % 2 ^ 64
cast_u64 (negsuc n) = 2 ^ 64 - 1 - n % 2 ^ 64

abbrev pub cast_i64 : ℕ → ℤ
cast_i64 w = if ltb w (2 ^ 63) then pos w else negsuc (2 ^ 64 - 1 - w)

-- `>>` of a signed integer rounds towards minus infinity.
abbrev pub sar : ℤ → ℕ → ℤ
sar (pos n) k = pos (n / 2 ^ k)
sar (negsuc n) k = negsuc (n / 2 ^ k)

unfoldable pub zigzag_encode : ℤ → ℕ
zigzag_encode v = bit_xor (shl64 (cast_u64 v) 1) (cast_u64 (sar v 63))

unfoldable pub zigzag_decode : ℕ → ℤ
zigzag_decode u = cast_i64 (bit_xor (shr u 1) (u64 (not64 (bit_and u 1) + 1)))
