-- ===== src/Varint/Encode.antt =====
-- `encodeVarint`, compared with the format.
use corelib_cpp.Common.{ℕ, zero, suc, ◌+◌, ◌/◌, ◌%◌, ◌^◌, ◌<◌, ◌≡◌, refl, arith}
use corelib_cpp.Common.{bit_or}
use corelib_cpp.Common.Bits.{bit_or_fields, bit_or-zero}
use corelib_cpp.Varint.{encode_varint_loop, encode_varint}
use corelib_cpp.Varint.Spec.{groups_of, varint}
use corelib_cpp.Common.Order.{lt_wf}
use mathlib.Core.WellFounded.{Acc}
use native.Mathlib.Nat.{pow-suc}

or_one : (q : ℕ) → q < 2 → bit_or q 1 ≡ 1
or_one zero h = refl
or_one (suc zero) h = refl
or_one (suc (suc q)) h = absurd (omega arith)

-- The group with its continuation bit.
pub top_bit_set : (b : ℕ) → b < 256 → bit_or b 0x80 % 256 ≡ b % 128 + 128
top_bit_set b h =
    ground (arith, bit_or_fields 7 (b / 128) (b % 128) 1 0, or_one (b / 128), bit_or-zero (b % 128))

encode_varint_loop-groups_of :
    (k v : ℕ) (w : Acc ◌<◌ v) → v < 128 ^ suc k → encode_varint_loop v w ≡ groups_of k v
unfolding encode_varint_loop groups_of
encode_varint_loop-groups_of zero v (Acc.intro _ smaller) h = ground arith
encode_varint_loop-groups_of (suc k) v (Acc.intro _ smaller) h = grind (
  arith,
  top_bit_set (v % 256) (omega arith),
  λ (w : Acc ◌<◌ (v / 128)).
      encode_varint_loop-groups_of k (v / 128) w (omega (arith, pow-suc 128 (suc k))),
)

-- The encoder's loop writes the groups of seven bits of a 64-bit value, lowest first, each but
-- the last with its top bit set.
pub encode_varint-varint : (v : ℕ) → v < 2 ^ 64 → encode_varint v ≡ varint v
unfolding encode_varint varint
encode_varint-varint v h = encode_varint_loop-groups_of 9 v (lt_wf.apply v) (omega arith)
