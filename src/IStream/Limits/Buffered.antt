-- ===== src/IStream/Limits/Buffered.antt =====
-- The receiver's limit on a field: where capCannotFire holds.
use corelib_cpp.Common.{ℕ, ◌+◌, ◌^◌, ◌≤◌, ◌<◌, ◌≡◌, arith, true, false}
use native.Mathlib.Nat.{mul-le-mul}
use corelib_cpp.Wire.{Wire, fixlen_max, array_max}
use corelib_cpp.IStream.{IStream, spanned}
use corelib_cpp.IStream.Limits.{
  cap_cannot_fire, exceeds_buffer, exceeds_buffer_at_header, cap_need_max, payload_need,
}

exceeds_buffer-cap :
    (n consumed need : ℕ) (s : IStream)
    → s.span_carry < 2 ^ 64
    → n < 2 ^ 64
    → cap_cannot_fire n s ≡ true
    → consumed ≤ s.span_carry + n
    → need ≤ cap_need_max
    → exceeds_buffer consumed need s ≡ false
unfolding cap_cannot_fire exceeds_buffer
exceeds_buffer-cap n consumed need s c h e k l = ground arith

payload_need-le :
    (w : Wire) (s : IStream)
    → s.fix_len ≤ fixlen_max
    → s.count ≤ array_max
    → payload_need w s ≤ cap_need_max
payload_need-le Wire.array_fixlen s f c = mul-le-mul c f
payload_need-le w s f c = ground arith

-- With the bytes that a field has spanned below 2 ^ 64, a fed size below 2 ^ 64, the length and
-- count in range, and no more spanned than was carried and fed, the test of the receiver's limit
-- refuses no header where capCannotFire holds of that size.
pub exceeds_buffer_at_header-cap :
    (n : ℕ) (s : IStream)
    → s.span_carry < 2 ^ 64
    → n < 2 ^ 64
    → s.fix_len ≤ fixlen_max
    → s.count ≤ array_max
    → spanned s ≤ s.span_carry + n
    → cap_cannot_fire n s ≡ true
    → exceeds_buffer_at_header s ≡ false
unfolding exceeds_buffer_at_header
exceeds_buffer_at_header-cap n s c h f k l e =
    exceeds_buffer-cap n (spanned s) (payload_need s.type s) s c h e l
      (payload_need-le s.type s f k)
