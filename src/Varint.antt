-- ===== src/Varint.antt =====
-- include/sofab/sofab.hpp, OStreamImpl::encodeVarint and encodeVarintPadded, and
-- IStreamImpl::getVarint, skipVarint and their windowed forms. A pointer into a buffer is the list
-- of the bytes that stand from it on.
pub mod Spec
pub mod Encode
pub mod Padded
pub mod Window
pub mod Masks
pub mod Windowed
pub mod Decode
pub mod Skipping
pub mod RoundTrip
pub mod Behind
use corelib_cpp.Common.{
  ℕ, zero, suc, ◌+◌, ◌-◌, ◌*◌, ◌/◌, ◌%◌, ◌^◌, ◌≤◌, ◌<◌, bit_and, bit_or, arith,
}
use corelib_cpp.Common.{List, [], ◌∷◌, ◌++◌, Bool, true, false, ltb, leb, ◌==◌, if◌then◌else◌}
use corelib_cpp.Common.{length, get_or, set, take, drop}
use corelib_cpp.Common.Order.{lt_wf}
use corelib_cpp.Word.{
  Endian, u64, shl64, shr, not64, store_little64, load_little64, spread7, gather7,
}
use corelib_cpp.Wire.{varint_max_bytes}
use mathlib.Core.Logic.{dite}
use mathlib.Core.WellFounded.{Acc}
use native.Mathlib.Decide.{dec_le}

pub shift_shrinks : (v : ℕ) → 0x80 ≤ v → shr v 7 < v
shift_shrinks v h = omega arith

-- The bytes that the loop stores through `*p++`.
unfoldable pub encode_varint_loop : (v : ℕ) → Acc ◌<◌ v → List ℕ
encode_varint_loop v (Acc.intro _ smaller) =
    dite (dec_le 0x80 v)
      (λ more.
        bit_or (v % 256) 0x80 % 256
        ∷ encode_varint_loop (shr v 7) (smaller _ (shift_shrinks v more)))
      (λ _. v % 256 ∷ [])

unfoldable pub encode_varint : ℕ → List ℕ
unfolding encode_varint_loop lt_wf dec_le
encode_varint v = encode_varint_loop v (lt_wf.apply v)

-- `std::countl_zero` and `std::countr_zero` of a word of `k` bits.
unfoldable pub countl_zero : ℕ → ℕ → ℕ
countl_zero zero w = 0
countl_zero (suc k) w = if leb (2 ^ k) w then 0 else 1 + countl_zero k w

unfoldable pub countr_zero : ℕ → ℕ → ℕ
countr_zero zero w = 0
countr_zero (suc k) w = if w % 2 == 1 then 0 else 1 + countr_zero k (w / 2)

-- How many bytes a value of at least 0x80 takes, from its bit width.
unfoldable pub padded_length : ℕ → ℕ
padded_length v = let bits = 64 - countl_zero 64 v in shr (bits * 9 + 64) 6

-- The ten bytes stored from `out` on, each with its top bit set but the tenth.
unfoldable pub padded_bytes : Endian → ℕ → List ℕ
padded_bytes e v =
    store_little64 e (bit_or (spread7 v) 0x8080808080808080)
    ++ (bit_or (bit_and (shr v 56 % 256) 0x7f) 0x80 % 256 ∷ shr v 63 % 256 ∷ [])

-- The bytes stored from `out` on, scratch bytes included, and the length that is returned.
unfoldable pub encode_varint_padded : Endian → ℕ → List ℕ × ℕ
encode_varint_padded e v =
    let n = padded_length v in
    let stored = padded_bytes e v in
    if ltb v 0x80
    then (v % 256 ∷ [], 1)
    else (set stored (n - 1) (bit_and (get_or stored (n - 1) 0) 0x7f % 256), n)

-- What a varint read leaves: the value and the bytes behind it; the same with the overflow flag
-- raised; or `cut`, a varint that the bytes end inside, which moves no pointer.
pub data Read : Type 0 where
  got : ℕ → List ℕ → Read
  overflow : List ℕ → Read
  cut : Read

-- The ninth and tenth byte of a windowed read, behind eight bytes that gave `v`.
unfoldable pub window_tail : ℕ → List ℕ → Read
window_tail v p =
    let b8 = get_or p 8 0 in
    let v8 = bit_or v (shl64 (bit_and b8 0x7f) 56) in
    let b9 = get_or p 9 0 in
    if bit_and b8 0x80 == 0
    then got v8 (drop 9 p)
    else if ltb 1 b9
    then overflow (drop 10 p)
    else got (bit_or v8 (shl64 b9 63)) (drop 10 p)

-- `getVarintWindowed` behind the load of its word.
unfoldable pub windowed_word : ℕ → List ℕ → Read
unfolding window_tail
windowed_word w p =
    let term = bit_and (not64 w) 0x8080808080808080 in
    let len = shr (countr_zero 64 term) 3 + 1 in
    if bit_and w 0x80 == 0
    then got (bit_and w 0xff) (drop 1 p)
    else if term == 0
    then window_tail (gather7 w) p
    else got (gather7 (bit_and w (shr (not64 0) (64 - 8 * len)))) (drop len p)

-- `getVarintWindowed`, at a pointer with `varint_max_bytes` bytes behind it at least.
unfoldable pub get_varint_windowed : Endian → List ℕ → Read
unfolding windowed_word
get_varint_windowed e p = windowed_word (load_little64 e (take 8 p)) p

-- The loop over fewer than `varint_max_bytes` bytes: shifts stay below 63.
unfoldable pub get_varint_loop : ℕ → ℕ → List ℕ → Read
get_varint_loop v shift [] = cut
get_varint_loop v shift (b ∷ q) =
    let v' = bit_or v (shl64 (bit_and b 0x7f) shift) in
    let more = get_varint_loop v' (shift + 7) q in if bit_and b 0x80 == 0 then got v' q else more

-- Neither pointer can be moved into the buffer's end: behind the first test `end - p` decides.
unfoldable pub get_varint_slow : Endian → List ℕ → Read
unfolding get_varint_windowed get_varint_loop
get_varint_slow e p =
    if leb varint_max_bytes (length p) then get_varint_windowed e p else get_varint_loop 0 0 p

unfoldable pub get_varint : Endian → List ℕ → Read
unfolding get_varint_slow
get_varint e [] = get_varint_slow e []
get_varint e (b ∷ p) = if ltb b 0x80 then got b p else get_varint_slow e (b ∷ p)

-- What a skipped varint leaves.
pub data Skip : Type 0 where
  skipped : List ℕ → Skip
  overflow : List ℕ → Skip
  cut : Skip

unfoldable pub skip_varint_windowed : Endian → List ℕ → Skip
skip_varint_windowed e p =
    let term = bit_and (not64 (load_little64 e (take 8 p))) 0x8080808080808080 in
    if term == 0
    then (if bit_and (get_or p 8 0) 0x80 == 0
        then skipped (drop 9 p)
        else if ltb 1 (get_or p 9 0)
        then Skip.overflow (drop 10 p)
        else skipped (drop 10 p))
    else skipped (drop (shr (countr_zero 64 term) 3 + 1) p)

unfoldable pub skip_varint_loop : List ℕ → Skip
skip_varint_loop [] = Skip.cut
skip_varint_loop (b ∷ q) =
    let more = skip_varint_loop q in if bit_and b 0x80 == 0 then skipped q else more

unfoldable pub skip_varint_slow : Endian → List ℕ → Skip
unfolding skip_varint_windowed skip_varint_loop
skip_varint_slow e p =
    if leb varint_max_bytes (length p) then skip_varint_windowed e p else skip_varint_loop p

unfoldable pub skip_varint : Endian → List ℕ → Skip
unfolding skip_varint_slow
skip_varint e [] = skip_varint_slow e []
skip_varint e (b ∷ p) = if ltb b 0x80 then skipped p else skip_varint_slow e (b ∷ p)
