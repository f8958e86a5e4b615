-- ===== src/IStream/Elements.antt =====
-- IStreamImpl::readIntElements, the elements of an integer array with or without bounds.
pub mod Each
pub mod Reading
pub mod RoundTrip
pub mod Parts
pub mod Resume
use corelib_cpp.Common.{
  ℕ, zero, suc, ◌+◌, ◌-◌, ◌/◌, Bool, true, false, not, ltb, leb, ◌==◌, ◌&&◌, ◌||◌, if◌then◌else◌,
  min, Option, none, some, List, [], ◌∷◌, length, set,
}
use corelib_cpp.Common.Int.{ℤ, pos, negsuc}
use corelib_cpp.Word.{Endian}
use corelib_cpp.Wire.{varint_max_bytes}
use corelib_cpp.Zigzag.{cast_u64, zigzag_decode}
use corelib_cpp.Varint.{
  Read, got, overflow, cut, get_varint, get_varint_windowed, Skip, skipped, skip_varint,
  skip_varint_windowed,
}
use corelib_cpp.IStream.{IStream}
use corelib_cpp.IStream.Scalars.{Scalar, uint, sint, bool, Value, value_of}

-- `ElemBound`: the least and the greatest value.
abbrev pub Bounds : Type 0
Bounds = Option (ℤ × ℤ)

abbrev pub leb_int : ℤ → ℤ → Bool
leb_int (pos a) (pos b) = leb a b
leb_int (pos a) (negsuc b) = false
leb_int (negsuc a) (pos b) = true
leb_int (negsuc a) (negsuc b) = leb b a

-- The lambda `admits`.
unfoldable pub within : Scalar → ℤ × ℤ → ℕ → Bool
within (sint w) (lo, hi) raw = let v = zigzag_decode raw in leb_int lo v && leb_int v hi
within _ (lo, hi) raw = leb raw (cast_u64 hi) && (leb_int lo (pos 0) || leb (cast_u64 lo) raw)

unfoldable pub admits : Scalar → Bounds → ℕ → Bool
unfolding within
admits t none raw = true
admits t (some b) raw = within t b raw

-- A loop that stops hands on the stream and the elements; the flag says that it ran to its end.
abbrev pub Reads : Type 0
Reads = IStream × List Value × Bool

-- What one of the two loops does with an element: the windowed read, the checked read, the test, and
-- the store of the element of an index.
pub record Pass : Type 0 where
  pub windowed : List ℕ → Read
  pub checked : List ℕ → Read
  pub admit : ℕ → Bool
  pub put : ℕ → ℕ → List Value → List Value

-- The inner loop of `k` windowed reads.
unfoldable pub int_batch : Pass → ℕ → ℕ → List Value → IStream → Reads
int_batch q zero i dst s = (s, dst, true)
int_batch q (suc k) i dst s = elim (q.windowed s.p) [
  | got raw rest ↦ elim (q.admit raw) [
    | true ↦ int_batch q k (i + 1) (q.put i raw dst) (record s { p = rest })
    | false ↦ (record s { p = rest; error = true }, dst, false)
  ]
  | overflow rest ↦ (record s { p = rest; error = true }, dst, false)
  | cut ↦ (record s { error = true }, dst, false)
]

-- The outer loop up to index `n`, of which each round takes an element at least.
unfoldable pub int_loop : Pass → ℕ → ℕ → ℕ → List Value → IStream → Reads
unfolding int_batch
int_loop q zero i n dst s = (s, dst, true)
int_loop q (suc fuel) i n dst s = elim (ltb i n) [
  | false ↦ (s, dst, true)
  | true ↦ elim (length s.p / varint_max_bytes == 0) [
    | true ↦ elim (q.checked s.p) [
      | got raw rest ↦ elim (q.admit raw) [
        | true ↦ int_loop q fuel (i + 1) n (q.put i raw dst) (record s { p = rest })
        | false ↦ (record s { p = rest; error = true }, dst, false)
      ]
      | overflow rest ↦ (record s { p = rest; error = true }, dst, false)
      | cut ↦ (record s { pend_done = i; incomplete = true }, dst, false)
    ]
    | false ↦
        let fit = min (length s.p / varint_max_bytes) (n - i) in
        let r = int_batch q fit i dst s in
        elim r.2 [ true ↦ int_loop q fuel (i + fit) n r.1 r.0 | false ↦ r ]
  ]
]

-- The loop that stores, and the loop over the elements that the destination has no place for.
abbrev pub storing : Endian → Scalar → Bounds → Pass
storing host t b = record {
  windowed = get_varint_windowed host;
  checked = get_varint host;
  admit = admits t b;
  put = λ i raw dst. set dst i (value_of t raw);
}

abbrev pub skip_read : Skip → Read
skip_read (skipped rest) = got 0 rest
skip_read (Skip.overflow rest) = overflow rest
skip_read Skip.cut = cut

-- Bounded elements are read and tested, others are skipped.
abbrev pub passing : Endian → Scalar → Bounds → Pass
passing host t none = record {
  windowed = λ p. skip_read (skip_varint_windowed host p);
  checked = λ p. skip_read (skip_varint host p);
  admit = λ raw. true;
  put = λ i raw dst. dst;
}
passing host t (some b) = record {
  windowed = get_varint_windowed host;
  checked = get_varint host;
  admit = admits t (some b);
  put = λ i raw dst. dst;
}

-- `n` is the size of the span, at most `count`.
unfoldable pub read_int_elements : Endian → Scalar → Bounds → ℕ → List Value → IStream → Reads
unfolding int_loop admits
read_int_elements host t b n dst s =
    let first = int_loop (storing host t b) (n - s.pend_done) s.pend_done n dst s in
    let i = if ltb s.pend_done n then n else s.pend_done in
    let second = int_loop (passing host t b) (s.count - i) i s.count first.1 first.0 in
    if not first.2
    then first
    else if not second.2
    then second
    else (record second.0 { consumed = true; pend_done = 0 }, second.1, true)
