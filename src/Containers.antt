-- ===== src/Containers.antt =====
-- include/sofab/sofab.hpp, class InlineVector: a vector of at most N elements in an array of N.
pub mod FixedString
pub mod FixedBytes
pub mod Refine
pub mod Truncation
pub mod Octets
use corelib_cpp.Common.{
  ℕ, zero, suc, ◌+◌, ◌-◌, Bool, true, false, ltb, ◌==◌, ◌&&◌, not, if◌then◌else◌, min,
}
use corelib_cpp.Common.{List, [], ◌∷◌, length, set, get_or}

-- `buf` is buf_, an array of N elements, and `len` is len_.
pub record InlineVector {ℓ} (A : Type ℓ) : Type ℓ where
  pub buf : List A
  pub len : ℕ

module _ {ℓ} {A : Type ℓ} where
  abbrev pub capacity : InlineVector A → ℕ
  capacity v = length v.buf

  -- The loop of `assign`, which stops at the capacity.
  unfoldable pub assign_loop : List A → InlineVector A → InlineVector A
  assign_loop [] v = v
  assign_loop (a ∷ init) v =
      let next = assign_loop init (record v { buf = set v.buf v.len a; len = v.len + 1 }) in
      if not (ltb v.len (capacity v)) then v else next

  unfoldable pub assign : List A → InlineVector A → InlineVector A
  unfolding assign_loop
  assign init v = assign_loop init (record v { len = 0 })

  unfoldable pub clear : InlineVector A → InlineVector A
  clear v = record v { len = 0 }

  -- `for (i = from; i < to; ++i) buf_[i] = T{}`, with the count of rounds.
  unfoldable pub fill : A → ℕ → ℕ → List A → List A
  fill d i zero buf = buf
  fill d i (suc rounds) buf = fill d (i + 1) rounds (set buf i d)

  -- `d` is `T{}`.
  unfoldable pub resize : A → ℕ → InlineVector A → InlineVector A
  unfolding fill
  resize d n v =
      let m = if ltb (capacity v) n then capacity v else n in
      record v { buf = fill d v.len (m - v.len) (fill d m (v.len - m) v.buf); len = m }

  unfoldable pub push_back : A → InlineVector A → InlineVector A
  push_back a v =
      if ltb v.len (capacity v) then record v { buf = set v.buf v.len a; len = v.len + 1 } else v

  -- The vector, and the index of the element that the reference names.
  unfoldable pub emplace_back : A → InlineVector A → InlineVector A × ℕ
  emplace_back d v =
      if ltb v.len (capacity v)
      then (record v { buf = set v.buf v.len d; len = v.len + 1 }, v.len)
      else (record v { buf = set v.buf (capacity v - 1) d }, capacity v - 1)
