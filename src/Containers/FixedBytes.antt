-- ===== src/Containers/FixedBytes.antt =====
-- include/sofab/sofab.hpp, class FixedBytes: at most N bytes in an array of N.
use corelib_cpp.Common.{ℕ, zero, suc, ◌+◌, Bool, true, false, ltb, ◌==◌, not, if◌then◌else◌}
use corelib_cpp.Common.{List, [], ◌∷◌, length, set, get_or, take}

pub record FixedBytes : Type 0 where
  pub buf : List ℕ
  pub len : ℕ

abbrev pub capacity : FixedBytes → ℕ
capacity v = length v.buf

-- The loop of `assign`, which stops at the capacity.
unfoldable pub assign_loop : List ℕ → FixedBytes → FixedBytes
assign_loop [] v = v
assign_loop (b ∷ init) v =
    let next = assign_loop init (record v { buf = set v.buf v.len b; len = v.len + 1 }) in
    if not (ltb v.len (capacity v)) then v else next

unfoldable pub assign : List ℕ → FixedBytes → FixedBytes
unfolding assign_loop
assign init v = assign_loop init (record v { len = 0 })

unfoldable pub set_len : ℕ → FixedBytes → FixedBytes
set_len n v = record v { len = if ltb n (capacity v) then n else capacity v }

unfoldable pub clear : FixedBytes → FixedBytes
clear v = record v { len = 0 }

unfoldable pub push_back : ℕ → FixedBytes → FixedBytes
push_back b v =
    if ltb v.len (capacity v) then record v { buf = set v.buf v.len b; len = v.len + 1 } else v

-- The elements in use.
abbrev pub contents : FixedBytes → List ℕ
contents v = take v.len v.buf

-- The loop of `operator==`, from index `i` with `rounds` left.
unfoldable pub equal_from : ℕ → ℕ → FixedBytes → FixedBytes → Bool
equal_from i zero v o = true
equal_from i (suc rounds) v o =
    let rest = equal_from (i + 1) rounds v o in
    if get_or v.buf i 0 == get_or o.buf i 0 then rest else false

unfoldable pub equal : FixedBytes → FixedBytes → Bool
unfolding equal_from
equal v o = if not (v.len == o.len) then false else equal_from 0 v.len v o
