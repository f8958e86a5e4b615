-- ===== src/Containers/FixedString.antt =====
-- include/sofab/sofab.hpp, class FixedString: at most N characters in an array of N + 1, behind which a
-- NUL stands, and utf8Prefix.
use corelib_cpp.Common.{ℕ, zero, suc, ◌-◌, Bool, ltb, leb, ◌==◌, if◌then◌else◌, bit_and}
use corelib_cpp.Common.{List, ◌++◌, length, set, get_or, take, drop}

pub record FixedString : Type 0 where
  pub buf : List ℕ
  pub len : ℕ

abbrev pub capacity : FixedString → ℕ
capacity s = length s.buf - 1

-- Whether a byte continues a code point.
abbrev pub continues : ℕ → Bool
continues b = bit_and b 0xC0 == 0x80

unfoldable pub utf8_prefix : List ℕ → ℕ → ℕ
utf8_prefix sv zero = 0
utf8_prefix sv (suc n) =
    let rest = utf8_prefix sv n in if continues (get_or sv (suc n) 0) then rest else suc n

-- The loop that copies `len` characters, and the NUL.
unfoldable pub assign : List ℕ → FixedString → FixedString
unfolding utf8_prefix
assign sv s =
    let n = if leb (length sv) (capacity s) then length sv else utf8_prefix sv (capacity s) in
    record s { buf = set (take n sv ++ drop n s.buf) n 0; len = n }

unfoldable pub set_len : ℕ → FixedString → FixedString
set_len n s =
    let m = if ltb (capacity s) n then capacity s else n in
    record s { buf = set s.buf m 0; len = m }

unfoldable pub clear : FixedString → FixedString
clear s = record s { buf = set s.buf 0 0; len = 0 }

-- `view`, and `str` as a copy of it.
abbrev pub view : FixedString → List ℕ
view s = take s.len s.buf
