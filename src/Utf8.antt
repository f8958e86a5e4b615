-- ===== src/Utf8.antt =====
-- include/sofab/sofab.hpp: utf8Dfa, utf8Advance and utf8Valid. A pointer into the text is the list of
-- the bytes from it on.
pub mod Table
pub mod Scan
pub mod Verdict
pub mod Boundaries
use corelib_cpp.Common.{
  ℕ, zero, suc, ◌+◌, Bool, true, false, ltb, leb, ◌==◌, ◌&&◌, if◌then◌else◌, bit_and,
}
use corelib_cpp.Common.{List, [], ◌∷◌, ◌++◌, length, get_or, take, drop, Option, none, some}
use corelib_cpp.Word.{Endian, memcpy_in}

-- The class of each byte, and behind them the transitions.
unfoldable pub utf8_dfa : List ℕ
utf8_dfa =
    0 ∷ 0 ∷ 0 ∷ 0 ∷ 0 ∷ 0 ∷ 0 ∷ 0 ∷ 0 ∷ 0 ∷ 0 ∷ 0 ∷ 0 ∷ 0 ∷ 0 ∷ 0 ∷ 0 ∷ 0 ∷ 0 ∷ 0 ∷ 0 ∷ 0 ∷ 0 ∷ 0
    ∷ 0 ∷ 0 ∷ 0 ∷ 0 ∷ 0 ∷ 0 ∷ 0 ∷ 0 ∷ 0 ∷ 0 ∷ 0 ∷ 0 ∷ 0 ∷ 0 ∷ 0 ∷ 0 ∷ 0 ∷ 0 ∷ 0 ∷ 0 ∷ 0 ∷ 0 ∷ 0 ∷ 0
    ∷ 0 ∷ 0 ∷ 0 ∷ 0 ∷ 0 ∷ 0 ∷ 0 ∷ 0 ∷ 0 ∷ 0 ∷ 0 ∷ 0 ∷ 0 ∷ 0 ∷ 0 ∷ 0 ∷ 0 ∷ 0 ∷ 0 ∷ 0 ∷ 0 ∷ 0 ∷ 0 ∷ 0
    ∷ 0 ∷ 0 ∷ 0 ∷ 0 ∷ 0 ∷ 0 ∷ 0 ∷ 0 ∷ 0 ∷ 0 ∷ 0 ∷ 0 ∷ 0 ∷ 0 ∷ 0 ∷ 0 ∷ 0 ∷ 0 ∷ 0 ∷ 0 ∷ 0 ∷ 0 ∷ 0 ∷ 0
    ∷ 0 ∷ 0 ∷ 0 ∷ 0 ∷ 0 ∷ 0 ∷ 0 ∷ 0 ∷ 0 ∷ 0 ∷ 0 ∷ 0 ∷ 0 ∷ 0 ∷ 0 ∷ 0 ∷ 0 ∷ 0 ∷ 0 ∷ 0 ∷ 0 ∷ 0 ∷ 0 ∷ 0
    ∷ 0 ∷ 0 ∷ 0 ∷ 0 ∷ 0 ∷ 0 ∷ 0 ∷ 0 ∷ 1 ∷ 1 ∷ 1 ∷ 1 ∷ 1 ∷ 1 ∷ 1 ∷ 1 ∷ 1 ∷ 1 ∷ 1 ∷ 1 ∷ 1 ∷ 1 ∷ 1 ∷ 1
    ∷ 9 ∷ 9 ∷ 9 ∷ 9 ∷ 9 ∷ 9 ∷ 9 ∷ 9 ∷ 9 ∷ 9 ∷ 9 ∷ 9 ∷ 9 ∷ 9 ∷ 9 ∷ 9 ∷ 7 ∷ 7 ∷ 7 ∷ 7 ∷ 7 ∷ 7 ∷ 7 ∷ 7
    ∷ 7 ∷ 7 ∷ 7 ∷ 7 ∷ 7 ∷ 7 ∷ 7 ∷ 7 ∷ 7 ∷ 7 ∷ 7 ∷ 7 ∷ 7 ∷ 7 ∷ 7 ∷ 7 ∷ 7 ∷ 7 ∷ 7 ∷ 7 ∷ 7 ∷ 7 ∷ 7 ∷ 7
    ∷ 8 ∷ 8 ∷ 2 ∷ 2 ∷ 2 ∷ 2 ∷ 2 ∷ 2 ∷ 2 ∷ 2 ∷ 2 ∷ 2 ∷ 2 ∷ 2 ∷ 2 ∷ 2 ∷ 2 ∷ 2 ∷ 2 ∷ 2 ∷ 2 ∷ 2 ∷ 2 ∷ 2
    ∷ 2 ∷ 2 ∷ 2 ∷ 2 ∷ 2 ∷ 2 ∷ 2 ∷ 2 ∷ 10 ∷ 3 ∷ 3 ∷ 3 ∷ 3 ∷ 3 ∷ 3 ∷ 3 ∷ 3 ∷ 3 ∷ 3 ∷ 3 ∷ 3 ∷ 4 ∷ 3 ∷ 3
    ∷ 11 ∷ 6 ∷ 6 ∷ 6 ∷ 5 ∷ 8 ∷ 8 ∷ 8 ∷ 8 ∷ 8 ∷ 8 ∷ 8 ∷ 8 ∷ 8 ∷ 8 ∷ 8 ∷ 0 ∷ 12 ∷ 24 ∷ 36 ∷ 60 ∷ 96
    ∷ 84 ∷ 12 ∷ 12 ∷ 12 ∷ 48 ∷ 72 ∷ 12 ∷ 12 ∷ 12 ∷ 12 ∷ 12 ∷ 12 ∷ 12 ∷ 12 ∷ 12 ∷ 12 ∷ 12 ∷ 12 ∷ 12
    ∷ 0 ∷ 12 ∷ 12 ∷ 12 ∷ 12 ∷ 12 ∷ 0 ∷ 12 ∷ 0 ∷ 12 ∷ 12 ∷ 12 ∷ 24 ∷ 12 ∷ 12 ∷ 12 ∷ 12 ∷ 12 ∷ 24 ∷ 12
    ∷ 24 ∷ 12 ∷ 12 ∷ 12 ∷ 12 ∷ 12 ∷ 12 ∷ 12 ∷ 12 ∷ 12 ∷ 24 ∷ 12 ∷ 12 ∷ 12 ∷ 12 ∷ 12 ∷ 24 ∷ 12 ∷ 12
    ∷ 12 ∷ 12 ∷ 12 ∷ 12 ∷ 12 ∷ 24 ∷ 12 ∷ 12 ∷ 12 ∷ 12 ∷ 12 ∷ 12 ∷ 12 ∷ 12 ∷ 12 ∷ 36 ∷ 12 ∷ 36 ∷ 12
    ∷ 12 ∷ 12 ∷ 36 ∷ 12 ∷ 12 ∷ 12 ∷ 12 ∷ 12 ∷ 36 ∷ 12 ∷ 36 ∷ 12 ∷ 12 ∷ 12 ∷ 36 ∷ 12 ∷ 12 ∷ 12 ∷ 12
    ∷ 12 ∷ 12 ∷ 12 ∷ 12 ∷ 12 ∷ 12 ∷ []

unfoldable pub utf8_step : ℕ → ℕ → ℕ
unfolding utf8_dfa
utf8_step state b = get_or utf8_dfa (256 + state + get_or utf8_dfa b 0) 0

unfoldable pub utf8_advance : ℕ → List ℕ → ℕ
utf8_advance state [] = state
utf8_advance state (b ∷ bs) = utf8_advance (utf8_step state b) bs

-- The words of eight ASCII bytes. `fuel` is the count of bytes left.
unfoldable pub utf8_skip_words : Endian → ℕ → List ℕ → List ℕ
utf8_skip_words host zero p = p
utf8_skip_words host (suc fuel) p =
    let rest = utf8_skip_words host fuel (drop 8 p) in
    if leb 8 (length p) && (bit_and (memcpy_in host (take 8 p)) 0x8080808080808080 == 0)
    then rest
    else p

unfoldable pub utf8_skip_bytes : List ℕ → List ℕ
utf8_skip_bytes [] = []
utf8_skip_bytes (b ∷ p) = let rest = utf8_skip_bytes p in if ltb b 0x80 then rest else b ∷ p

-- The `do` loop over one sequence of bytes: where it ends, unless it is rejected or cut.
unfoldable pub utf8_sequence : ℕ → List ℕ → Option (List ℕ)
utf8_sequence state [] = none
utf8_sequence state (b ∷ p) =
    let state' = utf8_step state b in
    let rest = utf8_sequence state' p in
    if state' == 12 then none else if state' == 0 then some p else rest

-- The outer loop. Each round takes a byte at least, so the count of bytes is fuel enough.
unfoldable pub utf8_loop : Endian → ℕ → List ℕ → Bool
unfolding utf8_skip_words utf8_skip_bytes utf8_sequence
utf8_loop host zero p = false
utf8_loop host (suc fuel) p =
    let q = utf8_skip_bytes (utf8_skip_words host (length p) p) in
    if length q == 0
    then true
    else elim (utf8_sequence 0 q) [ none ↦ false | some rest ↦ utf8_loop host fuel rest ]

unfoldable pub utf8_valid : Endian → List ℕ → Bool
unfolding utf8_loop
utf8_valid host p = utf8_loop host (suc (length p)) p
