-- ===== src/BitsEqual.antt =====
-- include/sofab/bits_equal.hpp: the comparison of float arrays by bit pattern.
pub mod Exact
use corelib_cpp.Common.{ℕ, Bool, true, false, not, ◌==◌, ◌&&◌, if◌then◌else◌}
use corelib_cpp.Common.{List, [], ◌∷◌, ◌++◌, length}
use corelib_cpp.Word.{Endian, memcpy_out}
use corelib_cpp.OStream.Fields.{Float, float_size}

-- The object representation of a span of floats, each given by its bit pattern.
unfoldable pub object_bytes : Endian → Float → List ℕ → List ℕ
unfolding memcpy_out
object_bytes host f [] = []
object_bytes host f (x ∷ xs) = memcpy_out host (float_size f) x ++ object_bytes host f xs

-- `memcmp(...) == 0`.
unfoldable pub memcmp_zero : List ℕ → List ℕ → Bool
memcmp_zero [] ys = true
memcmp_zero (x ∷ xs) [] = false
memcmp_zero (x ∷ xs) (y ∷ ys) = (x == y) && memcmp_zero xs ys

-- `bitsEqualSpan`, which each form of `bitsEqual` calls.
unfoldable pub bits_equal : Endian → Float → List ℕ → List ℕ → Bool
unfolding object_bytes memcmp_zero
bits_equal host f a b =
    if not (length a == length b)
    then false
    else if length a == 0
    then true
    else memcmp_zero (object_bytes host f a) (object_bytes host f b)
