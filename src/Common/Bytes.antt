-- ===== src/Common/Bytes.antt =====
-- A word as its bytes, lowest first.
use corelib_cpp.Common.{ℕ, zero, suc, ◌+◌, ◌*◌, ◌/◌, ◌%◌, ◌^◌, ◌<◌, ◌≡◌, refl, ap, arith}
use corelib_cpp.Common.{List, [], ◌∷◌, length, All}
use native.Mathlib.Nat.{pow-suc}

-- The value of a little-endian byte sequence.
abbrev pub from_le : List ℕ → ℕ
from_le [] = 0
from_le (b ∷ bs) = b + 256 * from_le bs

-- The `n` low bytes of a word.
abbrev pub to_le : ℕ → ℕ → List ℕ
to_le zero w = []
to_le (suc n) w = w % 256 ∷ to_le n (w / 256)

abbrev pub IsByte : ℕ → Type 0
IsByte b = b < 256

pub length-to_le : (n w : ℕ) → length (to_le n w) ≡ n
length-to_le zero w = refl
length-to_le (suc n) w = ap suc (length-to_le n (w / 256))

pub to_le-IsByte : (n w : ℕ) → All IsByte (to_le n w)
to_le-IsByte zero w = tt
to_le-IsByte (suc n) w = (omega arith, to_le-IsByte n (w / 256))

pub from_le-to_le : (n w : ℕ) → w < 256 ^ n → from_le (to_le n w) ≡ w
from_le-to_le zero w h = omega arith
from_le-to_le (suc n) w h =
    omega (arith, pow-suc 256 n, from_le-to_le n (w / 256) (omega (arith, pow-suc 256 n)))

pub to_le-from_le : (bs : List ℕ) → All IsByte bs → to_le (length bs) (from_le bs) ≡ bs
to_le-from_le [] h = refl
to_le-from_le (b ∷ bs) h = ground (arith, to_le-from_le bs h.1)

pub from_le-lt : (bs : List ℕ) → All IsByte bs → from_le bs < 256 ^ length bs
from_le-lt [] h = omega arith
from_le-lt (b ∷ bs) h = omega (arith, pow-suc 256 (length bs), from_le-lt bs h.1)
