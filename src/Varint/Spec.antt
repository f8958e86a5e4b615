-- ===== src/Varint/Spec.antt =====
-- The varint format in plain arithmetic: groups of seven bits, lowest first, the top bit of a byte
-- telling that another follows; ten bytes at most, and the tenth carries one bit.
use corelib_cpp.Common.{ℕ, zero, suc, ◌+◌, ◌*◌, ◌/◌, ◌%◌, ◌^◌, ◌≤◌, ◌<◌, ◌≡◌, arith}
use corelib_cpp.Common.{List, [], ◌∷◌, ◌++◌, ltb, ◌&&◌, ◌==◌, if◌then◌else◌, length, All}
use corelib_cpp.Common.Bytes.{IsByte}
use native.Mathlib.Nat.{pow-suc, one-le-pow}
use corelib_cpp.Varint.{Read, got, overflow, cut}

-- The encoding of a value below 128 ^ (k + 1).
unfoldable pub groups_of : ℕ → ℕ → List ℕ
groups_of zero v = v ∷ []
groups_of (suc k) v = if ltb v 128 then v ∷ [] else (v % 128 + 128) ∷ groups_of k (v / 128)

unfoldable pub varint : ℕ → List ℕ
varint v = groups_of 9 v

-- A group `g` below what was read behind it.
abbrev pub under : ℕ → Read → Read
under g (got v rest) = got (g + 128 * v) rest
under g (overflow rest) = overflow rest
under g cut = cut

-- Reads a varint of which `k` more bytes may come; the last of these carries one bit.
unfoldable pub parse : ℕ → List ℕ → Read
parse zero p = overflow p
parse (suc k) [] = cut
parse (suc k) (b ∷ p) =
    if (k == 0) && ltb 1 b
    then overflow p
    else if ltb b 128
    then got b p
    else under (b % 128) (parse k p)

pub length-groups_of : (k v : ℕ) → (1 ≤ length (groups_of k v)) × (length (groups_of k v) ≤ k + 1)
unfolding groups_of
length-groups_of zero v = omega arith
length-groups_of (suc k) v = ground (arith, length-groups_of k (v / 128))

pub groups_of-IsByte : (k v : ℕ) → v < 128 ^ suc k → All IsByte (groups_of k v)
unfolding groups_of
groups_of-IsByte zero v h = omega arith
groups_of-IsByte (suc k) v h = ground (arith, groups_of-IsByte k (v / 128) (omega arith))

-- Reading what was written, whatever follows.
pub parse-groups_of :
    (k v : ℕ) (rest : List ℕ) → v < 2 * 128 ^ k → parse (suc k) (groups_of k v ++ rest) ≡ got v rest
unfolding parse groups_of
parse-groups_of zero v rest h = ground arith
parse-groups_of (suc k) v rest h = ground (
  arith,
  pow-suc 128 k,
  one-le-pow k 128,
  parse-groups_of k (v / 128) rest (omega (arith, pow-suc 128 k)),
)
