-- ===== src/IStream/Dest.antt =====
-- The destinations of a string or a blob: detail::destCapacity, destSetLen and fitDest, and
-- IStreamImpl::roomFor. `growable` is std::string or std::vector<uint8_t>, by its elements.
pub mod Holds
use corelib_cpp.Common.{
  ℕ, ◌+◌, ◌-◌, Bool, true, false, ltb, ◌==◌, if◌then◌else◌, Option, none, some,
}
use corelib_cpp.Common.{List, [], ◌∷◌, ◌++◌, length, take, drop, replicate}
use corelib_cpp.Containers.FixedString
use corelib_cpp.Containers.FixedBytes
use corelib_cpp.Containers.FixedString.{FixedString}
use corelib_cpp.Containers.FixedBytes.{FixedBytes}
use corelib_cpp.OStream.{poke}
use corelib_cpp.IStream.{IStream, reject_destination}

pub data Dest : Type 0 where
  string : FixedString → Dest
  bytes : FixedBytes → Dest
  growable : List ℕ → Dest

abbrev pub dest_capacity : Dest → Option ℕ
dest_capacity (string s) = some (FixedString.capacity s)
dest_capacity (bytes b) = some (FixedBytes.capacity b)
dest_capacity (growable xs) = none

-- `resize` of a standard container of bytes or characters.
abbrev pub resize : ℕ → List ℕ → List ℕ
resize n xs = take n xs ++ replicate (n - length xs) 0

unfoldable pub dest_set_len : ℕ → Dest → Dest
unfolding FixedString.set_len FixedBytes.set_len
dest_set_len n (string s) = string (FixedString.set_len n s)
dest_set_len n (bytes b) = bytes (FixedBytes.set_len n b)
dest_set_len n (growable xs) = growable (if length xs == n then xs else resize n xs)

-- `FitDest`, the sizer of a growable destination.
unfoldable pub fit_dest : ℕ → Dest → Dest
fit_dest want (growable xs) = growable (if ltb (length xs) want then resize want xs else xs)
fit_dest want d = d

-- `memcpy` to `data() + at`.
unfoldable pub dest_store : ℕ → List ℕ → Dest → Dest
dest_store at piece (string s) = string (record s { buf = poke at piece s.buf })
dest_store at piece (bytes b) = bytes (record b { buf = poke at piece b.buf })
dest_store at piece (growable xs) = growable (poke at piece xs)

-- `roomFor`
abbrev pub has_room : ℕ → ℕ → Dest → Bool
has_room fix_len need (string s) = if ltb (FixedString.capacity s) fix_len then false else true
has_room fix_len need (bytes b) = if ltb (FixedBytes.capacity b) fix_len then false else true
has_room fix_len need (growable xs) = if ltb (length xs) need then false else true

unfoldable pub room_for : Dest → ℕ → IStream → IStream × Bool
unfolding reject_destination
room_for d need s = if has_room s.fix_len need d then (s, true) else (reject_destination s, false)

-- The elements in use.
abbrev pub dest_contents : Dest → List ℕ
dest_contents (string s) = FixedString.view s
dest_contents (bytes b) = FixedBytes.contents b
dest_contents (growable xs) = xs
