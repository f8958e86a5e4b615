-- ===== src/IStream/Payload.antt =====
-- IStreamImpl: readPayload, readPayloadPiece and the gated reads of strings and blobs, with the tests
-- that accept a string or a blob without reading it. SOFAB_STRICT_UTF8 is on, as by default.
pub mod Pieces
pub mod Chunks
pub mod Gates
use corelib_cpp.Common.{
  ℕ, ◌+◌, ◌-◌, Bool, true, false, not, ltb, leb, ◌==◌, ◌&&◌, ◌||◌, if◌then◌else◌, min, Option, none,
  some,
}
use corelib_cpp.Common.{List, [], ◌∷◌, ◌++◌, length, take, drop}
use corelib_cpp.Word.{Endian}
use corelib_cpp.Wire.{Wire, Fix, wire_code, fix_code}
use corelib_cpp.Utf8.{utf8_valid, utf8_advance}
use corelib_cpp.IStream.{IStream, exceed_limit, reject_unbounded}
use corelib_cpp.IStream.Dest.{Dest, room_for, dest_store, dest_set_len, fit_dest}

abbrev pub Read : Type 0
Read = IStream × Dest × Bool

abbrev pub same_wire : Wire → Wire → Bool
same_wire a b = wire_code a == wire_code b

abbrev pub same_fix : Fix → Fix → Bool
same_fix a b = fix_code a == fix_code b

-- `tagMatches`: a mismatch is counted.
unfoldable pub tag_matches : Wire → IStream → IStream × Bool
tag_matches want s =
    if same_wire s.type want then (s, true) else (record s { skipped = s.skipped + 1 }, false)

unfoldable pub tag_matches_fix : Wire → Fix → IStream → IStream × Bool
tag_matches_fix want fix s =
    if same_wire s.type want && same_fix s.fix_type fix
    then (s, true)
    else (record s { skipped = s.skipped + 1 }, false)

unfoldable pub tag_matches_either : Wire → Fix → Fix → IStream → IStream × Bool
tag_matches_either want fix fix2 s =
    if same_wire s.type want && (same_fix s.fix_type fix || same_fix s.fix_type fix2)
    then (s, true)
    else (record s { skipped = s.skipped + 1 }, false)

-- A payload that is in the window from its first byte.
unfoldable pub read_whole : Endian → Bool → Dest → IStream → Read
read_whole host validate d s =
    let payload = take s.fix_len s.p in
    if validate && not (utf8_valid host payload) then (record s { error = true }, d, false) else (
      record s { p = drop s.fix_len s.p; consumed = true },
      dest_set_len s.fix_len (dest_store 0 payload d),
      true,
    )

-- `readPayloadPiece` behind its test for room.
unfoldable pub read_piece : Bool → ℕ → Dest → IStream → Read
read_piece validate n d s =
    let piece = take n s.p in
    let state = if validate then utf8_advance s.utf8_state piece else s.utf8_state in
    let d' = dest_store s.pend_done piece d in
    let moved : IStream = record s { utf8_state = state; p = drop n s.p } in
    if ltb (s.pend_done + n) s.fix_len
    then (record moved { pend_done = s.pend_done + n; incomplete = true }, d', false)
    else if validate && not (state == 0)
    then (record moved { error = true }, d', false)
    else (
      record moved { pend_done = 0; utf8_state = 0; consumed = true },
      dest_set_len s.fix_len d',
      true,
    )

unfoldable pub read_payload : Endian → Bool → Dest → IStream → Read
unfolding read_whole read_piece room_for
read_payload host validate d s =
    let avail = length s.p in
    let n = min avail (s.fix_len - s.pend_done) in
    if s.pend_done == 0 && leb s.fix_len avail
    then (let (s', fits) = room_for d s.fix_len s in
        if fits then read_whole host validate d s' else (s', d, false))
    else (let (s', fits) = room_for d (s.pend_done + n) s in
        if fits then read_piece validate n d s' else (s', d, false))

-- The sizer and the read, as they stand behind the gates.
unfoldable pub fit_and_read : Endian → Bool → Dest → IStream → Read
unfolding read_payload fit_dest
fit_and_read host validate d s =
    read_payload host validate (fit_dest (min s.fix_len (s.pend_done + length s.p)) d) s

-- A length past a bound, `none` where it is negative.
abbrev pub past : Option ℕ → ℕ → Bool
past none n = false
past (some b) n = ltb b n

abbrev pub is_none : Option ℕ → Bool
is_none none = true
is_none (some b) = false

unfoldable pub read_string_gated : Endian → Option ℕ → Option ℕ → Dest → IStream → Read
unfolding tag_matches_fix fit_and_read exceed_limit
read_string_gated host bound dyn d s =
    let (s', matches) = tag_matches_fix Wire.fixlen Fix.string s in
    if not matches
    then (s', d, false)
    else if past bound s'.fix_len
    then (record s' { error = true }, d, false)
    else if is_none bound && past dyn s'.fix_len
    then (exceed_limit s', d, false)
    else fit_and_read host true d s'

unfoldable pub read_blob_gated : Endian → Option ℕ → Option ℕ → Dest → IStream → Read
unfolding tag_matches_fix fit_and_read exceed_limit
read_blob_gated host bound dyn d s =
    let (s', matches) = tag_matches_fix Wire.fixlen Fix.blob s in
    if not matches
    then (s', d, false)
    else if past bound s'.fix_len
    then (record s' { error = true }, d, false)
    else if is_none bound && past dyn s'.fix_len
    then (exceed_limit s', d, false)
    else fit_and_read host false d s'

-- The public reads: a negative bound refuses.
unfoldable pub read_string : Endian → Option ℕ → Dest → IStream → Read
unfolding read_string_gated reject_unbounded
read_string host none d s = (reject_unbounded s, d, false)
read_string host (some bound) d s = read_string_gated host (some bound) none d s

unfoldable pub read_string_capped : Endian → Option ℕ → Dest → IStream → Read
unfolding read_string_gated reject_unbounded
read_string_capped host none d s = (reject_unbounded s, d, false)
read_string_capped host (some dyn) d s = read_string_gated host none (some dyn) d s

unfoldable pub read_blob : Endian → Option ℕ → Dest → IStream → Read
unfolding read_blob_gated reject_unbounded
read_blob host none d s = (reject_unbounded s, d, false)
read_blob host (some bound) d s = read_blob_gated host (some bound) none d s

unfoldable pub read_blob_capped : Endian → Option ℕ → Dest → IStream → Read
unfolding read_blob_gated reject_unbounded
read_blob_capped host none d s = (reject_unbounded s, d, false)
read_blob_capped host (some dyn) d s = read_blob_gated host none (some dyn) d s

unfoldable pub accepts_string_gated : Option ℕ → Option ℕ → IStream → IStream × Bool
unfolding tag_matches_fix exceed_limit
accepts_string_gated bound dyn s =
    let (s', matches) = tag_matches_fix Wire.fixlen Fix.string s in
    if not matches
    then (s', false)
    else if past bound s'.fix_len
    then (record s' { error = true }, false)
    else if is_none bound && past dyn s'.fix_len
    then (exceed_limit s', false)
    else (s', true)

unfoldable pub accepts_string : Option ℕ → IStream → IStream × Bool
unfolding accepts_string_gated reject_unbounded
accepts_string none s = (reject_unbounded s, false)
accepts_string (some bound) s = accepts_string_gated (some bound) none s

unfoldable pub accepts_string_capped : Option ℕ → IStream → IStream × Bool
unfolding accepts_string_gated reject_unbounded
accepts_string_capped none s = (reject_unbounded s, false)
accepts_string_capped (some dyn) s = accepts_string_gated none (some dyn) s

unfoldable pub accepts_blob_gated : Option ℕ → Option ℕ → IStream → IStream × Bool
unfolding tag_matches_fix exceed_limit
accepts_blob_gated bound dyn s =
    let (s', matches) = tag_matches_fix Wire.fixlen Fix.blob s in
    if not matches
    then (s', false)
    else if past bound s'.fix_len
    then (record s' { error = true }, false)
    else if is_none bound && past dyn s'.fix_len
    then (exceed_limit s', false)
    else (s', true)

unfoldable pub accepts_blob : Option ℕ → IStream → IStream × Bool
unfolding accepts_blob_gated reject_unbounded
accepts_blob none s = (reject_unbounded s, false)
accepts_blob (some bound) s = accepts_blob_gated (some bound) none s

unfoldable pub accepts_blob_capped : Option ℕ → IStream → IStream × Bool
unfolding accepts_blob_gated reject_unbounded
accepts_blob_capped none s = (reject_unbounded s, false)
accepts_blob_capped (some dyn) s = accepts_blob_gated none (some dyn) s
