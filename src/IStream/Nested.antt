-- ===== src/IStream/Nested.antt =====
-- IStreamImpl::read of a nested message, of an array of floats and into raw memory.
pub mod Floats
use corelib_cpp.Common.{
  ℕ, zero, suc, ◌+◌, ◌-◌, ◌*◌, Bool, true, false, not, ltb, leb, ◌==◌, ◌&&◌, if◌then◌else◌, min,
  Option, none, some, List, [], ◌∷◌, ◌++◌, length, take, drop, set,
}
use corelib_cpp.Word.{Endian, load_little_bits}
use corelib_cpp.Wire.{Wire, Fix, max_depth}
use corelib_cpp.OStream.{poke}
use corelib_cpp.OStream.Fields.{Float, float_size, float_fix}
use corelib_cpp.IStream.{IStream}
use corelib_cpp.IStream.Limits.{arm_elem}
use corelib_cpp.IStream.Levels.{Handler}
use corelib_cpp.IStream.Dispatch.{dispatch_level}
use corelib_cpp.IStream.Payload.{tag_matches, tag_matches_fix}

-- What a message type publishes for its elements, if it collects a wrapper array.
pub record Published : Type 0 where
  pub cap : Option ℕ
  pub dyn : Option ℕ
  pub dest : Option ℕ
  pub wire : Option Wire
  pub fix : Option Fix

-- `read` of a message: `prepare` runs unless the message is entered again.
unfoldable pub read_message {ℓ} :
    {U : Type ℓ}
    → Endian
    → (IStream → IStream)
    → Published
    → (U → U)
    → Handler U
    → U × IStream
    → (U × IStream) × Bool
unfolding tag_matches arm_elem dispatch_level
read_message host sequence pub_of prepare cb (u, s) =
    let (s0, matches) = tag_matches Wire.sequence_start s in
    if not matches
    then ((u, s0), false)
    else let u0 = if s0.replay then u else prepare u in
      let armed : IStream = record s0 {
        consumed = false;
        elem = record (arm_elem pub_of.cap pub_of.dyn pub_of.dest s0.elem) {
          wire = pub_of.wire;
          fix = pub_of.fix;
        };
      } in
      if leb max_depth s0.seq_depth
      then ((u0, record armed { error = true }), false)
      else let (u', r) =
          dispatch_level host sequence cb true
            (u0, record armed { seq_depth = s0.seq_depth + 1 }) in
        let back : IStream = record r { elem = s0.elem; seq_depth = r.seq_depth - 1 } in
        if back.incomplete
        then ((u', record back { consumed = s0.consumed }), false)
        else ((u', record back { consumed = true }), true)

-- The elements of a float array as they arrive, from index `i` on with `k` left; `n` is the size of the
-- span.
unfoldable pub float_pieces : Endian → ℕ → ℕ → ℕ → ℕ → List ℕ → IStream → IStream × List ℕ × Bool
float_pieces host size zero i n dst s = (record s { pend_done = 0; consumed = true }, dst, true)
float_pieces host size (suc k) i n dst s = elim (ltb (length s.p) size) [
  | true ↦ (record s { pend_done = i; incomplete = true }, dst, false)
  | false ↦
      let dst' = if ltb i n then set dst i (load_little_bits host (take size s.p)) else dst in
      float_pieces host size k (i + 1) n dst' (record s { p = drop size s.p })
]

-- The elements of a float array that is in the window.
unfoldable pub load_floats : Endian → ℕ → ℕ → ℕ → List ℕ → List ℕ → List ℕ
load_floats host size zero i p dst = dst
load_floats host size (suc k) i p dst =
    load_floats host size k (i + 1) (drop size p) (set dst i (load_little_bits host (take size p)))

unfoldable pub read_float_elements : Endian → Float → ℕ → List ℕ → IStream → IStream × List ℕ × Bool
unfolding tag_matches_fix float_pieces load_floats
read_float_elements host f n dst s =
    let size = float_size f in
    let (s', matches) = tag_matches_fix Wire.array_fixlen (float_fix f) s in
    let bytes = s'.count * size in
    if not matches
    then (s', dst, false)
    else if s'.pend_done == 0 && leb bytes (length s'.p)
    then (
      record s' { p = drop bytes s'.p; consumed = true },
      load_floats host size n 0 s'.p dst,
      true,
    )
    else float_pieces host size (s'.count - s'.pend_done) s'.pend_done n dst s'

-- `read(void *, size_t)`: `dst` is the memory from that pointer on.
unfoldable pub read_raw : ℕ → List ℕ → IStream → (IStream × List ℕ) × ℕ
unfolding tag_matches_fix
read_raw maxlen dst s =
    let (s', matches) = tag_matches_fix Wire.fixlen Fix.blob s in
    let done = s'.pend_done in
    let n = min (length s'.p) (s'.fix_len - done) in
    let dst' =
      if ltb done maxlen && not (n == 0)
      then poke done (take (min n (maxlen - done)) s'.p) dst
      else dst in
    let moved : IStream = record s' { p = drop n s'.p } in
    if not matches
    then ((s', dst), 0)
    else if ltb (done + n) s'.fix_len
    then ((record moved { pend_done = done + n; incomplete = true }, dst'), 0)
    else ((record moved { pend_done = 0; consumed = true }, dst'), min maxlen s'.fix_len)
