-- ===== src/IStream/Collectors.antt =====
-- StringSeq, BlobSeq, MessageSeq and RowSeq: the handlers of wrapper arrays.
pub mod Bounded
use corelib_cpp.Common.{
  ℕ, zero, suc, ◌+◌, ◌-◌, Bool, true, false, not, if◌then◌else◌, Option, none, some, List, [], ◌∷◌,
  ◌++◌, length, replicate, set, get_or,
}
use corelib_cpp.Word.{Endian}
use corelib_cpp.Wire.{Wire, Fix}
use corelib_cpp.IStream.{IStream}
use corelib_cpp.IStream.Limits.{seq_index_admitted}
use corelib_cpp.IStream.Dest.{Dest}
use corelib_cpp.IStream.Payload.{
  same_wire, accepts_string, accepts_string_capped, accepts_blob, accepts_blob_capped, read_string,
  read_string_capped, read_blob, read_blob_capped,
}
use corelib_cpp.IStream.Levels.{Handler}
use corelib_cpp.IStream.Nested.{Published}

-- The limits of a collector of strings or blobs, of which a negative one is `none`: on the indexes by
-- the schema and by the receiver, on the lengths by the schema and by the receiver, and the capacity of
-- the container.
pub record Collector : Type 0 where
  pub cap : Option ℕ
  pub elem_max : Option ℕ
  pub index_cap : Option ℕ
  pub elem_len_cap : Option ℕ
  pub dest : Option ℕ

abbrev pub published : Fix → Collector → Published
published fix c = record {
  cap = c.cap;
  dyn = c.index_cap;
  dest = c.dest;
  wire = some Wire.fixlen;
  fix = some fix;
}

-- `while (out.size() <= id) out.emplace_back();`
unfoldable pub grow {ℓ} : {A : Type ℓ} → A → ℕ → List A → List A
grow new id out = out ++ replicate (id + 1 - length out) new

-- `prepare`
abbrev pub cleared {ℓ} : {A : Type ℓ} → List A → List A
cleared out = []

-- An element of a container at an index, read in place, the container having grown up to it.
unfoldable pub into_slot {ℓ} :
    {A : Type ℓ} → A → ℕ → (A → IStream → IStream × A × Bool) → List A × IStream → List A × IStream
unfolding grow
into_slot new id read (out, s) =
    let grown = grow new id out in
    let (s', a, ok) = read (get_or grown id new) s in (set grown id a, s')

unfoldable pub string_seq : Endian → Collector → Dest → Handler (List Dest)
unfolding accepts_string accepts_string_capped seq_index_admitted into_slot
string_seq host c new id size count (out, s) =
    let accepted : IStream × Bool = elim c.elem_max [
      | some n ↦ accepts_string (some n) s
      | none ↦ accepts_string_capped c.elem_len_cap s
    ] in
    let admitted = seq_index_admitted id c.cap c.index_cap c.dest accepted.0 in
    if not accepted.1
    then (out, accepted.0)
    else if not admitted.1
    then (out, admitted.0)
    else into_slot new id
        (λ d s. elim c.elem_max [
          | some n ↦ read_string host (some n) d s
          | none ↦ read_string_capped host c.elem_len_cap d s
        ])
        (out, admitted.0)

unfoldable pub blob_seq : Endian → Collector → Dest → Handler (List Dest)
unfolding accepts_blob accepts_blob_capped seq_index_admitted into_slot
blob_seq host c new id size count (out, s) =
    let accepted : IStream × Bool = elim c.elem_max [
      | some n ↦ accepts_blob (some n) s
      | none ↦ accepts_blob_capped c.elem_len_cap s
    ] in
    let admitted = seq_index_admitted id c.cap c.index_cap c.dest accepted.0 in
    if not accepted.1
    then (out, accepted.0)
    else if not admitted.1
    then (out, admitted.0)
    else into_slot new id
        (λ d s. elim c.elem_max [
          | some n ↦ read_blob host (some n) d s
          | none ↦ read_blob_capped host c.elem_len_cap d s
        ])
        (out, admitted.0)

-- `RowSeq`, and `MessageSeq` with the read of its element type: `wire` is the wire type of an element,
-- `none` where the type of the elements has none to test.
unfoldable pub row_seq {ℓ} :
    {A : Type ℓ}
    → Option Wire
    → Option ℕ
    → Option ℕ
    → Option ℕ
    → A
    → (A → IStream → IStream × A × Bool)
    → Handler (List A)
unfolding seq_index_admitted into_slot
row_seq wire schema index_cap dest new read_row id size count (out, s) =
    let other : Bool = elim wire [ none ↦ false | some w ↦ not (same_wire s.type w) ] in
    let admitted = seq_index_admitted id schema index_cap dest s in
    if other
    then (out, s)
    else if not admitted.1
    then (out, admitted.0)
    else into_slot new id read_row (out, admitted.0)
