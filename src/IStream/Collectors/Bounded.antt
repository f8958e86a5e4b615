-- ===== src/IStream/Collectors/Bounded.antt =====
-- StringSeq, BlobSeq and RowSeq: how far the container grows.
use corelib_cpp.Common.{
  ℕ, ◌+◌, ◌-◌, ◌≤◌, ◌<◌, ◌≡◌, refl, arith, Bool, true, false, not, if◌then◌else◌, Option, none,
  some, inl, inr, lt_or_ge, le→leb,
}
use corelib_cpp.Common.{
  List, length, length-append, length-set, length-replicate, replicate, get_or,
}
use corelib_cpp.Word.{Endian}
use corelib_cpp.Wire.{Wire}
use corelib_cpp.IStream.{IStream}
use corelib_cpp.IStream.Limits.{seq_index_admitted}
use corelib_cpp.IStream.Dest.{Dest}
use corelib_cpp.IStream.Payload.{
  same_wire, accepts_string, accepts_string_capped, accepts_blob, accepts_blob_capped, read_string,
  read_string_capped, read_blob, read_blob_capped,
}
use corelib_cpp.IStream.Window.{either}
use corelib_cpp.IStream.Collectors.{Collector, grow, into_slot, string_seq, blob_seq, row_seq}

-- The schema's bound on the indexes, or else the receiver's, is `n` at most.
abbrev pub Within : Option ℕ → Option ℕ → ℕ → Type 0
Within (some cap) dyn n = cap ≤ n
Within none (some dyn) n = dyn ≤ n
Within none none n = ⊥

below_limit :
    (id n : ℕ) (cap dyn dest : Option ℕ) (s : IStream)
    → Within cap dyn n
    → (seq_index_admitted id cap dyn dest s).1 ≡ true
    → id < n
unfolding seq_index_admitted
below_limit id n none none dest s e h = elim e [ ]
below_limit id n none (some d) dest s e h = elim (lt_or_ge id d) [
  | inl small ↦ omega arith
  | inr large ↦ let clash : false ≡ true = rw (le→leb d id large) at h in cc
]
below_limit id n (some c) dyn dest s e h = elim (lt_or_ge id c) [
  | inl small ↦ omega arith
  | inr large ↦ let clash : false ≡ true = rw (le→leb c id large) at h in cc
]

into_slot-length {ℓ} :
    {A : Type ℓ} (new : A) (id : ℕ) (read : A → IStream → IStream × A × Bool) (n : ℕ) (out : List A)
    (s : IStream)
    → length out ≤ n
    → id < n
    → length (into_slot new id read (out, s)).0 ≤ n
unfolding into_slot grow
into_slot-length new id read n out s h l =
    let slot = (read (get_or (grow new id out) id new) s).1 in
    omega (
      arith,
      length-set (grow new id out) id slot,
      length-append out (replicate (id + 1 - length out) new),
      length-replicate (id + 1 - length out) new,
    )

-- An element that stands at an admitted index, or is not taken.
guarded {ℓ} :
    {A : Type ℓ} (new : A) (id : ℕ) (read : A → IStream → IStream × A × Bool) (n : ℕ)
    (cap dyn dest : Option ℕ) (out : List A) (s : IStream)
    → length out ≤ n
    → Within cap dyn n
    → (let admitted = seq_index_admitted id cap dyn dest s in
        length
          (if not admitted.1 then (out, admitted.0) else into_slot new id read (out, admitted.0)).0
        ≤ n)
guarded {A = A} new id read n cap dyn dest out s h w =
    next (seq_index_admitted id cap dyn dest s) (below_limit id n cap dyn dest s w)
  where
    next :
        (r : IStream × Bool)
        → (r.1 ≡ true → id < n)
        → length (if not r.1 then (out, r.0) else into_slot new id read (out, r.0)).0 ≤ n
    next (t, false) l = h
    next (t, true) l = into_slot-length new id read n out t h (l refl)

module _ (host : Endian) where
  -- The containers of strings, blobs and rows stay within the bound on their indexes, the schema's
  -- or else the receiver's: whatever element arrives, at whatever index and with whatever bytes, a
  -- container that holds no more elements than that still holds no more.
  pub collectors-Within :
      (c : Collector) (new : Dest) (wire : Option Wire)
      (read_row : Dest → IStream → IStream × Dest × Bool) (n id size count : ℕ) (out : List Dest)
      (s : IStream)
      → Within c.cap c.index_cap n
      → length out ≤ n
      → (length (string_seq host c new id size count (out, s)).0 ≤ n)
        × (length (blob_seq host c new id size count (out, s)).0 ≤ n)
        × (length (row_seq wire c.cap c.index_cap c.dest new read_row id size count (out, s)).0 ≤ n)
  unfolding string_seq blob_seq row_seq
  collectors-Within c new wire read_row n id size count out s w h =
      let fits : List Dest × IStream → Type 0 = λ r. length r.0 ≤ n in
      let strings : IStream × Bool = elim c.elem_max [
        | some m ↦ accepts_string (some m) s
        | none ↦ accepts_string_capped c.elem_len_cap s
      ] in
      let blobs : IStream × Bool = elim c.elem_max [
        | some m ↦ accepts_blob (some m) s
        | none ↦ accepts_blob_capped c.elem_len_cap s
      ] in
      let other : Bool = elim wire [ none ↦ false | some w ↦ not (same_wire s.type w) ] in
      let as_string : Dest → IStream → IStream × Dest × Bool = λ d t. elim c.elem_max [
        | some m ↦ read_string host (some m) d t
        | none ↦ read_string_capped host c.elem_len_cap d t
      ] in
      let as_blob : Dest → IStream → IStream × Dest × Bool = λ d t. elim c.elem_max [
        | some m ↦ read_blob host (some m) d t
        | none ↦ read_blob_capped host c.elem_len_cap d t
      ] in
      (
        either fits (not strings.1) (out, strings.0) _ h
            (guarded new id as_string n c.cap c.index_cap c.dest out strings.0 h w),
        either fits (not blobs.1) (out, blobs.0) _ h
            (guarded new id as_blob n c.cap c.index_cap c.dest out blobs.0 h w),
        either fits other (out, s) _ h
            (guarded new id read_row n c.cap c.index_cap c.dest out s h w),
      )
