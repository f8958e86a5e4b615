-- ===== src/OStream/Writes.antt =====
-- OStreamImpl: beforeContent, writeScalar and writeFixlen, as seen on the wire.
pub mod Arrays
pub mod Nested
pub mod Opening
use mathlib.Core.Path.{subst}
use corelib_cpp.Common.{
  ℕ, zero, suc, ◌+◌, ◌-◌, ◌*◌, ◌≤◌, ◌<◌, ◌≡◌, ◌^◌, refl, sym, ap, ap₂, ◌∙◌, arith, inl, inr, ◌⊎◌,
}
use corelib_cpp.Common.{List, [], ◌∷◌, ◌++◌, append_assoc, append-nil, length, leb, ltb, ◌&&◌}
use corelib_cpp.Common.{
  Bool, true, false, Option, none, some, Bool-cases, lt_or_ge, le→leb, gt→leb, ge→ltb,
  if◌then◌else◌,
}
use corelib_cpp.Word.{Endian, store_little_bits}
use corelib_cpp.Wire.{
  Error, Wire, Fix, header_word, fixlen_word, id_max, fixlen_max, varint_max_bytes, fix_code,
  wire_code,
}
use corelib_cpp.Wire.Words.{header_word_lem, fixlen_word_lem}
use corelib_cpp.Varint.{encode_varint}
use corelib_cpp.OStream.{OStream, Op, ◌>>◌, is_ok, room, store, push_bytes, succeed}
use corelib_cpp.OStream.View.{IsValid, wire}
use corelib_cpp.OStream.Drain.{Kept, Kept-refl}
use corelib_cpp.OStream.Push.{
  Wrote, Refused, Outcome, chain, push_bytes_lem, extend-Wrote, store-Wrote,
}
use corelib_cpp.OStream.Padding.{Fits, Fits-trans, put_padded-Fits}
use corelib_cpp.OStream.Fields.{
  put_varint, put_starts, commit_pending, before_content, is_empty, put_padded,
}
use corelib_cpp.OStream.Fields.{
  scalar_body, write_scalar, fixlen_body, write_fixlen, float_body, write_float_scalar,
}
use corelib_cpp.OStream.Fields.{Float, float_size, float_fix}

-- The headers of a run of sequences, the outermost first.
unfoldable pub starts : List ℕ → List ℕ
starts [] = []
starts (i ∷ ids) = encode_varint (header_word i Wire.sequence_start) ++ starts ids

-- The stream with its run committed.
abbrev pub flat : OStream → OStream
flat s = record s { pending = [] }

pub nothing :
    (s : OStream) → IsValid s → s.failure ≡ Error.no_error → Outcome [] s (s, Error.no_error)
nothing s v f = inl (record {
  valid = v;
  kept = Kept-refl s;
  fine = f;
  returned = refl;
  same = sym (append-nil (wire s));
})

put_starts_lem :
    (ids : List ℕ) (s : OStream)
    → IsValid s
    → s.failure ≡ Error.no_error
    → Outcome (starts ids) s (put_starts ids s)
unfolding put_starts starts put_varint
put_starts_lem [] s v f = nothing s v f
put_starts_lem (i ∷ ids) s v f =
    let head = encode_varint (header_word i Wire.sequence_start) in
    chain head (starts ids) (put_varint (header_word i Wire.sequence_start)) (put_starts ids) s s
      (push_bytes_lem head s v f)
      (λ w. put_starts_lem ids (put_varint (header_word i Wire.sequence_start) s).0 w.valid w.fine)

flat-Wrote :
    {bytes : List ℕ} {s : OStream} {r : OStream × Error}
    → Wrote bytes s r
    → Wrote bytes (flat s) (flat r.0, r.1)
unfolding wire
flat-Wrote {bytes} {s} {r} w = record {
  valid = ground arith;
  kept = record { callback = w.kept.callback; seq_depth = w.kept.seq_depth; pending = refl };
  fine = w.fine;
  returned = w.returned;
  same = w.same;
}

flat-Refused :
    {bytes : List ℕ} {s : OStream} {r : OStream × Error}
    → Refused bytes s r
    → Refused bytes (flat s) (flat r.0, r.1)
unfolding wire
flat-Refused {bytes} {s} {r} w = record {
  part = w.part;
  left = w.left;
  split = w.split;
  valid = ground arith;
  kept = record { callback = w.kept.callback; seq_depth = w.kept.seq_depth; pending = refl };
  latched = w.latched;
  failed = w.failed;
  same = w.same;
  blame = w.blame;
}

pub commit_pending_lem :
    (s : OStream)
    → IsValid s
    → s.failure ≡ Error.no_error
    → Outcome (starts s.pending) (flat s) (commit_pending s)
unfolding commit_pending
commit_pending_lem s v f = elim (put_starts_lem s.pending s v f) [
  | inl w ↦ inl (flat-Wrote w)
  | inr w ↦ inr (flat-Refused w)
]

is_empty-nil : (ids : List ℕ) → is_empty ids ≡ true → ids ≡ []
is_empty-nil [] h = refl
is_empty-nil (i ∷ ids) h = ground arith

uncommitted : (s : OStream) → s.pending ≡ [] → wire s ≡ wire (flat s) ++ starts s.pending
unfolding wire starts
uncommitted s e = sym (ap (λ p. wire s ++ starts p) e ∙ append-nil (wire s))

pub before_content_lem :
    (s : OStream)
    → IsValid s
    → s.failure ≡ Error.no_error
    → Outcome (starts s.pending) (flat s) (before_content s)
unfolding before_content
before_content_lem s v f = elim (Bool-cases (is_empty s.pending)) [
  | inl h ↦ rw h (
      inl (record {
        valid = v;
        kept = record { callback = refl; seq_depth = refl; pending = is_empty-nil s.pending h };
        fine = f;
        returned = refl;
        same = uncommitted s (is_empty-nil s.pending h);
      }))
  | inr h ↦ rw h (commit_pending_lem s v f)
]

pub header_word-lt : (i : ℕ) (w : Wire) → i ≤ id_max → header_word i w < 2 ^ 64
header_word-lt i w h =
    let code : wire_code w < 8 = ground arith in omega (arith, header_word_lem i w)

pub fixlen_word-lt : (n : ℕ) (t : Fix) → n ≤ fixlen_max → fixlen_word n t < 2 ^ 64
fixlen_word-lt n t h =
    let code : fix_code t < 8 = ground arith in omega (arith, fixlen_word_lem n t)

-- Two varints, by the padded form where there is room.
pub two_padded :
    (host : Endian) (a b : ℕ) (s : OStream)
    → a < 2 ^ 64
    → b < 2 ^ 64
    → IsValid s
    → s.failure ≡ Error.no_error
    → s.cursor + 20 ≤ length s.memory
    → Fits 20 (encode_varint a ++ encode_varint b) s (put_padded host b (put_padded host a s))
two_padded host a b s ha hb v f room =
    let one = put_padded-Fits host a s ha v f (omega arith) in
    let size = one.size in
    let taken = one.taken in
    Fits-trans one
      (put_padded-Fits host b (put_padded host a s) hb one.wrote.valid one.wrote.fine (omega arith))

scalar_body_lem :
    (host : Endian) (i : ℕ) (type : Wire) (value : ℕ) (s : OStream)
    → i ≤ id_max
    → value < 2 ^ 64
    → IsValid s
    → s.failure ≡ Error.no_error
    → Outcome
        (encode_varint (header_word i type) ++ encode_varint value)
        s
        (scalar_body host i type value s)
unfolding scalar_body
scalar_body_lem host i type value s hi hv v f =
    let head = header_word i type in
    let inside = v.inside in
    elim (lt_or_ge (room s) 20) [
      | inl h ↦
          rw (gt→leb 20 (room s) h)
            (push_bytes_lem (encode_varint head ++ encode_varint value) s v f)
      | inr h ↦
          rw (le→leb 20 (room s) h) (
            inl
              (two_padded host head value s (header_word-lt i type hi) hv v f (omega arith)).wrote)
    ]

-- With the id and the value in range, on a valid stream without a failure, an integer write puts
-- the pending headers, its head and its varint on the wire, or a front part of them with the
-- error latched.
pub write_scalar_lem :
    (host : Endian) (i : ℕ) (type : Wire) (value : ℕ) (s : OStream)
    → i ≤ id_max
    → value < 2 ^ 64
    → IsValid s
    → s.failure ≡ Error.no_error
    → Outcome
        (starts s.pending ++ (encode_varint (header_word i type) ++ encode_varint value))
        (flat s)
        (write_scalar host i type value s)
unfolding write_scalar
write_scalar_lem host i type value s hi hv v f =
    let field = encode_varint (header_word i type) ++ encode_varint value in
    rw (ge→ltb id_max i hi) (
      chain (starts s.pending) field before_content (scalar_body host i type value) (flat s) s
        (before_content_lem s v f)
        (λ w. scalar_body_lem host i type value (before_content s).0 hi hv w.valid w.fine))

-- A store behind two varints that fitted.
pub then_store :
    {xs : List ℕ} (bytes : List ℕ) {s t : OStream}
    → Fits 20 xs s t
    → s.cursor + 20 + length bytes ≤ length s.memory
    → Wrote (xs ++ bytes) s (store bytes t, Error.no_error)
then_store bytes {s} {t} a h =
    let size = a.size in
    let taken = a.taken in
    extend-Wrote a.wrote (store-Wrote bytes t a.wrote.valid a.wrote.fine (omega arith))

fixlen_body_lem :
    (host : Endian) (i : ℕ) (ft : Fix) (bytes : List ℕ) (s : OStream)
    → i ≤ id_max
    → length bytes ≤ fixlen_max
    → IsValid s
    → s.failure ≡ Error.no_error
    → Outcome
        ((encode_varint (header_word i Wire.fixlen)
            ++ encode_varint (fixlen_word (length bytes) ft))
          ++ bytes)
        s
        (fixlen_body host i ft bytes s)
unfolding fixlen_body
fixlen_body_lem host i ft bytes s hi hb v f =
    let head = header_word i Wire.fixlen in
    let word = fixlen_word (length bytes) ft in
    let both = encode_varint head ++ encode_varint word in
    let slow =
      chain both bytes (push_bytes both) (push_bytes bytes) s s (push_bytes_lem both s v f)
        (λ w. push_bytes_lem bytes (push_bytes both s).0 w.valid w.fine) in
    let inside = v.inside in
    elim (lt_or_ge (room s) 20) [
      | inl h ↦ rw (gt→leb 20 (room s) h) slow
      | inr h ↦ elim (lt_or_ge (room s - 20) (length bytes)) [
        | inl k ↦ rw (le→leb 20 (room s) h, gt→leb (length bytes) (room s - 20) k) slow
        | inr k ↦
            rw (le→leb 20 (room s) h, le→leb (length bytes) (room s - 20) k)
              (inl (
                then_store bytes
                  (two_padded host head word s (header_word-lt i Wire.fixlen hi)
                    (fixlen_word-lt (length bytes) ft hb) v f (omega arith))
                  (omega arith)))
      ]
    ]

-- With the id and the length in range, on a valid stream without a failure, a string or blob
-- write puts the pending headers, its head, its length word and its bytes on the wire, or a front
-- part of them with the error latched.
pub write_fixlen_lem :
    (host : Endian) (i : ℕ) (ft : Fix) (bytes : List ℕ) (s : OStream)
    → i ≤ id_max
    → length bytes ≤ fixlen_max
    → IsValid s
    → s.failure ≡ Error.no_error
    → Outcome
        (starts s.pending
          ++ ((encode_varint (header_word i Wire.fixlen)
                ++ encode_varint (fixlen_word (length bytes) ft))
              ++ bytes))
        (flat s)
        (write_fixlen host i ft bytes s)
unfolding write_fixlen
write_fixlen_lem host i ft bytes s hi hb v f =
    let both =
      encode_varint (header_word i Wire.fixlen) ++ encode_varint (fixlen_word (length bytes) ft) in
    rw (ge→ltb id_max i hi, ge→ltb fixlen_max (length bytes) hb)
      (chain (starts s.pending) (both ++ bytes) before_content (fixlen_body host i ft bytes)
        (flat s) s (before_content_lem s v f)
        (λ w. fixlen_body_lem host i ft bytes (before_content s).0 hi hb w.valid w.fine))
