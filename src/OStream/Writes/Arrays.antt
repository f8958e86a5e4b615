-- ===== src/OStream/Writes/Arrays.antt =====
-- OStreamImpl::writeIntArray: its head and its batched loop.
use corelib_cpp.Common.{
  ℕ, zero, suc, ◌+◌, ◌*◌, ◌/◌, ◌≤◌, ◌<◌, ◌≡◌, ◌^◌, refl, sym, ap, ◌∙◌, arith, inl, inr,
}
use mathlib.Core.Path.{subst}
use corelib_cpp.Common.{
  List, [], ◌∷◌, ◌++◌, append_assoc, append-nil, length, take, drop, All, map, min, ◌==◌,
}
use corelib_cpp.Common.{length-take, length-drop, take-append-drop, All-take, All-drop}
use corelib_cpp.Common.{Bool, Bool-cases, lt_or_ge, le→leb, gt→leb, ge→ltb, if◌then◌else◌}
use corelib_cpp.Word.{Endian}
use corelib_cpp.Wire.{Error, Wire, header_word, id_max, array_max}
use corelib_cpp.Varint.{encode_varint}
use corelib_cpp.OStream.{OStream, ◌>>◌, room, push_bytes}
use corelib_cpp.OStream.View.{IsValid, wire}
use corelib_cpp.OStream.Push.{Wrote, Outcome, chain, push_bytes_lem}
use corelib_cpp.OStream.Drain.{Kept-refl}
use corelib_cpp.OStream.Padding.{Fits, Fits-trans, after_Fits, put_padded-Fits}
use corelib_cpp.OStream.Fields.{
  before_content, put_padded, put_batch, put_words, array_head, write_int_array,
}
use corelib_cpp.OStream.Fields.{Element, element_word}
use corelib_cpp.OStream.Writes.{
  starts, flat, nothing, before_content_lem, header_word-lt, two_padded,
}

abbrev pub IsU64 : ℕ → Type 0
IsU64 w = w < 2 ^ 64

unfoldable pub varints : List ℕ → List ℕ
varints [] = []
varints (w ∷ ws) = encode_varint w ++ varints ws

varints-append : (xs ys : List ℕ) → varints (xs ++ ys) ≡ varints xs ++ varints ys
unfolding varints
varints-append [] ys = refl
varints-append (x ∷ xs) ys =
    ap (λ t. encode_varint x ++ t) (varints-append xs ys)
    ∙ sym (append_assoc (encode_varint x) (varints xs) (varints ys))

put_batch-Fits :
    (host : Endian) (ws : List ℕ) (s : OStream)
    → All IsU64 ws
    → IsValid s
    → s.failure ≡ Error.no_error
    → s.cursor + 10 * length ws ≤ length s.memory
    → Fits (10 * length ws) (varints ws) s (put_batch host ws s)
unfolding varints put_batch
put_batch-Fits host [] s h v f r = record {
  wrote = record {
    valid = v;
    kept = Kept-refl s;
    fine = f;
    returned = refl;
    same = sym (append-nil (wire s));
  };
  size = refl;
  taken = omega arith;
}
put_batch-Fits host (w ∷ ws) s h v f r =
    let one = put_padded-Fits host w s h.0 v f (omega arith) in
    let size = one.size in
    let taken = one.taken in
    let both = Fits-trans one (
      put_batch-Fits host ws (put_padded host w s) h.1 one.wrote.valid one.wrote.fine
        (omega arith)) in
    let e : 10 + 10 * length ws ≡ 10 * length (w ∷ ws) = omega arith in
    subst (λ k. Fits k (varints (w ∷ ws)) s (put_batch host (w ∷ ws) s)) e both

-- A round of the batched loop, with what the rounds behind it do.
batch_round :
    (host : Endian) (n : ℕ) (ws : List ℕ) (s : OStream) (r : OStream × Error)
    → n ≤ room s / 10
    → n ≤ length ws
    → All IsU64 ws
    → IsValid s
    → s.failure ≡ Error.no_error
    → (Wrote (varints (take n ws)) s (put_batch host (take n ws) s, Error.no_error)
        → Outcome (varints (drop n ws)) (put_batch host (take n ws) s) r)
    → Outcome (varints ws) s r
batch_round host n ws s r few short u v f next =
    let size : length (take n ws) ≡ n = (let e = length-take n ws in omega arith) in
    let inside = v.inside in
    let batch = put_batch-Fits host (take n ws) s (All-take IsU64 n ws u) v f (omega arith) in
    let e : varints (take n ws) ++ varints (drop n ws) ≡ varints ws =
      sym (varints-append (take n ws) (drop n ws)) ∙ ap varints (take-append-drop n ws) in
    subst (λ bytes. Outcome bytes s r) e (after_Fits batch (next batch.wrote))

-- The loop, with the count of elements as fuel.
pub put_words_lem :
    (host : Endian) (fuel : ℕ) (ws : List ℕ) (s : OStream)
    → length ws ≤ fuel
    → All IsU64 ws
    → IsValid s
    → s.failure ≡ Error.no_error
    → Outcome (varints ws) s (put_words host fuel ws s)
unfolding put_words varints
put_words_lem host fuel [] s h u v f = nothing s v f
put_words_lem host zero (w ∷ ws) s h u v f = absurd (omega arith)
put_words_lem host (suc fuel) (w ∷ ws) s h u v f =
    let inside = v.inside in
    elim (Bool-cases (room s / 10 == 0)) [
      | inl full ↦ rw full (
          chain (encode_varint w) (varints ws) (push_bytes (encode_varint w))
            (put_words host fuel ws) s s (push_bytes_lem (encode_varint w) s v f)
            (λ o.
              put_words_lem host fuel ws (push_bytes (encode_varint w) s).0 (omega arith) u.1
                o.valid o.fine))
      | inr some_fit ↦ rw some_fit (
          let n = min (room s / 10) (suc (length ws)) in
          let all = w ∷ ws in
          let t = put_batch host (take n all) s in
          let some_room : 1 ≤ room s / 10 = ground arith in
          let left : length (drop n all) ≤ fuel = (let e = length-drop n all in omega arith) in
          batch_round host n all s (put_words host fuel (drop n all) t) (omega arith) (omega arith)
            u v f
            (λ o.
              put_words_lem host fuel (drop n all) t left (All-drop IsU64 n all u) o.valid o.fine))
    ]

-- `write` of an array of integers. `elems` are of one element type, so `is_signed` goes with them.
unfoldable pub array_field : ℕ → Wire → ℕ → List ℕ → List ℕ
array_field i type count ws =
    (encode_varint (header_word i type) ++ encode_varint count) ++ varints ws

array_head_lem :
    (host : Endian) (i : ℕ) (type : Wire) (count : ℕ) (s : OStream)
    → i ≤ id_max
    → count < 2 ^ 64
    → IsValid s
    → s.failure ≡ Error.no_error
    → Outcome
        (encode_varint (header_word i type) ++ encode_varint count)
        s
        (array_head host i type count s)
unfolding array_head
array_head_lem host i type count s hi hv v f =
    let head = header_word i type in
    let inside = v.inside in
    elim (lt_or_ge (room s) 20) [
      | inl h ↦
          rw (gt→leb 20 (room s) h)
            (push_bytes_lem (encode_varint head ++ encode_varint count) s v f)
      | inr h ↦
          rw (le→leb 20 (room s) h) (
            inl
              (two_padded host head count s (header_word-lt i type hi) hv v f (omega arith)).wrote)
    ]

three_parts :
    (host : Endian) (i : ℕ) (type : Wire) (count : ℕ) (words : List ℕ) (s : OStream)
    → i ≤ id_max
    → count < 2 ^ 64
    → All IsU64 words
    → IsValid s
    → s.failure ≡ Error.no_error
    → Outcome
        (starts s.pending ++ array_field i type count words)
        (flat s)
        ((before_content >> array_head host i type count >> put_words host (length words) words) s)
unfolding array_field
three_parts host i type count words s hi hc u v f =
    let head = encode_varint (header_word i type) ++ encode_varint count in
    let first = before_content >> array_head host i type count in
    let two =
      chain (starts s.pending) head before_content (array_head host i type count) (flat s) s
        (before_content_lem s v f)
        (λ w. array_head_lem host i type count (before_content s).0 hi hc w.valid w.fine) in
    subst (λ bytes. Outcome bytes (flat s) ((first >> put_words host (length words) words) s))
      (append_assoc (starts s.pending) head (varints words))
      (chain (starts s.pending ++ head) (varints words) first (put_words host (length words) words)
        (flat s) s two
        (λ w. put_words_lem host (length words) words (first s).0 (omega arith) u w.valid w.fine))

-- With the id, the count and the element words in range, on a valid stream without a failure, the
-- batched array write puts the pending headers, the head, the count and the varint of each
-- element in order on the wire, or a front part of them with the error latched.
pub write_int_array_lem :
    (host : Endian) (i : ℕ) (is_signed : Bool) (elems : List Element) (s : OStream)
    → i ≤ id_max
    → length elems ≤ array_max
    → All IsU64 (map element_word elems)
    → IsValid s
    → s.failure ≡ Error.no_error
    → Outcome
        (starts s.pending
          ++ array_field i
              (if is_signed then Wire.array_signed else Wire.array_unsigned)
              (length elems)
              (map element_word elems))
        (flat s)
        (write_int_array host i is_signed elems s)
unfolding write_int_array
write_int_array_lem host i is_signed elems s hi few u v f =
    let type = if is_signed then Wire.array_signed else Wire.array_unsigned in
    rw (ge→ltb id_max i hi, ge→ltb array_max (length elems) few)
      (three_parts host i type (length elems) (map element_word elems) s hi (omega arith) u v f)
