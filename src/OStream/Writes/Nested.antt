-- ===== src/OStream/Writes/Nested.antt =====
-- OStreamImpl: sequenceBeginLazy, sequenceEnd and sequenceEndKeep.
use corelib_cpp.Common.{ℕ, ◌+◌, ◌-◌, ◌≤◌, ◌<◌, ◌≡◌, refl, sym, ap, ap₂, arith, inl, inr}
use mathlib.Core.Path.{subst}
use corelib_cpp.Common.{List, [], ◌∷◌, ◌++◌, length, length-append}
use corelib_cpp.Common.{true, false, Bool-cases, gt→leb, ge→ltb}
use corelib_cpp.Wire.{Error, Wire, header_word, id_max, max_depth}
use corelib_cpp.Varint.{encode_varint}
use corelib_cpp.OStream.{OStream, ◌>>◌}
use corelib_cpp.OStream.View.{IsValid}
use corelib_cpp.OStream.Push.{Outcome, chain, push_bytes_lem}
use corelib_cpp.OStream.Drain.{Kept}
use corelib_cpp.OStream.Fields.{put_varint, before_content, is_empty}
use corelib_cpp.OStream.Sequences.{
  sequence_begin_lazy, sequence_end, sequence_end_keep, drop_last, leave, put_sequence_end,
}
use corelib_cpp.OStream.Writes.{starts, flat, before_content_lem}

-- The run is a part of the open sequences, of which there are at most `max_depth`.
pub record IsNested (s : OStream) : Type 0 where
  pub part : length s.pending ≤ s.seq_depth
  pub bounded : s.seq_depth ≤ max_depth

drop_last-append : (ids : List ℕ) (i : ℕ) → drop_last (ids ++ (i ∷ [])) ≡ ids
drop_last-append [] i = refl
drop_last-append (j ∷ []) i = refl
drop_last-append (j ∷ k ∷ ids) i = ap (◌∷◌ j) (drop_last-append (k ∷ ids) i)

length-drop_last : (ids : List ℕ) → length (drop_last ids) ≡ length ids - 1
length-drop_last [] = refl
length-drop_last (i ∷ []) = refl
length-drop_last (i ∷ j ∷ ids) = omega (arith, length-drop_last (j ∷ ids))

-- What `sequence_begin_lazy` returns where it is admitted.
unfoldable pub entered : ℕ → OStream → OStream
entered i s = record s { pending = s.pending ++ (i ∷ []); seq_depth = s.seq_depth + 1 }

-- With the run within the open sequences, a depth below the limit and an id in range, opening a
-- sequence is never refused: it adds the id at the end of the run, raises the depth by one and
-- keeps the run within the open sequences.
pub sequence_begin_lazy_lem :
    (i : ℕ) (s : OStream)
    → IsNested s
    → s.seq_depth < max_depth
    → i ≤ id_max
    → (sequence_begin_lazy i s ≡ (entered i s, Error.no_error)) × IsNested (entered i s)
unfolding sequence_begin_lazy entered
sequence_begin_lazy_lem i s n d h =
    let part = n.part in
    let size = length-append s.pending (i ∷ []) in
    (
      rw
          (
            gt→leb max_depth s.seq_depth d,
            ge→ltb id_max i h,
            gt→leb max_depth (length s.pending) (omega arith),
          )
          refl,
      record { part = omega arith; bounded = omega arith },
    )

is_empty-append : (ids : List ℕ) (i : ℕ) → is_empty (ids ++ (i ∷ [])) ≡ false
is_empty-append [] i = refl
is_empty-append (j ∷ ids) i = refl

pub end-entered : (i : ℕ) (s : OStream) → sequence_end (entered i s) ≡ (s, Error.no_error)
unfolding sequence_end entered leave
end-entered i s =
    let depth : s.seq_depth + 1 - 1 ≡ s.seq_depth = omega arith in
    rw (is_empty-append s.pending i) (
      ap₂ (λ p d. (record s { pending = p; seq_depth = d }, Error.no_error))
        (drop_last-append s.pending i) depth)

-- Where a sequence can be opened, opening it and closing it at once leaves the stream exactly as
-- it was and returns no error.
pub begin-end :
    (i : ℕ) (s : OStream)
    → IsNested s
    → s.seq_depth < max_depth
    → i ≤ id_max
    → (sequence_begin_lazy i >> sequence_end) s ≡ (s, Error.no_error)
begin-end i s n d h = rw ((sequence_begin_lazy_lem i s n d h).0) (end-entered i s)

-- The end of a sequence, as it stands on the wire.
abbrev pub end_mark : List ℕ
end_mark = encode_varint (header_word 0 Wire.sequence_end)

leave-IsValid : {s : OStream} → IsValid s → IsValid (leave s)
unfolding leave
leave-IsValid v = ground arith

put_sequence_end_lem :
    (s : OStream) → IsValid s → s.failure ≡ Error.no_error → Outcome end_mark s (put_sequence_end s)
unfolding put_sequence_end put_varint
put_sequence_end_lem s v f = push_bytes_lem end_mark s v f

-- With the run written already, `sequenceEnd` writes the end.
pub sequence_end_lem :
    (s : OStream)
    → s.pending ≡ []
    → IsValid s
    → s.failure ≡ Error.no_error
    → Outcome end_mark (leave s) (sequence_end s)
unfolding sequence_end
sequence_end_lem s none_left v f =
    let e : is_empty s.pending ≡ true = ap is_empty none_left in
    rw e (put_sequence_end_lem (leave s) (leave-IsValid v) (unfold leave in f))

as_content : (s : OStream) → sequence_end_keep s ≡ (before_content >> put_sequence_end) (leave s)
unfolding sequence_end_keep before_content leave
as_content s = elim (Bool-cases (is_empty s.pending)) [ inl h ↦ rw h refl | inr h ↦ rw h refl ]

-- On a valid stream without a failure, closing a sequence that is to be kept puts the pending
-- headers and the end mark on the wire, or a front part of them with the error latched, with the
-- run cleared and the depth one lower.
pub sequence_end_keep_lem :
    (s : OStream)
    → IsValid s
    → s.failure ≡ Error.no_error
    → Outcome (starts s.pending ++ end_mark) (flat (leave s)) (sequence_end_keep s)
unfolding leave
sequence_end_keep_lem s v f =
    let t = leave s in
    subst (Outcome (starts s.pending ++ end_mark) (flat t)) (sym (as_content s)) (
      chain (starts s.pending) end_mark before_content put_sequence_end (flat t) t
        (before_content_lem t (leave-IsValid v) f)
        (λ w. put_sequence_end_lem (before_content t).0 w.valid w.fine))

Outcome-Kept : {bytes : List ℕ} {s : OStream} {r : OStream × Error} → Outcome bytes s r → Kept s r.0
Outcome-Kept (inl w) = w.kept
Outcome-Kept (inr w) = w.kept

-- On a valid stream without a failure, closing a kept sequence keeps the run within the open
-- sequences and these within the limit, whatever it returns.
pub sequence_end_keep-IsNested :
    (s : OStream)
    → IsNested s
    → IsValid s
    → s.failure ≡ Error.no_error
    → IsNested (sequence_end_keep s).0
unfolding leave
sequence_end_keep-IsNested s n v f =
    let k = Outcome-Kept (sequence_end_keep_lem s v f) in
    let none_left : length (sequence_end_keep s).0.pending ≡ 0 = ap length k.pending in
    let depth : (sequence_end_keep s).0.seq_depth ≡ s.seq_depth - 1 = k.seq_depth in
    let bounded = n.bounded in record { part = omega arith; bounded = omega arith }
