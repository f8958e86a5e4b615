-- ===== src/OStream/Writes/Opening.antt =====
-- OStreamImpl::sequenceBeginLazy, on every depth and id.
use mathlib.Core.Path.{subst}
use corelib_cpp.Common.{
  ℕ, ◌≤◌, ◌<◌, ◌≡◌, refl, sym, ap, ◌⊎◌, inl, inr, lt_or_ge, le→leb, gt→leb, lt→ltb, false,
  Bool-cases,
}
use corelib_cpp.Wire.{Error, id_max, max_depth}
use corelib_cpp.OStream.{OStream, latch, is_ok}
use corelib_cpp.OStream.View.{wire}
use corelib_cpp.OStream.Sequences.{sequence_begin_lazy, sequence_end}
use corelib_cpp.OStream.Writes.Nested.{IsNested, entered, end-entered, sequence_begin_lazy_lem}

-- What opening a sequence does: it is open, and closing it at once takes it back; or it is refused, for
-- its depth or its id, with the first failure latched.
pub data Opened (i : ℕ) (s : OStream) (r : OStream × Error) : Type 0 where
  open_now :
      s.seq_depth < max_depth
      → i ≤ id_max
      → r.1 ≡ Error.no_error
      → sequence_end r.0 ≡ (s, Error.no_error)
      → Opened i s r
  refused :
      (max_depth ≤ s.seq_depth) ⊎ (id_max < i)
      → r.1 ≡ Error.invalid_argument
      → is_ok r.0.failure ≡ false
      → r.0 ≡ record s { failure = r.0.failure }
      → Opened i s r

argument_latched :
    (s : OStream)
    → (let r = latch Error.invalid_argument s in
        (is_ok r.0.failure ≡ false) × (r.0 ≡ record s { failure = r.0.failure }))
unfolding latch
argument_latched s = elim (Bool-cases (is_ok s.failure)) [
  | inl fine ↦ rw (latch, fine) (refl, refl)
  | inr failed ↦ rw (latch, failed) (failed, refl)
]

refused_lem :
    (i : ℕ) (s : OStream)
    → IsNested s
    → (max_depth ≤ s.seq_depth) ⊎ (id_max < i)
    → sequence_begin_lazy i s ≡ latch Error.invalid_argument s
    → Opened i s (sequence_begin_lazy i s)
      × IsNested (sequence_begin_lazy i s).0
      × (wire (sequence_begin_lazy i s).0 ≡ wire s)
unfolding wire latch
refused_lem i s n why e =
    let t = (latch Error.invalid_argument s).0 in
    let (failed, same) = argument_latched s in
    subst (λ r. Opened i s r × IsNested r.0 × (wire r.0 ≡ wire s)) (sym e)
      (
        Opened.refused why refl failed same,
        subst IsNested (sym same) (record { part = n.part; bounded = n.bounded }),
        ap wire same,
      )

-- On any stream with the run within the open sequences, and with any id: opening a sequence puts
-- no byte on the wire and keeps the run within the open sequences. Either the depth is below the
-- limit and the id in range, the answer is no_error, and closing the sequence at once gives back
-- the stream as it was; or the depth or the id is over its limit, the answer is invalid_argument,
-- a failure is latched, and nothing else of the stream has changed.
pub sequence_begin_lazy-Opened :
    (i : ℕ) (s : OStream)
    → IsNested s
    → Opened i s (sequence_begin_lazy i s)
      × IsNested (sequence_begin_lazy i s).0
      × (wire (sequence_begin_lazy i s).0 ≡ wire s)
unfolding sequence_begin_lazy entered wire
sequence_begin_lazy-Opened i s n = elim (lt_or_ge s.seq_depth max_depth) [
  | inr deep ↦ refused_lem i s n (inl deep) (rw (le→leb max_depth s.seq_depth deep) refl)
  | inl shallow ↦ elim (lt_or_ge id_max i) [
    | inl large ↦
        refused_lem i s n (inr large)
          (rw (gt→leb max_depth s.seq_depth shallow, lt→ltb id_max i large) refl)
    | inr small ↦
        let (e, nests) = sequence_begin_lazy_lem i s n shallow small in
        subst (λ r. Opened i s r × IsNested r.0 × (wire r.0 ≡ wire s)) (sym e)
          (Opened.open_now shallow small refl (end-entered i s), nests, refl)
  ]
]
