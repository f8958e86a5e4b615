-- ===== src/OStream/Message.antt =====
-- OStreamImpl as a whole: messages as trees of calls, their plain encoding, and one call after another.
pub mod Tree
use corelib_cpp.Common.{
  ℕ, zero, suc, ◌+◌, ◌-◌, ◌≤◌, ◌<◌, ◌≡◌, ◌^◌, refl, sym, ap, ap₂, ◌∙◌, arith, inl, inr, ◌⊎◌, max,
}
use mathlib.Core.Path.{subst}
use corelib_cpp.Common.{List, [], ◌∷◌, ◌++◌, append_assoc, append-nil, length, length-append}
use corelib_cpp.Common.{Bool, true, false, Bool-cases, if◌then◌else◌}
use corelib_cpp.Word.{Endian}
use corelib_cpp.Wire.{Error, Wire, Fix, header_word, fixlen_word, id_max, fixlen_max, max_depth}
use corelib_cpp.Varint.{encode_varint}
use corelib_cpp.Varint.RoundTrip.{encode_varint_shape}
use corelib_cpp.OStream.{OStream, Op, ◌>>◌, is_ok, succeed}
use corelib_cpp.OStream.View.{IsValid, wire}
use corelib_cpp.OStream.Push.{Wrote, Refused, Outcome, chain, go_on, stop, Blocked}
use corelib_cpp.OStream.Fields.{write_scalar, write_fixlen}
use corelib_cpp.OStream.Sequences.{sequence_begin_lazy, sequence_end, leave}
use corelib_cpp.OStream.Writes.{starts, flat, write_scalar_lem, write_fixlen_lem, header_word-lt}
use corelib_cpp.OStream.Writes.Nested.{
  IsNested, entered, end-entered, sequence_begin_lazy_lem, sequence_end_lem, end_mark,
}

-- The calls that write a message: each field, and then the rest.
pub data Message : Type 0 where
  done : Message
  scalar : ℕ → Wire → ℕ → Message → Message
  bytes : ℕ → Fix → List ℕ → Message → Message
  nested : ℕ → Message → Message → Message

unfoldable pub write_message : Endian → Message → Op
write_message host Message.done = succeed
write_message host (Message.scalar i type v rest) =
    write_scalar host i type v >> write_message host rest
write_message host (Message.bytes i ft bs rest) =
    write_fixlen host i ft bs >> write_message host rest
write_message host (Message.nested i inner rest) =
    sequence_begin_lazy i >> write_message host inner >> sequence_end >> write_message host rest

-- A sequence around what it holds, if it holds anything.
unfoldable pub enclose : ℕ → List ℕ → List ℕ
enclose i [] = []
enclose i (b ∷ bs) = encode_varint (header_word i Wire.sequence_start) ++ ((b ∷ bs) ++ end_mark)

unfoldable pub encode_message : Message → List ℕ
encode_message Message.done = []
encode_message (Message.scalar i type v rest) =
    (encode_varint (header_word i type) ++ encode_varint v) ++ encode_message rest
encode_message (Message.bytes i ft bs rest) =
    ((encode_varint (header_word i Wire.fixlen) ++ encode_varint (fixlen_word (length bs) ft))
      ++ bs)
    ++ encode_message rest
encode_message (Message.nested i inner rest) =
    enclose i (encode_message inner) ++ encode_message rest

-- The ids, values and lengths are in range, and no sequence stands deeper than `d`.
unfoldable pub IsWithin : ℕ → Message → Type 0
IsWithin d Message.done = Unit {0}
IsWithin d (Message.scalar i type v rest) = (i ≤ id_max) × (v < 2 ^ 64) × IsWithin d rest
IsWithin d (Message.bytes i ft bs rest) = (i ≤ id_max) × (length bs ≤ fixlen_max) × IsWithin d rest
IsWithin d (Message.nested i inner rest) =
    (i ≤ id_max) × (1 ≤ d) × IsWithin (d - 1) inner × IsWithin d rest

-- A refusal with the front part of `all` on the wire and the error latched.
pub record Stopped (all : List ℕ) (s : OStream) (r : OStream × Error) : Type 0 where
  pub part : List ℕ
  pub left : List ℕ
  pub split : all ≡ part ++ left
  pub latched : r.0.failure ≡ r.1
  pub failed : is_ok r.1 ≡ false
  pub same : wire r.0 ≡ wire s ++ part
  pub blame : Blocked s.callback

-- What a write of `body` does: nothing at all for an empty one; else the run and the body are on
-- the wire, or a front part of them.
pub data Written (body : List ℕ) (s : OStream) (r : OStream × Error) : Type 0 where
  untouched : body ≡ [] → r ≡ (s, Error.no_error) → Written body s r
  whole : 1 ≤ length body → Wrote (starts s.pending ++ body) (flat s) r → Written body s r
  stopped : 1 ≤ length body → Stopped (starts s.pending ++ body) s r → Written body s r

-- A stream that takes a message `d` sequences deep.
pub record Ready (d : ℕ) (s : OStream) : Type 0 where
  pub valid : IsValid s
  pub fine : s.failure ≡ Error.no_error
  pub nests : IsNested s
  pub deep : s.seq_depth + d ≤ max_depth

pub Wrote-Ready :
    {d : ℕ} {all : List ℕ} {s : OStream} {r : OStream × Error}
    → Ready d s
    → Wrote all (flat s) r
    → Ready d r.0
Wrote-Ready {d} {all} {s} {r} ready w =
    let none_left : length r.0.pending ≡ 0 = ap length w.kept.pending in
    let depth : r.0.seq_depth ≡ s.seq_depth = w.kept.seq_depth in
    let deep = ready.deep in
    record {
      valid = w.valid;
      fine = w.fine;
      nests = record { part = omega arith; bounded = omega arith };
      deep = omega arith;
    }

pub Outcome-Written :
    {body : List ℕ} {s : OStream} {r : OStream × Error}
    → 1 ≤ length body
    → Outcome (starts s.pending ++ body) (flat s) r
    → Written body s r
unfolding wire
Outcome-Written n (inl w) = Written.whole n w
Outcome-Written n (inr w) = Written.stopped n (record {
  part = w.part;
  left = w.left;
  split = w.split;
  latched = w.latched;
  failed = w.failed;
  same = w.same;
  blame = w.blame;
})

-- One part of a message after another.
module _ (xs ys : List ℕ) (second : Op) (s : OStream) (r : OStream × Error) where
  long_enough : 1 ≤ length xs → 1 ≤ length (xs ++ ys)
  long_enough n = let e = length-append xs ys in omega arith

  run_over : Wrote (starts s.pending ++ xs) (flat s) r → starts r.0.pending ++ ys ≡ ys
  unfolding starts
  run_over w = ap (λ p. starts p ++ ys) w.kept.pending

  on_wire :
      (more : List ℕ)
      → Wrote (starts s.pending ++ xs) (flat s) r
      → wire r.0 ++ more ≡ wire s ++ (starts s.pending ++ (xs ++ more))
  unfolding wire
  on_wire more w =
      ap (λ t. t ++ more) w.same
      ∙ append_assoc (wire s) (starts s.pending ++ xs) more
      ∙ ap (λ t. wire s ++ t) (append_assoc (starts s.pending) xs more)

  join_whole :
      1 ≤ length xs
      → Wrote (starts s.pending ++ xs) (flat s) r
      → Written ys r.0 (second r.0)
      → Written (xs ++ ys) s (second r.0)
  unfolding wire
  join_whole n w (Written.untouched e same) =
      let all : starts s.pending ++ xs ≡ starts s.pending ++ (xs ++ ys) =
        ap (λ t. starts s.pending ++ t) (sym (ap (λ t. xs ++ t) e ∙ append-nil xs)) in
      subst (Written (xs ++ ys) s) (sym same) (
        Written.whole (long_enough n) (record {
          valid = w.valid;
          kept = w.kept;
          fine = w.fine;
          returned = refl;
          same = w.same ∙ ap (λ t. wire s ++ t) all;
        }))
  join_whole n w (Written.whole m w2) = Written.whole (long_enough n) (record {
    valid = w2.valid;
    kept = record {
      callback = w2.kept.callback ∙ w.kept.callback;
      seq_depth = w2.kept.seq_depth ∙ w.kept.seq_depth;
      pending = w2.kept.pending;
    };
    fine = w2.fine;
    returned = w2.returned;
    same = w2.same ∙ ap (λ t. wire r.0 ++ t) (run_over w) ∙ on_wire ys w;
  })
  join_whole n w (Written.stopped m w2) = Written.stopped (long_enough n) (record {
    part = starts s.pending ++ (xs ++ w2.part);
    left = w2.left;
    split = split_at w2.part w2.left (sym (run_over w) ∙ w2.split);
    latched = w2.latched;
    failed = w2.failed;
    same = w2.same ∙ on_wire w2.part w;
    blame = subst Blocked w.kept.callback w2.blame;
  })
    where
      split_at :
          (part left : List ℕ)
          → ys ≡ part ++ left
          → starts s.pending ++ (xs ++ ys) ≡ (starts s.pending ++ (xs ++ part)) ++ left
      split_at part left e =
          ap (λ t. starts s.pending ++ (xs ++ t)) e
          ∙ ap (λ t. starts s.pending ++ t) (sym (append_assoc xs part left))
          ∙ sym (append_assoc (starts s.pending) (xs ++ part) left)

  join_stopped : 1 ≤ length xs → Stopped (starts s.pending ++ xs) s r → Written (xs ++ ys) s r
  join_stopped n w = Written.stopped (long_enough n) (record {
    part = w.part;
    left = w.left ++ ys;
    split =
        sym (append_assoc (starts s.pending) xs ys)
        ∙ ap (λ t. t ++ ys) w.split
        ∙ append_assoc w.part w.left ys;
    latched = w.latched;
    failed = w.failed;
    same = w.same;
    blame = w.blame;
  })

pub join :
    {d : ℕ} (xs ys : List ℕ) (first second : Op) (s : OStream)
    → Ready d s
    → Written xs s (first s)
    → ((t : OStream) → Ready d t → Written ys t (second t))
    → Written (xs ++ ys) s ((first >> second) s)
join xs ys first second s ready (Written.untouched e same) next = rw (same, e) (next s ready)
join xs ys first second s ready (Written.whole n w) next =
    subst (Written (xs ++ ys) s) (sym (go_on first second s w.returned))
      (join_whole xs ys second s (first s) n w (next (first s).0 (Wrote-Ready ready w)))
join xs ys first second s ready (Written.stopped n w) next =
    subst (Written (xs ++ ys) s) (sym (stop first second s w.failed))
      (join_stopped xs ys second s (first s) n w)
