-- ===== src/OStream/Message/Tree.antt =====
-- OStreamImpl: messages, by induction on the calls.
use mathlib.Core.Path.{subst}
use corelib_cpp.Common.{ℕ, ◌+◌, ◌-◌, ◌≤◌, ◌<◌, ◌≡◌, ◌^◌, refl, sym, ap, ◌∙◌, arith, inl, inr}
use corelib_cpp.Common.{
  List, [], ◌∷◌, ◌++◌, append_assoc, append-nil, length, length-append, Option, none, some,
}
use corelib_cpp.Word.{Endian}
use corelib_cpp.Wire.{Error, Wire, header_word, fixlen_word, id_max, max_depth}
use corelib_cpp.Varint.{encode_varint}
use corelib_cpp.Varint.RoundTrip.{encode_varint_shape}
use corelib_cpp.OStream.{Callback, Chunk, Install, OStream, Op, ◌>>◌}
use corelib_cpp.OStream.View.{wire}
use corelib_cpp.OStream.Drain.{Kept}
use corelib_cpp.OStream.Push.{Wrote, Outcome, Blocked}
use corelib_cpp.OStream.Fields.{write_scalar, write_fixlen}
use corelib_cpp.OStream.Sequences.{sequence_begin_lazy, sequence_end, leave}
use corelib_cpp.OStream.Writes.{starts, flat, write_scalar_lem, write_fixlen_lem, header_word-lt}
use corelib_cpp.OStream.Writes.Nested.{
  IsNested, entered, end-entered, sequence_begin_lazy_lem, sequence_end_lem, end_mark,
}
use corelib_cpp.OStream.Message.{
  Message, write_message, enclose, encode_message, IsWithin, Stopped, Written, Ready,
}
use corelib_cpp.OStream.Message.{Outcome-Written, join}

starts-append :
    (ids : List ℕ) (i : ℕ)
    → starts (ids ++ (i ∷ [])) ≡ starts ids ++ encode_varint (header_word i Wire.sequence_start)
unfolding starts
starts-append [] i = append-nil (encode_varint (header_word i Wire.sequence_start))
starts-append (j ∷ ids) i =
    let head = encode_varint (header_word j Wire.sequence_start) in
    ap (λ t. head ++ t) (starts-append ids i)
    ∙ sym (append_assoc head (starts ids) (encode_varint (header_word i Wire.sequence_start)))

-- The run with one more id, a body and the end are the run and the enclosed body.
enclosed :
    (ids : List ℕ) (i : ℕ) (body : List ℕ)
    → 1 ≤ length body
    → (starts (ids ++ (i ∷ [])) ++ body) ++ end_mark ≡ starts ids ++ enclose i body
unfolding enclose
enclosed ids i [] h = absurd (omega arith)
enclosed ids i (b ∷ bs) h =
    let head = encode_varint (header_word i Wire.sequence_start) in
    let body = b ∷ bs in
    ap (λ t. (t ++ body) ++ end_mark) (starts-append ids i)
    ∙ ap (λ t. t ++ end_mark) (append_assoc (starts ids) head body)
    ∙ append_assoc (starts ids) (head ++ body) end_mark
    ∙ ap (λ t. starts ids ++ t) (append_assoc head body end_mark)

length-enclose : (i : ℕ) (body : List ℕ) → 1 ≤ length body → 1 ≤ length (enclose i body)
unfolding enclose
length-enclose i [] h = absurd (omega arith)
length-enclose i (b ∷ bs) h =
    let head = encode_varint (header_word i Wire.sequence_start) in
    let e = length-append head ((b ∷ bs) ++ end_mark) in omega arith

-- The close of a sequence behind what its calls did.
module _ (i : ℕ) (body : List ℕ) (s : OStream) (r : OStream × Error) where
  abbrev whole : List ℕ
  whole = starts (s.pending ++ (i ∷ [])) ++ body

  sequence_end-Kept :
      Wrote whole (flat (entered i s)) r
      → Kept (leave r.0) (sequence_end r.0).0
      → Kept (flat s) (sequence_end r.0).0
  unfolding entered leave
  sequence_end-Kept w k =
      let deeper : r.0.seq_depth ≡ s.seq_depth + 1 = w.kept.seq_depth in
      let depth : (sequence_end r.0).0.seq_depth ≡ r.0.seq_depth - 1 = k.seq_depth in
      record {
        callback = k.callback ∙ w.kept.callback;
        seq_depth = omega arith;
        pending = k.pending ∙ w.kept.pending;
      }

  close-Outcome :
      1 ≤ length body
      → Wrote (starts (s.pending ++ (i ∷ [])) ++ body) (flat (entered i s)) r
      → Outcome end_mark (leave r.0) (sequence_end r.0)
      → Outcome (starts s.pending ++ enclose i body) (flat s) (sequence_end r.0)
  unfolding wire entered leave
  close-Outcome n w (inl o) = inl (record {
    valid = o.valid;
    kept = sequence_end-Kept w o.kept;
    fine = o.fine;
    returned = o.returned;
    same =
        o.same
        ∙ ap (λ t. t ++ end_mark) w.same
        ∙ append_assoc (wire s) whole end_mark
        ∙ ap (λ t. wire s ++ t) (enclosed s.pending i body n);
  })
  close-Outcome n w (inr o) = inr (record {
    part = whole ++ o.part;
    left = o.left;
    split =
        sym (enclosed s.pending i body n)
        ∙ ap (λ t. whole ++ t) o.split
        ∙ sym (append_assoc whole o.part o.left);
    valid = o.valid;
    kept = sequence_end-Kept w o.kept;
    latched = o.latched;
    failed = o.failed;
    same = o.same ∙ ap (λ t. t ++ o.part) w.same ∙ append_assoc (wire s) whole o.part;
    blame = subst Blocked w.kept.callback o.blame;
  })

  close-Stopped :
      1 ≤ length body
      → Stopped (starts (s.pending ++ (i ∷ [])) ++ body) (entered i s) r
      → Written (enclose i body) s r
  unfolding wire entered
  close-Stopped n w = Written.stopped (length-enclose i body n) (record {
    part = w.part;
    left = w.left ++ end_mark;
    split =
        sym (enclosed s.pending i body n)
        ∙ ap (λ t. t ++ end_mark) w.split
        ∙ append_assoc w.part w.left end_mark;
    latched = w.latched;
    failed = w.failed;
    same = w.same;
    blame = w.blame;
  })

close :
    (i : ℕ) (body : List ℕ) (inner : Op) (s : OStream)
    → IsNested s
    → s.seq_depth < max_depth
    → i ≤ id_max
    → Written body (entered i s) (inner (entered i s))
    → Written (enclose i body) s ((sequence_begin_lazy i >> inner >> sequence_end) s)
unfolding enclose entered
close i body inner s n d h (Written.untouched e same) =
    rw ((sequence_begin_lazy_lem i s n d h).0, same, e) (Written.untouched refl (end-entered i s))
close i body inner s n d h (Written.whole m w) = rw ((sequence_begin_lazy_lem i s n d h).0) (
    rw w.returned (
      Outcome-Written (length-enclose i body m) (
        close-Outcome i body s (inner (entered i s)) m w
          (sequence_end_lem (inner (entered i s)).0 w.kept.pending w.valid w.fine))))
close i body inner s n d h (Written.stopped m w) =
    rw ((sequence_begin_lazy_lem i s n d h).0)
      (rw w.failed (close-Stopped i body s (inner (entered i s)) m w))

entered-Ready :
    (d i : ℕ) (s : OStream)
    → 1 ≤ d
    → Ready d s
    → IsNested (entered i s)
    → Ready (d - 1) (entered i s)
unfolding entered
entered-Ready d i s h ready n =
    let deep = ready.deep in
    record { valid = ground arith; fine = ready.fine; nests = n; deep = omega arith }

-- A leading varint makes a field non-empty.
leads : (v : ℕ) (more : List ℕ) → v < 2 ^ 64 → 1 ≤ length (encode_varint v ++ more)
leads v more h =
    let (_, some_bytes, _) = encode_varint_shape v h in
    let e = length-append (encode_varint v) more in omega arith

leads_two : (v : ℕ) (xs ys : List ℕ) → v < 2 ^ 64 → 1 ≤ length ((encode_varint v ++ xs) ++ ys)
leads_two v xs ys h =
    let some_bytes = leads v xs h in let e = length-append (encode_varint v ++ xs) ys in omega arith

-- Writing a message call by call, on a valid stream without a failure and with ids, values,
-- lengths and depth in range, either leaves the stream as it was, if the message is empty, or
-- puts the headers of the sequences opened so far and the plain encoding of the message, without
-- its empty sequences, on the wire and clears the run, or puts a front part of those bytes there,
-- latches the error that it returns, and there is no callback or one that installs buffers.
pub write_message-encode_message :
    (host : Endian) (d : ℕ) (m : Message) (s : OStream)
    → IsWithin d m
    → Ready d s
    → Written (encode_message m) s (write_message host m s)
unfolding write_message encode_message IsWithin
write_message-encode_message host d Message.done s h ready = Written.untouched refl refl
write_message-encode_message host d (Message.scalar i type v rest) s (hi, hv, hr) ready =
    let head = header_word i type in
    join (encode_varint head ++ encode_varint v) (encode_message rest) (write_scalar host i type v)
      (write_message host rest) s ready
      (Outcome-Written (leads head (encode_varint v) (header_word-lt i type hi))
        (write_scalar_lem host i type v s hi hv ready.valid ready.fine))
      (λ t r. write_message-encode_message host d rest t hr r)
write_message-encode_message host d (Message.bytes i ft bs rest) s (hi, hb, hr) ready =
    let head = header_word i Wire.fixlen in
    let word = fixlen_word (length bs) ft in
    join ((encode_varint head ++ encode_varint word) ++ bs) (encode_message rest)
      (write_fixlen host i ft bs) (write_message host rest) s ready
      (Outcome-Written (leads_two head (encode_varint word) bs (header_word-lt i Wire.fixlen hi))
        (write_fixlen_lem host i ft bs s hi hb ready.valid ready.fine))
      (λ t r. write_message-encode_message host d rest t hr r)
write_message-encode_message host d (Message.nested i inner rest) s (hi, hd, ha, hr) ready =
    let deep = ready.deep in
    let shallow : s.seq_depth < max_depth = omega arith in
    let n = (sequence_begin_lazy_lem i s ready.nests shallow hi).1 in
    let inside = entered-Ready d i s hd ready n in
    join (enclose i (encode_message inner)) (encode_message rest)
      (sequence_begin_lazy i >> write_message host inner >> sequence_end) (write_message host rest)
      s ready
      (close i (encode_message inner) (write_message host inner) s ready.nests shallow hi
        (write_message-encode_message host (d - 1) inner (entered i s) ha inside))
      (λ t r. write_message-encode_message host d rest t hr r)

called : Option Callback → List Chunk → List Install
called none cs = []
called (some g) cs = g cs

unblocked :
    (cb : Option Callback) (f : Callback)
    → cb ≡ some f
    → ((cs : List Chunk) → f cs ≡ [])
    → ¬ (Blocked cb)
unfolding Blocked called
unblocked none f c keeps b = absurd (ground arith)
unblocked (some g) f c keeps (cs, installs) = installs (ap (λ o. called o cs) c ∙ keeps cs)

drained_message :
    (body : List ℕ) (s : OStream) (r : OStream × Error)
    → ¬ (Blocked s.callback)
    → s.pending ≡ []
    → Written body s r
    → (r.1 ≡ Error.no_error) × (wire r.0 ≡ wire s ++ body)
unfolding wire starts
drained_message body s r free p (Written.untouched e same) = (
  ap (λ t. t.1) same,
  ap (λ t. wire t.0) same ∙ sym (ap (λ t. wire s ++ t) e ∙ append-nil (wire s)),
)
drained_message body s r free p (Written.whole n w) =
    (w.returned, w.same ∙ ap (λ ids. wire s ++ (starts ids ++ body)) p)
drained_message body s r free p (Written.stopped n w) = absurd (free w.blame)

-- With a callback that installs no buffer and nothing pending, on a valid stream without a
-- failure, every message in range is written without an error and stands on the wire as its plain
-- encoding.
pub write_message_drains :
    (host : Endian) (m : Message) (f : Callback) (d : ℕ) (s : OStream)
    → s.callback ≡ some f
    → ((cs : List Chunk) → f cs ≡ [])
    → s.pending ≡ []
    → IsWithin d m
    → Ready d s
    → ((write_message host m s).1 ≡ Error.no_error)
      × (wire (write_message host m s).0 ≡ wire s ++ encode_message m)
write_message_drains host m f d s c keeps p h ready =
    drained_message (encode_message m) s (write_message host m s) (unblocked s.callback f c keeps) p
      (write_message-encode_message host d m s h ready)
