-- ===== src/OStream/Drain.antt =====
-- OStreamImpl: what handing the buffer over does to the wire.
use corelib_cpp.Common.{◌≤◌, ◌<◌, ◌≡◌, ◌≢◌, refl, sym, ap, ap₂, ◌∙◌, arith, ◌⊎◌, inl, inr}
use corelib_cpp.Common.{List, [], ◌∷◌, ◌++◌, append-nil, length, take, drop_all, length-take}
use corelib_cpp.Common.{true, false, some}
use mathlib.Core.Path.{subst}
use corelib_cpp.Wire.{Error}
use corelib_cpp.OStream.{OStream, Install, Chunk, Callback, has_callback, is_ok, hand_over, rewind}
use corelib_cpp.OStream.{init_buffer, init_buffers}
use corelib_cpp.OStream.View.{
  IsValid, IsFresh, IsFresh-IsValid, init_buffer-IsFresh, sent, sent-append, wire,
}

-- What no installation of a buffer touches.
pub record Kept (s s' : OStream) : Type 0 where
  pub callback : s'.callback ≡ s.callback
  pub seq_depth : s'.seq_depth ≡ s.seq_depth
  pub pending : s'.pending ≡ s.pending

pub Kept-refl : (s : OStream) → Kept s s
Kept-refl s = record { callback = refl; seq_depth = refl; pending = refl }

pub Kept-trans : {s t u : OStream} → Kept s t → Kept t u → Kept s u
Kept-trans a b = record {
  callback = b.callback ∙ a.callback;
  seq_depth = b.seq_depth ∙ a.seq_depth;
  pending = b.pending ∙ a.pending;
}

init_buffer-Kept :
    (b : Install) (s : OStream)
    → Kept s (init_buffer b s) × ((init_buffer b s).delivered ≡ s.delivered)
unfolding init_buffer
init_buffer-Kept b s = ground arith

init_buffers-Kept :
    (bs : List Install) (s : OStream)
    → Kept s (init_buffers bs s) × ((init_buffers bs s).delivered ≡ s.delivered)
unfolding init_buffers
init_buffers-Kept [] s = (Kept-refl s, refl)
init_buffers-Kept (b ∷ bs) s =
    let (k, d) = init_buffer-Kept b s in
    let (k', d') = init_buffers-Kept bs (init_buffer b s) in (Kept-trans k k', d' ∙ d)

init_buffers-IsFresh :
    (bs : List Install) (s : OStream) → (init_buffers bs s ≡ s) ⊎ IsFresh (init_buffers bs s)
unfolding init_buffers
init_buffers-IsFresh [] s = inl refl
init_buffers-IsFresh (b ∷ bs) s = elim (init_buffers-IsFresh bs (init_buffer b s)) [
  | inl h ↦ inr (subst IsFresh (sym h) (init_buffer-IsFresh b s))
  | inr h ↦ inr h
]

-- The buffer is handed over whole, and what is written next stands behind it on the wire.
pub record Drained (s s' : OStream) : Type 0 where
  pub valid : IsValid s'
  pub kept : Kept s s'
  pub same : wire s' ≡ wire s
  pub empty : s'.cursor ≡ s'.offset
  pub usable : is_ok s'.failure ≡ true → s'.cursor < length s'.memory

-- The chunk that the callback is handed, and the stream without it.
handed : OStream → Chunk
handed s = record { reserved = s.offset; bytes = take s.cursor s.memory }

given : OStream → OStream
unfolding handed
given s = record s { delivered = s.delivered ++ (handed s ∷ []); installed = false }

empty-wire :
    (s t : OStream)
    → t.delivered ≡ s.delivered ++ (handed s ∷ [])
    → t.cursor ≡ t.offset
    → wire t ≡ wire s
unfolding handed wire
empty-wire s t d e =
    let none_left : length (take t.cursor t.memory) ≤ t.offset =
      (let l = length-take t.cursor t.memory in omega arith) in
    ap₂ (λ a b. sent a ++ b) d (drop_all t.offset (take t.cursor t.memory) none_left)
    ∙ append-nil (sent (s.delivered ++ (handed s ∷ [])))
    ∙ sent-append s.delivered (handed s)

rewind_marked : (t : OStream) → t.installed ≡ true → rewind t ≡ t
unfolding rewind
rewind_marked t h = ground arith

fresh-Drained :
    {s t : OStream}
    → Kept s t
    → t.delivered ≡ s.delivered ++ (handed s ∷ [])
    → has_callback t.callback ≡ true
    → IsFresh t
    → Drained s (rewind t)
fresh-Drained {s} {t} k d c f =
    let drained : Drained s t = record {
      valid = IsFresh-IsValid f;
      kept = k;
      same = empty-wire s t d f.empty;
      empty = f.empty;
      usable = λ ok. ground arith;
    } in
    subst (λ u. Drained s u) (sym (rewind_marked t f.marked)) drained

again-Drained :
    {s : OStream} → has_callback s.callback ≡ true → IsValid s → Drained s (rewind (given s))
unfolding given rewind
again-Drained {s} c v = record {
  valid = ground arith;
  kept = record { callback = refl; seq_depth = refl; pending = refl };
  same = empty-wire s (rewind (given s)) refl refl;
  empty = refl;
  usable = λ ok. ground arith;
}

-- Handing the buffer of a valid stream to its callback, which may install any buffers, loses no
-- byte of the wire, keeps the run, the depth and the callback, and leaves a valid stream with an
-- empty buffer and, without a failure, with room for a byte.
pub hand_over-Drained :
    (f : Callback) {s : OStream}
    → s.callback ≡ some f
    → IsValid s
    → Drained s (rewind (hand_over f s))
unfolding hand_over given handed
hand_over-Drained f {s} h v =
    let d = s.delivered ++ (handed s ∷ []) in
    let c : has_callback s.callback ≡ true = ap has_callback h in
    let (k, e) = init_buffers-Kept (f d) (given s) in
    elim (init_buffers-IsFresh (f d) (given s)) [
      | inl same ↦ subst (λ t. Drained s (rewind t)) (sym same) (again-Drained c v)
      | inr fresh ↦
          fresh-Drained
            (Kept-trans (record { callback = refl; seq_depth = refl; pending = refl }) k) e
            (ap has_callback k.callback ∙ c) fresh
    ]

-- A callback that brings the stream to a failure has installed a buffer.
pub failed-Drained :
    (f : Callback) {s : OStream}
    → s.callback ≡ some f
    → IsValid s
    → s.failure ≡ Error.no_error
    → is_ok (hand_over f s).failure ≡ false
    → Drained s (hand_over f s)
unfolding hand_over given handed
failed-Drained f {s} h v fine bad =
    let d = s.delivered ++ (handed s ∷ []) in
    let marked : (hand_over f s).installed ≡ true = elim (init_buffers-IsFresh (f d) (given s)) [
      | inl same ↦
          let e : is_ok (hand_over f s).failure ≡ true =
            ap (λ t. is_ok t.failure) same ∙ ap is_ok fine in
          absurd (ground arith)
      | inr fresh ↦ fresh.marked
    ] in
    subst (λ t. Drained s t) (rewind_marked (hand_over f s) marked) (hand_over-Drained f h v)

-- and has installed one.
pub failing_installs :
    (f : Callback) (s : OStream)
    → s.failure ≡ Error.no_error
    → is_ok (hand_over f s).failure ≡ false
    → (cs : List Chunk) × (f cs ≢ [])
unfolding hand_over given handed init_buffers
failing_installs f s fine bad =
    let d = s.delivered ++ (handed s ∷ []) in
    (
      d,
      λ e.
          let same : is_ok (hand_over f s).failure ≡ true =
            ap (λ bs. is_ok (init_buffers bs (given s)).failure) e ∙ ap is_ok fine in
          absurd (ground arith),
    )
