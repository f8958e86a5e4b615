-- ===== src/OStream/Push.antt =====
-- OStreamImpl: the outcomes of a write, and those of `pushByte` and `pushBytes`.
use mathlib.Core.Path.{subst}
use corelib_cpp.Common.{ℕ, ◌+◌, ◌≤◌, ◌≡◌, ◌≢◌, refl, sym, ap, ◌∙◌, arith, ◌⊎◌, inl, inr}
use corelib_cpp.Common.{List, [], ◌∷◌, ◌++◌, append-nil, append_assoc, length}
use corelib_cpp.Common.{true, false, Option, none, some, ◌==◌, Bool-cases, lt_or_ge, le→leb, gt→leb}
use corelib_cpp.Wire.{Error}
use corelib_cpp.OStream.{OStream, Callback, Op, ◌>>◌, is_ok, latch, hand_over, rewind, store}
use corelib_cpp.OStream.{Chunk, room, push_byte, push_each, push_bytes, drain_then}
use corelib_cpp.OStream.View.{IsValid, wire, store-wire, store-length}
use corelib_cpp.OStream.Drain.{
  Kept, Kept-refl, Kept-trans, Drained, hand_over-Drained, failed-Drained, failing_installs,
}

-- A write that succeeds, with all its bytes on the wire.
pub record Wrote (bytes : List ℕ) (s : OStream) (r : OStream × Error) : Type 0 where
  pub valid : IsValid r.0
  pub kept : Kept s r.0
  pub fine : r.0.failure ≡ Error.no_error
  pub returned : r.1 ≡ Error.no_error
  pub same : wire r.0 ≡ wire s ++ bytes

-- What alone can refuse the bytes of a write: that there is no callback, or that the callback
-- installs a buffer.
unfoldable pub Blocked : Option Callback → Type 0
Blocked none = Unit {0}
Blocked (some f) = (cs : List Chunk) × (f cs ≢ [])

-- A write that is refused, with a front part on the wire and the error latched.
pub record Refused (bytes : List ℕ) (s : OStream) (r : OStream × Error) : Type 0 where
  pub part : List ℕ
  pub left : List ℕ
  pub split : bytes ≡ part ++ left
  pub valid : IsValid r.0
  pub kept : Kept s r.0
  pub latched : r.0.failure ≡ r.1
  pub failed : is_ok r.1 ≡ false
  pub same : wire r.0 ≡ wire s ++ part
  pub blame : Blocked s.callback

abbrev pub Outcome : List ℕ → OStream → OStream × Error → Type 0
Outcome bytes s r = Wrote bytes s r ⊎ Refused bytes s r

pub is_ok-no_error : (e : Error) → is_ok e ≡ true → e ≡ Error.no_error
is_ok-no_error e h = ground arith

pub store-Wrote :
    (bytes : List ℕ) (s : OStream)
    → IsValid s
    → s.failure ≡ Error.no_error
    → s.cursor + length bytes ≤ length s.memory
    → Wrote bytes s (store bytes s, Error.no_error)
unfolding store
store-Wrote bytes s v f h =
    let size = store-length bytes s h in
    record {
      valid = ground arith;
      kept = record { callback = refl; seq_depth = refl; pending = refl };
      fine = f;
      returned = refl;
      same = store-wire bytes v h;
    }

after-Wrote :
    {bytes : List ℕ} {s t : OStream} {r : OStream × Error}
    → Drained s t
    → Wrote bytes t r
    → Wrote bytes s r
after-Wrote {bytes} d w = record {
  valid = w.valid;
  kept = Kept-trans d.kept w.kept;
  fine = w.fine;
  returned = w.returned;
  same = w.same ∙ ap (λ t. t ++ bytes) d.same;
}

pub extend-Wrote :
    {xs ys : List ℕ} {s : OStream} {r t : OStream × Error}
    → Wrote xs s r
    → Wrote ys r.0 t
    → Wrote (xs ++ ys) s t
extend-Wrote {xs} {ys} {s} w o = record {
  valid = o.valid;
  kept = Kept-trans w.kept o.kept;
  fine = o.fine;
  returned = o.returned;
  same = o.same ∙ ap (λ t. t ++ ys) w.same ∙ append_assoc (wire s) xs ys;
}

pub extend-Refused :
    {xs ys : List ℕ} {s : OStream} {r t : OStream × Error}
    → Wrote xs s r
    → Refused ys r.0 t
    → Refused (xs ++ ys) s t
extend-Refused {xs} {ys} {s} w o = record {
  part = xs ++ o.part;
  left = o.left;
  split = ap (λ t. xs ++ t) o.split ∙ sym (append_assoc xs o.part o.left);
  valid = o.valid;
  kept = Kept-trans w.kept o.kept;
  latched = o.latched;
  failed = o.failed;
  same = o.same ∙ ap (λ t. t ++ o.part) w.same ∙ append_assoc (wire s) xs o.part;
  blame = subst Blocked w.kept.callback o.blame;
}

cut_short :
    {xs : List ℕ} (ys : List ℕ) {s : OStream} {r : OStream × Error}
    → Refused xs s r
    → Refused (xs ++ ys) s r
cut_short ys w = record {
  part = w.part;
  left = w.left ++ ys;
  split = ap (λ t. t ++ ys) w.split ∙ append_assoc w.part w.left ys;
  valid = w.valid;
  kept = w.kept;
  latched = w.latched;
  failed = w.failed;
  same = w.same;
  blame = w.blame;
}

-- One write after another, counted from the stream `t`.
module _ (first second : Op) (s : OStream) where
  pub go_on : (first s).1 ≡ Error.no_error → (first >> second) s ≡ second (first s).0
  go_on h = rw h

  pub stop : is_ok (first s).1 ≡ false → (first >> second) s ≡ first s
  stop h = rw h

module _ (xs ys : List ℕ) (first second : Op) (t s : OStream) where
  pub chain :
      Outcome xs t (first s)
      → (Wrote xs t (first s) → Outcome ys (first s).0 (second (first s).0))
      → Outcome (xs ++ ys) t ((first >> second) s)
  chain (inr w) k =
      inr
        (subst (λ r. Refused (xs ++ ys) t r) (sym (stop first second s w.failed)) (cut_short ys w))
  chain (inl w) k =
      subst (λ r. Outcome (xs ++ ys) t r) (sym (go_on first second s w.returned))
        (elim (k w) [ inl o ↦ inl (extend-Wrote w o) | inr o ↦ inr (extend-Refused w o) ])

refused_wire : (e : Error) (s : OStream) → wire (record s { failure = e }) ≡ wire s ++ []
unfolding wire
refused_wire e s = sym (append-nil (wire s))

-- A refusal that writes nothing.
pub refuse :
    (bytes : List ℕ) (e : Error) (s : OStream)
    → IsValid s
    → s.failure ≡ Error.no_error
    → is_ok e ≡ false
    → Blocked s.callback
    → Refused bytes s (latch e s)
unfolding latch
refuse bytes e s v f bad blame =
    let same_wire : wire (record s { failure = e }) ≡ wire s ++ [] = refused_wire e s in
    rw (ap is_ok f) (record {
      part = [];
      left = bytes;
      split = refl;
      valid = ground arith;
      kept = record { callback = refl; seq_depth = refl; pending = refl };
      latched = refl;
      failed = bad;
      same = same_wire;
      blame = blame;
    })

-- `pushByte`
rewind_failure : (s : OStream) → (rewind s).failure ≡ s.failure
unfolding rewind
rewind_failure s = ground arith

module _ (b : ℕ) (g : Callback) (s : OStream) where
  drain_ok :
      is_ok (hand_over g s).failure ≡ true
      → drain_then b (some g) s ≡ (store (b ∷ []) (rewind (hand_over g s)), Error.no_error)
  unfolding drain_then
  drain_ok h = rw h

  drain_failed :
      is_ok (hand_over g s).failure ≡ false
      → drain_then b (some g) s ≡ (hand_over g s, (hand_over g s).failure)
  unfolding drain_then
  drain_failed h = rw h

  hand_over-Refused :
      Drained s (hand_over g s)
      → is_ok (hand_over g s).failure ≡ false
      → Blocked s.callback
      → Refused (b ∷ []) s (hand_over g s, (hand_over g s).failure)
  hand_over-Refused d h blame = record {
    part = [];
    left = b ∷ [];
    split = refl;
    valid = d.valid;
    kept = d.kept;
    latched = refl;
    failed = h;
    same = d.same ∙ sym (append-nil (wire s));
    blame = blame;
  }

  stored_byte :
      Drained s (rewind (hand_over g s))
      → is_ok (hand_over g s).failure ≡ true
      → Wrote (b ∷ []) s (store (b ∷ []) (rewind (hand_over g s)), Error.no_error)
  stored_byte d h =
      let t = rewind (hand_over g s) in
      let fine : t.failure ≡ Error.no_error =
        rewind_failure (hand_over g s) ∙ is_ok-no_error (hand_over g s).failure h in
      let below = d.usable (ap is_ok fine) in
      after-Wrote d (store-Wrote (b ∷ []) t d.valid fine (omega arith))

drain_then_lem :
    (b : ℕ) (cb : Option Callback) (s : OStream)
    → s.callback ≡ cb
    → IsValid s
    → s.failure ≡ Error.no_error
    → Outcome (b ∷ []) s (drain_then b cb s)
unfolding drain_then Blocked
drain_then_lem b none s c v f =
    inr (refuse (b ∷ []) Error.buffer_full s v f refl (subst Blocked (sym c) tt))
drain_then_lem b (some g) s c v f = elim (Bool-cases (is_ok (hand_over g s).failure)) [
  | inl h ↦
      subst (Outcome (b ∷ []) s) (sym (drain_ok b g s h))
        (inl (stored_byte b g s (hand_over-Drained g c v) h))
  | inr h ↦ subst (Outcome (b ∷ []) s) (sym (drain_failed b g s h)) (
      inr (
        hand_over-Refused b g s (failed-Drained g c v f h) h
          (subst Blocked (sym c) (failing_installs g s f h))))
]

pub push_byte_lem :
    (b : ℕ) (s : OStream)
    → IsValid s
    → s.failure ≡ Error.no_error
    → Outcome (b ∷ []) s (push_byte b s)
unfolding push_byte
push_byte_lem b s v f = elim (Bool-cases (s.cursor == length s.memory)) [
  | inl h ↦ rw (ap is_ok f, h) (drain_then_lem b s.callback s refl v f)
  | inr h ↦ rw (ap is_ok f, h) (inl (store-Wrote (b ∷ []) s v f (ground arith)))
]

pub push_each_lem :
    (bytes : List ℕ) (s : OStream)
    → IsValid s
    → s.failure ≡ Error.no_error
    → Outcome bytes s (push_each bytes s)
unfolding push_each
push_each_lem [] s v f = inl (record {
  valid = v;
  kept = Kept-refl s;
  fine = f;
  returned = refl;
  same = sym (append-nil (wire s));
})
push_each_lem (b ∷ bs) s v f =
    chain (b ∷ []) bs (push_byte b) (push_each bs) s s (push_byte_lem b s v f)
      (λ w. push_each_lem bs (push_byte b s).0 w.valid w.fine)

-- On a valid stream without a failure, pushing bytes appends them all to the wire and keeps the
-- stream valid, or appends a front part and latches the error that it returns, which takes a
-- missing callback or one that installs buffers.
pub push_bytes_lem :
    (bytes : List ℕ) (s : OStream)
    → IsValid s
    → s.failure ≡ Error.no_error
    → Outcome bytes s (push_bytes bytes s)
unfolding push_bytes
push_bytes_lem bytes s v f = elim (lt_or_ge (room s) (length bytes)) [
  | inl h ↦ rw (gt→leb (length bytes) (room s) h) (push_each_lem bytes s v f)
  | inr h ↦
      rw (le→leb (length bytes) (room s) h)
        (inl (store-Wrote bytes s v f (let r = v.inside in omega arith)))
]
