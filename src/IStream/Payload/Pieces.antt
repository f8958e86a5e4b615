-- ===== src/IStream/Payload/Pieces.antt =====
-- A string or blob payload that arrives in pieces, one fed chunk after another.
use mathlib.Core.Path.{subst}
use corelib_cpp.Common.{
  ℕ, ◌+◌, ◌≤◌, ◌<◌, ◌≡◌, refl, sym, ap, ap₂, ◌∙◌, arith, Bool, true, false, not, ◌&&◌, ◌==◌,
  if◌then◌else◌, Bool-cases, ◌⊎◌, inl, inr, lt→ltb, ge→ltb,
}
use corelib_cpp.Common.{
  List, [], ◌++◌, length, take, drop, length-append, take_all, take-append, drop-append, All,
}
use corelib_cpp.Common.Bytes.{IsByte}
use corelib_cpp.Word.{Endian}
use corelib_cpp.Utf8.{utf8_valid, utf8_advance}
use corelib_cpp.Utf8.Table.{utf8_advance-append}
use corelib_cpp.Utf8.Verdict.{utf8_valid-utf8_advance}
use corelib_cpp.IStream.{IStream}
use corelib_cpp.IStream.Dest.{Dest, dest_store, dest_set_len, dest_contents}
use corelib_cpp.IStream.Dest.Holds.{stored, Suits, Holds, dest_store-Holds, dest_set_len-contents}
use corelib_cpp.IStream.Payload.{Read, read_whole, read_piece}

-- The state that the automaton is in behind `front`, if it runs at all.
abbrev pub text_state : Bool → List ℕ → ℕ
text_state validate front = if validate then utf8_advance 0 front else 0

-- Whether the payload is accepted.
abbrev pub accepted : Bool → List ℕ → Bool
accepted validate payload = text_state validate payload == 0

-- A payload of which `front` has been read.
pub record Within (validate : Bool) (front : List ℕ) (d : Dest) (s : IStream) : Type 0 where
  pub done : s.pend_done ≡ length front
  pub state : s.utf8_state ≡ text_state validate front
  pub short : length front ≤ s.fix_len
  pub suits : Suits s.fix_len d
  pub held : Holds front d

-- A piece that does not end the payload.
pub record Starved (validate : Bool) (front : List ℕ) (s : IStream) (r : Read) : Type 0 where
  pub more : r.2 ≡ false
  pub waiting : r.0.incomplete ≡ true
  pub sound : r.0.error ≡ s.error
  pub kept : r.0.fix_len ≡ s.fix_len
  pub within : Within validate front r.1 r.0

-- The piece that ends it: accepted, or refused as a whole.
pub record Accepted (payload rest : List ℕ) (s : IStream) (r : Read) : Type 0 where
  pub read : r.2 ≡ true
  pub consumed : r.0.consumed ≡ true
  pub sound : r.0.error ≡ s.error
  pub contents : dest_contents r.1 ≡ payload
  pub behind : r.0.p ≡ rest
  pub done : r.0.pend_done ≡ 0
  pub state : r.0.utf8_state ≡ 0

abbrev pub Ended : Bool → List ℕ → List ℕ → IStream → Read → Type 0
Ended validate payload rest s r =
    ((accepted validate payload ≡ true) × Accepted payload rest s r)
    ⊎ ((accepted validate payload ≡ false) × (r.2 ≡ false) × (r.0.error ≡ true))

text_state-append :
    (validate : Bool) (front piece : List ℕ)
    → (if validate
        then utf8_advance (text_state validate front) piece
        else text_state validate front)
      ≡ text_state validate (front ++ piece)
text_state-append true front piece = sym (utf8_advance-append 0 front piece)
text_state-append false front piece = refl

refused_test :
    (validate : Bool) (q : ℕ) (payload : List ℕ)
    → q ≡ text_state validate payload
    → validate && not (q == 0) ≡ not (accepted validate payload)
refused_test true q payload e = ap (λ k. not (k == 0)) e
refused_test false q payload e = refl

-- The step behind the room: `n` bytes of the window are taken.
module _ (validate : Bool) (front piece : List ℕ) (d : Dest) (s : IStream) where
  next_state : ℕ
  next_state =
      if validate then utf8_advance s.utf8_state (take (length piece) s.p) else s.utf8_state

  next_dest : Dest
  next_dest = dest_store s.pend_done (take (length piece) s.p) d

  piece_state :
      Within validate front d s
      → take (length piece) s.p ≡ piece
      → next_state ≡ text_state validate (front ++ piece)
  unfolding next_state
  piece_state w e =
      ap₂ (λ q r. if validate then utf8_advance q r else q) w.state e
      ∙ text_state-append validate front piece

  piece_held :
      Within validate front d s
      → length front + length piece ≤ length (stored d)
      → take (length piece) s.p ≡ piece
      → Holds (front ++ piece) next_dest × Suits s.fix_len next_dest
  unfolding next_dest
  piece_held w room e =
      subst (λ x. Holds (front ++ piece) x × Suits s.fix_len x)
        (ap₂ (λ at q. dest_store at q d) (sym w.done) (sym e))
        (dest_store-Holds s.fix_len front piece d w.suits room w.held)

  pub read_piece-Starved :
      Within validate front d s
      → length front + length piece ≤ length (stored d)
      → length front + length piece < s.fix_len
      → s.p ≡ piece
      → Starved validate (front ++ piece) s (read_piece validate (length piece) d s)
  unfolding read_piece next_state next_dest
  read_piece-Starved w room short p =
      let e : take (length piece) s.p ≡ piece =
        ap (take (length piece)) p ∙ take_all (length piece) piece (omega arith) in
      let done = w.done in
      let size = length-append front piece in
      let (held, suits) = piece_held w room e in
      rw (lt→ltb (s.pend_done + length piece) s.fix_len (omega arith)) (record {
        more = refl;
        waiting = refl;
        sound = refl;
        kept = refl;
        within = record {
          done = omega arith;
          state = piece_state w e;
          short = omega arith;
          suits = suits;
          held = held;
        };
      })

  pub read_piece-Ended :
      (rest : List ℕ)
      → Within validate front d s
      → length front + length piece ≤ length (stored d)
      → length front + length piece ≡ s.fix_len
      → s.p ≡ piece ++ rest
      → Ended validate (front ++ piece) rest s (read_piece validate (length piece) d s)
  unfolding read_piece next_state next_dest
  read_piece-Ended rest w room whole p =
      let e : take (length piece) s.p ≡ piece =
        ap (take (length piece)) p ∙ take-append (length piece) piece rest refl in
      let behind : drop (length piece) s.p ≡ rest =
        ap (drop (length piece)) p ∙ drop-append (length piece) piece rest refl in
      let done = w.done in
      let size = length-append front piece in
      let all : s.fix_len ≡ length (front ++ piece) = omega arith in
      let (held, suits) = piece_held w room e in
      let contents : dest_contents (dest_set_len s.fix_len next_dest) ≡ front ++ piece =
        ap (λ k. dest_contents (dest_set_len k next_dest)) all
        ∙ dest_set_len-contents (front ++ piece) next_dest
            (subst (λ k. Suits k next_dest) all suits) held in
      let test : validate && not (next_state == 0) ≡ not (accepted validate (front ++ piece)) =
        refused_test validate next_state (front ++ piece) (piece_state w e) in
      let last = ge→ltb (s.pend_done + length piece) s.fix_len (omega arith) in
      elim (Bool-cases (accepted validate (front ++ piece))) [
        | inl good ↦
            rw (last, test ∙ ap not good)
              (inl (
                good,
                record {
                  read = refl;
                  consumed = refl;
                  sound = refl;
                  contents = contents;
                  behind = behind;
                  done = refl;
                  state = refl;
                },
              ))
        | inr bad ↦ rw (last, test ∙ ap not bad) (inr (bad, refl, refl))
      ]

pub no_text : (validate : Bool) → text_state validate [] ≡ 0
unfolding utf8_advance
no_text true = refl
no_text false = refl

-- The whole payload in the window from its first byte.
pub read_whole-Ended :
    (host : Endian) (validate : Bool) (payload rest : List ℕ) (d : Dest) (s : IStream)
    → Within validate [] d s
    → length payload ≤ length (stored d)
    → length payload ≡ s.fix_len
    → All IsByte payload
    → s.p ≡ payload ++ rest
    → Ended validate payload rest s (read_whole host validate d s)
unfolding read_whole
read_whole-Ended host validate payload rest d s w room whole bytes p =
    let taken : take s.fix_len s.p ≡ payload =
      ap₂ (λ k q. take k q) (sym whole) p ∙ take-append (length payload) payload rest refl in
    let behind : drop s.fix_len s.p ≡ rest =
      ap₂ (λ k q. drop k q) (sym whole) p ∙ drop-append (length payload) payload rest refl in
    let (held, suits) = dest_store-Holds s.fix_len [] payload d w.suits (omega arith) w.held in
    let contents : dest_contents (dest_set_len s.fix_len (dest_store 0 (take s.fix_len s.p) d))
        ≡ payload =
      ap₂ (λ k q. dest_contents (dest_set_len k (dest_store 0 q d))) (sym whole) taken
      ∙ dest_set_len-contents payload (dest_store 0 payload d)
          (subst (λ k. Suits k (dest_store 0 payload d)) (sym whole) suits) held in
    let test : validate && not (utf8_valid host (take s.fix_len s.p))
        ≡ not (accepted validate payload) =
      ap (λ q. validate && not (utf8_valid host q)) taken
      ∙ valid_test host validate payload bytes in
    elim (Bool-cases (accepted validate payload)) [
      | inl good ↦ rw (test ∙ ap not good) (
          inl (
            good,
            record {
              read = refl;
              consumed = refl;
              sound = refl;
              contents = contents;
              behind = behind;
              done = w.done;
              state = w.state ∙ no_text validate;
            },
          ))
      | inr bad ↦ rw (test ∙ ap not bad) (inr (bad, refl, refl))
    ]
  where
    valid_test :
        (host : Endian) (validate : Bool) (payload : List ℕ)
        → All IsByte payload
        → validate && not (utf8_valid host payload) ≡ not (accepted validate payload)
    valid_test host true payload bytes = ap not (utf8_valid-utf8_advance host payload bytes)
    valid_test host false payload bytes = refl
