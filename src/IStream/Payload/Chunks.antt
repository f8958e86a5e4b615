-- ===== src/IStream/Payload/Chunks.antt =====
-- Strings and blobs: one read over all the chunks that its payload arrives in.
use mathlib.Core.Path.{subst}
use corelib_cpp.Common.{
  ℕ, ◌+◌, ◌-◌, ◌≤◌, ◌<◌, ◌≡◌, refl, sym, ap, ◌∙◌, arith, Bool, true, false, ◌&&◌, leb, ◌==◌,
  Bool-cases, ◌⊎◌, inl, inr, min,
}
use corelib_cpp.Common.{List, [], ◌∷◌, ◌++◌, append_assoc, length, length-append, All}
use corelib_cpp.Common.Bytes.{IsByte}
use corelib_cpp.Word.{Endian}
use corelib_cpp.IStream.{IStream}
use corelib_cpp.IStream.Dest.{Dest, fit_dest, has_room, room_for}
use corelib_cpp.IStream.Dest.Holds.{stored, Suits, fit_dest-Holds, has_room-fit}
use corelib_cpp.IStream.Payload.{Read, read_payload, read_whole, read_piece, fit_and_read}
use corelib_cpp.IStream.Payload.Pieces.{
  Within, Starved, Ended, no_text, read_piece-Starved, read_piece-Ended, read_whole-Ended,
}

no_elements {ℓ} : {A : Type ℓ} (xs : List A) → length xs ≡ 0 → xs ≡ []
no_elements [] h = refl
no_elements (x ∷ xs) h = absurd (omega arith)

abbrev in_window : IStream → Bool
in_window s = s.pend_done == 0 && leb s.fix_len (length s.p)

module _ (host : Endian) (validate : Bool) (d : Dest) (s : IStream) where
  as_piece :
      (n : ℕ)
      → in_window s ≡ false
      → min (length s.p) (s.fix_len - s.pend_done) ≡ n
      → has_room s.fix_len (s.pend_done + n) d ≡ true
      → read_payload host validate d s ≡ read_piece validate n d s
  unfolding read_payload room_for
  as_piece n off e room = rw (off, e, room) refl

  as_whole :
      in_window s ≡ true
      → has_room s.fix_len s.fix_len d ≡ true
      → read_payload host validate d s ≡ read_whole host validate d s
  unfolding read_payload room_for
  as_whole on room = rw (on, room) refl

module _ (host : Endian) (validate : Bool) (front piece : List ℕ) (d : Dest) (s : IStream) where
  want : ℕ
  want = min s.fix_len (s.pend_done + length s.p)

  fitted :
      Within validate front d s
      → Within validate front (fit_dest want d) s × (want ≤ length (stored (fit_dest want d)))
  unfolding want
  fitted w =
      let (held, suits, room) =
        fit_dest-Holds s.fix_len want front d w.suits (omega arith) w.held in
      (record { done = w.done; state = w.state; short = w.short; suits = suits; held = held }, room)

  pub fit_and_read-Starved :
      Within validate front d s
      → length front + length piece < s.fix_len
      → s.p ≡ piece
      → Starved validate (front ++ piece) s (fit_and_read host validate d s)
  unfolding fit_and_read want
  fit_and_read-Starved w short p =
      let (w1, room) = fitted w in
      let d1 = fit_dest want d in
      let done = w.done in
      let avail : length s.p ≡ length piece = ap length p in
      let off : in_window s ≡ false = ground arith in
      subst (Starved validate (front ++ piece) s)
        (sym (
          as_piece host validate d1 s (length piece) off (omega arith)
            (has_room-fit s.fix_len (s.pend_done + length piece) d1 w1.suits (omega arith))))
        (read_piece-Starved validate front piece d1 s w1 (omega arith) short p)

  pub fit_and_read-Ended :
      (rest : List ℕ)
      → Within validate front d s
      → length front + length piece ≡ s.fix_len
      → All IsByte piece
      → s.p ≡ piece ++ rest
      → Ended validate (front ++ piece) rest s (fit_and_read host validate d s)
  unfolding fit_and_read want
  fit_and_read-Ended rest w whole bytes p =
      let (w1, room) = fitted w in
      let d1 = fit_dest want d in
      let done = w.done in
      let size = length-append piece rest in
      let avail : length s.p ≡ length piece + length rest = ap length p ∙ size in
      elim (Bool-cases (in_window s)) [
        | inr off ↦
            subst (Ended validate (front ++ piece) rest s)
              (sym (
                as_piece host validate d1 s (length piece) off (omega arith)
                  (has_room-fit s.fix_len (s.pend_done + length piece) d1 w1.suits (omega arith))))
              (read_piece-Ended validate front piece d1 s rest w1 (omega arith) whole p)
        | inl on ↦
            (let none_yet : front ≡ [] = no_elements front (ground arith) in
              subst (λ f. Ended validate (f ++ piece) rest s (read_payload host validate d1 s))
                (sym none_yet)
                (subst (Ended validate piece rest s)
                  (sym (
                    as_whole host validate d1 s on
                      (has_room-fit s.fix_len s.fix_len d1 w1.suits (ground arith))))
                  (read_whole-Ended host validate piece rest d1 s
                    (subst (λ f. Within validate f d1 s) none_yet w1) (ground arith) (ground arith)
                    bytes p)))
      ]

-- A chunk is fed: the window is set, and what the last one left undone is taken up again.
abbrev pub resume : List ℕ → IStream → IStream
resume chunk s = record s { p = chunk; incomplete = false; consumed = false }

-- The read of a handler that is called again for each chunk, `last` being the one that ends it.
unfoldable pub read_chunks : Endian → Bool → List (List ℕ) → List ℕ → Dest → IStream → Read
read_chunks host validate [] last d s = fit_and_read host validate d (resume last s)
read_chunks host validate (chunk ∷ chunks) last d s =
    let r = fit_and_read host validate d (resume chunk s) in
    read_chunks host validate chunks last r.1 r.0

abbrev pub joined : List (List ℕ) → List ℕ
joined [] = []
joined (chunk ∷ chunks) = chunk ++ joined chunks

resumed-Within :
    {validate : Bool} {front : List ℕ} {d : Dest} {s : IStream} (chunk : List ℕ)
    → Within validate front d s
    → Within validate front d (resume chunk s)
resumed-Within chunk w = record {
  done = w.done;
  state = w.state;
  short = w.short;
  suits = w.suits;
  held = w.held;
}

since :
    (validate : Bool) (payload rest : List ℕ) (s t : IStream) (r : Read)
    → s.error ≡ t.error
    → Ended validate payload rest s r
    → Ended validate payload rest t r
since validate payload rest s t r e (inr refused) = inr refused
since validate payload rest s t r e (inl (good, a)) = inl (
  good,
  record {
    read = a.read;
    consumed = a.consumed;
    sound = a.sound ∙ e;
    contents = a.contents;
    behind = a.behind;
    done = a.done;
    state = a.state;
  },
)

chunks_end :
    (host : Endian) (validate : Bool) (front : List ℕ) (chunks : List (List ℕ))
    (piece rest : List ℕ) (d : Dest) (s t : IStream)
    → Within validate front d s
    → s.error ≡ t.error
    → length front + (length (joined chunks) + length piece) ≡ s.fix_len
    → (1 ≤ length piece) ⊎ (chunks ≡ [])
    → All IsByte piece
    → Ended validate
        (front ++ (joined chunks ++ piece))
        rest
        t
        (read_chunks host validate chunks (piece ++ rest) d s)
unfolding read_chunks
chunks_end host validate front [] piece rest d s t w same whole some_left bytes =
    since validate (front ++ piece) rest (resume (piece ++ rest) s) t
      (fit_and_read host validate d (resume (piece ++ rest) s)) same
      (fit_and_read-Ended host validate front piece d (resume (piece ++ rest) s) rest
        (resumed-Within (piece ++ rest) w) (omega arith) bytes refl)
chunks_end host validate front (chunk ∷ chunks) piece rest d s t w same whole (inr e) bytes =
    absurd cc
chunks_end host validate front (chunk ∷ chunks) piece rest d s t w same whole (inl n) bytes =
    let size = length-append chunk (joined chunks) in
    let so_far = length-append front chunk in
    let starved =
      fit_and_read-Starved host validate front chunk d (resume chunk s) (resumed-Within chunk w)
        (omega arith) refl in
    let r = fit_and_read host validate d (resume chunk s) in
    let kept = starved.kept in
    let regroup : (front ++ chunk) ++ (joined chunks ++ piece)
        ≡ front ++ ((chunk ++ joined chunks) ++ piece) =
      append_assoc front chunk (joined chunks ++ piece)
      ∙ ap (λ q. front ++ q) (sym (append_assoc chunk (joined chunks) piece)) in
    subst (λ q. Ended validate q rest t (read_chunks host validate chunks (piece ++ rest) r.1 r.0))
      regroup
      (chunks_end host validate (front ++ chunk) chunks piece rest r.1 r.0 t starved.within
        (starved.sound ∙ same) (omega arith) (inl n) bytes)

-- A string or blob of which nothing is read yet and whose payload arrives in any number of
-- chunks, the last a list of bytes that is not empty unless it is the only one, read once a chunk
-- into a destination with room for it: it is accepted exactly if it is not to be validated or the
-- automaton accepts the whole payload; then the destination holds the payload, the field is
-- consumed and the bytes behind it are left, and else the stream is in error and nothing is
-- answered.
pub read_chunks-Ended :
    (host : Endian) (validate : Bool) (chunks : List (List ℕ)) (piece rest : List ℕ) (d : Dest)
    (s : IStream)
    → s.pend_done ≡ 0
    → s.utf8_state ≡ 0
    → Suits s.fix_len d
    → length (joined chunks) + length piece ≡ s.fix_len
    → (1 ≤ length piece) ⊎ (chunks ≡ [])
    → All IsByte piece
    → Ended validate
        (joined chunks ++ piece)
        rest
        s
        (read_chunks host validate chunks (piece ++ rest) d s)
read_chunks-Ended host validate chunks piece rest d s done state suits whole some_left bytes =
    let fresh : Within validate [] d s = record {
      done = done;
      state = state ∙ sym (no_text validate);
      short = omega arith;
      suits = suits;
      held = refl;
    } in
    chunks_end host validate [] chunks piece rest d s s fresh refl (omega arith) some_left bytes
