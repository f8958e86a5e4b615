-- ===== src/IStream/Skipping/Chunks.antt =====
-- skipPayload on a payload of bytes that arrives in several chunks.
use mathlib.Core.Path.{subst}
use corelib_cpp.Common.{
  ℕ, ◌+◌, ◌-◌, ◌*◌, ◌≤◌, ◌<◌, ◌≡◌, refl, sym, ap, ◌∙◌, arith, true, false, inl, inr, lt_or_ge,
  lt→ltb, ge→ltb,
}
use corelib_cpp.Common.{
  List, [], ◌∷◌, ◌++◌, length, length-append, length-take, take-append-drop, take, drop,
}
use corelib_cpp.Word.{Endian}
use corelib_cpp.Wire.{Wire}
use corelib_cpp.IStream.{IStream}
use corelib_cpp.IStream.Levels.{skip_bytes, skip_field}
use corelib_cpp.IStream.Skipping.Parts.{joined}

-- A stream that waits for more of a payload, of which `done` bytes are skipped.
abbrev pub suspended : ℕ → IStream → IStream
suspended done s = record s { p = []; pend_done = done; incomplete = true }

-- Each chunk is a window of its own, until one of them ends the payload.
unfoldable pub skip_chunks : (IStream → IStream) → List (List ℕ) → IStream → IStream
skip_chunks skip [] s = s
skip_chunks skip (chunk ∷ chunks) s =
    let t = skip (record s { p = chunk; incomplete = false }) in
    elim t.incomplete [ true ↦ skip_chunks skip chunks t | false ↦ t ]

-- What chunks do to a payload of which `left` bytes are still to come: they are all of the payload and
-- the count of what came is kept; or one of them holds its last byte, and the pointer stands behind it.
pub data Skipped (done left : ℕ) (chunks : List (List ℕ)) (s t : IStream) : Type 0 where
  unfinished :
      length (joined chunks) < left
      → t ≡ suspended (done + length (joined chunks)) s
      → Skipped done left chunks s t
  ended :
      (before : List (List ℕ)) (front rest : List ℕ) (behind : List (List ℕ))
      → chunks ≡ before ++ ((front ++ rest) ∷ behind)
      → length (joined before) + length front ≡ left
      → 1 ≤ length front
      → t ≡ record s { p = rest; pend_done = 0; incomplete = false }
      → Skipped done left chunks s t

one_more :
    (done left : ℕ) (c : List ℕ) (cs : List (List ℕ)) (s t : IStream)
    → length c < left
    → Skipped (done + length c) (left - length c) cs s t
    → Skipped done left (c ∷ cs) s t
one_more done left c cs s t h (Skipped.unfinished few e) =
    let size = length-append c (joined cs) in
    let count : done + length c + length (joined cs) ≡ done + length (c ++ joined cs) =
      omega arith in
    Skipped.unfinished (omega arith) (e ∙ ap (λ n. suspended n s) count)
one_more done left c cs s t h (Skipped.ended before front rest behind split count some_left e) =
    let size = length-append c (joined before) in
    Skipped.ended (c ∷ before) front rest behind (ap (λ q. c ∷ q) split) (omega arith) some_left e

-- A window that ends inside the payload, and one that does not.
bytes_short :
    (size done : ℕ) (p : List ℕ) (s : IStream)
    → length p < size - done
    → skip_bytes size (record s { p = p; pend_done = done; incomplete = false })
      ≡ suspended (done + length p) s
unfolding skip_bytes
bytes_short size done p s h = rw (skip_bytes, lt→ltb (length p) (size - done) h) refl

bytes_long :
    (size done : ℕ) (p : List ℕ) (s : IStream)
    → size - done ≤ length p
    → skip_bytes size (record s { p = p; pend_done = done; incomplete = false })
      ≡ record s { p = drop (size - done) p; pend_done = 0; incomplete = false }
unfolding skip_bytes
bytes_long size done p s h = rw (skip_bytes, ge→ltb (length p) (size - done) h) refl

module _ (skip : IStream → IStream) (size : ℕ) (s : IStream)
    (as_bytes : (done : ℕ) (p : List ℕ)
      → skip (record s { p = p; pend_done = done; incomplete = false })
        ≡ skip_bytes size (record s { p = p; pend_done = done; incomplete = false })) where
  chunks-Skipped :
      (chunks : List (List ℕ)) (done : ℕ)
      → done < size
      → Skipped done (size - done) chunks s (skip_chunks skip chunks (suspended done s))
  unfolding skip_chunks
  chunks-Skipped [] done h = Skipped.unfinished (omega arith) (ap (λ n. suspended n s) more)
    where
      more : done ≡ done + 0
      more = omega arith
  chunks-Skipped (c ∷ cs) done h =
      let left = size - done in
      let next : IStream → IStream =
        λ t. elim t.incomplete [ true ↦ skip_chunks skip cs t | false ↦ t ] in
      elim (lt_or_ge (length c) left) [
        | inl short ↦
            let all : skip_chunks skip (c ∷ cs) (suspended done s)
                ≡ skip_chunks skip cs (suspended (done + length c) s) =
              ap next (as_bytes done c ∙ bytes_short size done c s short) in
            let fewer : size - (done + length c) ≡ left - length c = omega arith in
            one_more done left c cs s (skip_chunks skip (c ∷ cs) (suspended done s)) short (
              subst (λ t. Skipped (done + length c) (left - length c) cs s t) (sym all)
                (subst
                  (λ n.
                    Skipped (done + length c) n cs s
                      (skip_chunks skip cs (suspended (done + length c) s)))
                  fewer (chunks-Skipped cs (done + length c) (omega arith))))
        | inr long ↦
            let size1 = length-take left c in
            Skipped.ended [] (take left c) (drop left c) cs
              (ap (λ q. q ∷ cs) (sym (take-append-drop left c))) (omega arith) (omega arith)
              (ap next (as_bytes done c ∙ bytes_long size done c s long))
      ]

-- The bytes of a payload whose header tells their count.
abbrev pub told_bytes : Wire → IStream → ℕ
told_bytes Wire.fixlen s = s.fix_len
told_bytes Wire.array_fixlen s = s.count * s.fix_len
told_bytes _ s = 0

told-Skipped :
    (host : Endian) (sequence : IStream → IStream) (chunks : List (List ℕ)) (done : ℕ) (w : Wire)
    (s : IStream)
    → done < told_bytes w s
    → (let t = record s { type = w } in
        Skipped done
          (told_bytes w s - done)
          chunks
          t
          (skip_chunks (skip_field host sequence) chunks (suspended done t)))
unfolding skip_field
told-Skipped host sequence chunks done Wire.fixlen s h =
    chunks-Skipped (skip_field host sequence) s.fix_len (record s { type = Wire.fixlen })
      (λ done p. refl) chunks done h
told-Skipped host sequence chunks done Wire.array_fixlen s h =
    chunks-Skipped (skip_field host sequence) (s.count * s.fix_len)
      (record s { type = Wire.array_fixlen }) (λ done p. refl) chunks done h
told-Skipped host sequence chunks done w s h = absurd (omega arith)

-- A string, a blob or an array of floats that is skipped, on a stream that has skipped some bytes
-- of it, not all, and stands at the end of its window. Of the chunks that arrive then, each as a
-- window of its own, either all together are shorter than what is left, and they are counted and
-- the stream is incomplete; or one chunk holds the last byte of the payload, exactly as many
-- bytes as are left were read up to it, the pointer stands behind it in that chunk, and nothing
-- else of the stream has changed but that it is complete.
pub skip_field-Skipped :
    (host : Endian) (sequence : IStream → IStream) (chunks : List (List ℕ)) (done : ℕ) (s : IStream)
    → done < told_bytes s.type s
    → Skipped done
        (told_bytes s.type s - done)
        chunks
        s
        (skip_chunks (skip_field host sequence) chunks (suspended done s))
skip_field-Skipped host sequence chunks done s h = told-Skipped host sequence chunks done s.type s h
