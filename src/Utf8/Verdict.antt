-- ===== src/Utf8/Verdict.antt =====
-- utf8Valid: its loop over sequences, compared with the automaton.
use mathlib.Core.Path.{subst}
use corelib_cpp.Common.{
  ℕ, zero, suc, ◌≤◌, ◌<◌, ◌≡◌, ◌≢◌, ◌⊎◌, refl, sym, ap, ◌∙◌, arith, false, ◌==◌,
}
use corelib_cpp.Common.{
  List, [], ◌∷◌, All, length, Option, none, some, Option-cases, Bool-cases, inl, inr,
}
use corelib_cpp.Common.{==_iff}
use corelib_cpp.Common.Bytes.{IsByte}
use corelib_cpp.Word.{Endian}
use corelib_cpp.Utf8.{
  utf8_step, utf8_advance, utf8_skip_words, utf8_skip_bytes, utf8_sequence, utf8_loop, utf8_valid,
}
use corelib_cpp.Utf8.Table.{utf8_advance-reject}
use corelib_cpp.Utf8.Scan.{Scanned-trans, utf8_skip_words-Scanned, utf8_skip_bytes-Scanned}

-- What the automaton makes of a text whose first sequence ends as told.
Ends : ℕ → List ℕ → Option (List ℕ) → Type 0
Ends state p none = (utf8_advance state p == 0) ≡ false
Ends state p (some rest) =
    (utf8_advance state p ≡ utf8_advance 0 rest)
    × (length rest < length p)
    × (All IsByte p → All IsByte rest)

Ends-longer :
    (state b : ℕ) (p : List ℕ) (o : Option (List ℕ))
    → Ends (utf8_step state b) p o
    → Ends state (b ∷ p) o
unfolding Ends utf8_advance
Ends-longer state b p none h = h
Ends-longer state b p (some rest) (same, short, bytes) = (same, omega arith, λ h. bytes h.1)

utf8_sequence-Ends :
    (state : ℕ) (p : List ℕ)
    → All IsByte p
    → (state ≢ 0) ⊎ (1 ≤ length p)
    → Ends state p (utf8_sequence state p)
unfolding utf8_sequence Ends utf8_advance
utf8_sequence-Ends state [] h (inl ne) = ground arith
utf8_sequence-Ends state [] h (inr l) = absurd (omega arith)
utf8_sequence-Ends state (b ∷ p) h l = elim (Bool-cases (utf8_step state b == 12)) [
  | inl rejected ↦ rw rejected (
      let e : utf8_advance (utf8_step state b) p ≡ 12 =
        ap (λ s. utf8_advance s p) ((==_iff (utf8_step state b) 12).0 rejected)
        ∙ utf8_advance-reject p h.1 in
      ground arith)
  | inr going ↦ elim (Bool-cases (utf8_step state b == 0)) [
    | inl accepted ↦
        rw (going, accepted)
          (
            ap (λ s. utf8_advance s p) ((==_iff (utf8_step state b) 0).0 accepted),
            omega arith,
            λ k. k.1,
          )
    | inr more ↦
        rw (going, more)
          (Ends-longer state b p (utf8_sequence (utf8_step state b) p)
            (utf8_sequence-Ends (utf8_step state b) p h.1 (inl (λ e. ground arith))))
  ]
]

no_bytes : (state : ℕ) (q : List ℕ) → length q ≡ 0 → utf8_advance state q ≡ state
unfolding utf8_advance
no_bytes state [] h = refl
no_bytes state (b ∷ q) h = absurd (omega arith)

utf8_loop-utf8_advance :
    (host : Endian) (fuel : ℕ) (p : List ℕ)
    → length p < fuel
    → All IsByte p
    → utf8_loop host fuel p ≡ (utf8_advance 0 p == 0)
unfolding utf8_loop Ends
utf8_loop-utf8_advance host zero p l h = absurd (omega arith)
utf8_loop-utf8_advance host (suc fuel) p l h =
    let words = utf8_skip_words host (length p) p in
    let q = utf8_skip_bytes words in
    let scan =
      Scanned-trans (utf8_skip_words-Scanned host (length p) p h) (utf8_skip_bytes-Scanned words) in
    let short = scan.short in
    elim (Bool-cases (length q == 0)) [
      | inl over ↦
          (let e = scan.same ∙ no_bytes 0 q ((==_iff (length q) 0).0 over) in rw over (rw e refl))
      | inr going ↦
          (let ends = utf8_sequence-Ends 0 q (scan.bytes h) (inr (ground arith)) in
            elim (Option-cases (utf8_sequence 0 q)) [
              | inl e ↦ rw (going, e, scan.same) (sym (subst (Ends 0 q) e ends))
              | inr (rest, e) ↦
                  (let (same, shorter, bytes) = subst (Ends 0 q) e ends in
                    rw (going, e, scan.same, same)
                      (utf8_loop-utf8_advance host fuel rest (omega arith) (bytes (scan.bytes h))))
            ])
    ]

-- On any bytes and either kind of host, the validator, which skips ASCII by words and by bytes
-- and runs the automaton over each other sequence, accepts exactly the texts that the automaton,
-- run over every byte, ends in its accepting state.
pub utf8_valid-utf8_advance :
    (host : Endian) (p : List ℕ) → All IsByte p → utf8_valid host p ≡ (utf8_advance 0 p == 0)
unfolding utf8_valid
utf8_valid-utf8_advance host p h = utf8_loop-utf8_advance host (suc (length p)) p (omega arith) h
