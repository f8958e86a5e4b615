-- ===== src/IStream/Elements/Each.antt =====
-- The loops of readIntElements against a loop that reads one element a round.
use corelib_cpp.Common.{
  ℕ, zero, suc, ◌+◌, ◌-◌, ◌*◌, ◌/◌, ◌≤◌, ◌≡◌, refl, sym, ap, ◌∙◌, arith, true, false, ltb, ◌==◌,
  Bool-cases, ◌⊎◌, inl, inr, min,
}
use corelib_cpp.Common.{List, length, All, lt→ltb, ge→ltb}
use corelib_cpp.Common.Bytes.{IsByte}
use corelib_cpp.Wire.{varint_max_bytes}
use corelib_cpp.Varint.{Read, got, overflow, cut}
use corelib_cpp.IStream.{IStream}
use corelib_cpp.IStream.Scalars.{Value}
use corelib_cpp.IStream.Elements.{Pass, Reads, int_batch, int_loop}

-- `k` elements from index `i` on, each by the checked read.
unfoldable pub each : Pass → ℕ → ℕ → List Value → IStream → Reads
each q zero i dst s = (s, dst, true)
each q (suc k) i dst s = elim (q.checked s.p) [
  | got raw rest ↦ elim (q.admit raw) [
    | true ↦ each q k (i + 1) (q.put i raw dst) (record s { p = rest })
    | false ↦ (record s { p = rest; error = true }, dst, false)
  ]
  | overflow rest ↦ (record s { p = rest; error = true }, dst, false)
  | cut ↦ (record s { pend_done = i; incomplete = true }, dst, false)
]

-- What the loops rely on: the windowed read is the checked one where ten bytes are there, a varint
-- of ten bytes is not cut, and the bytes behind a varint are bytes.
pub record Lawful (q : Pass) : Type 0 where
  pub wide : (p : List ℕ) → All IsByte p → 10 ≤ length p → q.windowed p ≡ q.checked p
  pub enough : (p : List ℕ) → All IsByte p → 10 ≤ length p → ¬ (q.checked p ≡ cut)
  pub behind :
      (p : List ℕ) (v : ℕ) (rest : List ℕ)
      → All IsByte p
      → q.checked p ≡ got v rest
      → All IsByte rest × (length p ≤ length rest + 10)
  pub past : (p rest : List ℕ) → All IsByte p → q.checked p ≡ overflow rest → All IsByte rest

pub Read-cases :
    (r : Read)
    → ((v : ℕ) × (rest : List ℕ) × (r ≡ got v rest))
      ⊎ ((rest : List ℕ) × (r ≡ overflow rest))
      ⊎ (r ≡ cut)
Read-cases (got v rest) = inl (v, rest, refl)
Read-cases (overflow rest) = inr (inl (rest, refl))
Read-cases cut = inr (inr refl)

-- Goes on with `next` where a loop has run to its end.
abbrev pub on_to : Reads → (List Value → IStream → Reads) → Reads
on_to (s, dst, true) next = next dst s
on_to (s, dst, false) next = (s, dst, false)

-- The same by a test of the flag.
unflagged :
    (r : Reads) (next : List Value → IStream → Reads)
    → (elim r.2 [ true ↦ next r.1 r.0 | false ↦ r ]) ≡ on_to r next
unflagged (s, dst, true) next = refl
unflagged (s, dst, false) next = refl

on_to-same :
    (r : Reads) (f g : List Value → IStream → Reads) → f r.1 r.0 ≡ g r.1 r.0 → on_to r f ≡ on_to r g
on_to-same (s, dst, true) f g h = h
on_to-same (s, dst, false) f g h = refl

module _ (q : Pass) where
  pub each-add :
      (a b i : ℕ) (dst : List Value) (s : IStream)
      → each q (a + b) i dst s ≡ on_to (each q a i dst s) (λ dst s. each q b (i + a) dst s)
  unfolding each
  each-add zero b i dst s =
      let e : 0 + b ≡ b = omega arith in
      let f : i ≡ i + 0 = omega arith in ap (λ j. each q j i dst s) e ∙ ap (λ j. each q b j dst s) f
  each-add (suc a) b i dst s =
      let e : suc a + b ≡ suc (a + b) = omega arith in
      ap (λ j. each q j i dst s) e ∙ elim (Read-cases (q.checked s.p)) [
        | inl (v, rest, r) ↦ elim (Bool-cases (q.admit v)) [
          | inl ok ↦
              rw (each, r, ok)
                (each-add a b (i + 1) (q.put i v dst) (record s { p = rest })
                  ∙ ap
                      (λ j.
                        on_to (each q a (i + 1) (q.put i v dst) (record s { p = rest }))
                          (λ dst s. each q b j dst s))
                      (omega arith))
          | inr off ↦ rw (each, r, off) refl
        ]
        | inr (inl (rest, r)) ↦ rw (each, r) refl
        | inr (inr r) ↦ rw (each, r) refl
      ]

  -- An element that is read and admitted.
  pub each-got :
      (k i v : ℕ) (rest : List ℕ) (dst : List Value) (s : IStream)
      → q.checked s.p ≡ got v rest
      → q.admit v ≡ true
      → each q (suc k) i dst s ≡ each q k (i + 1) (q.put i v dst) (record s { p = rest })
  unfolding each
  each-got k i v rest dst s r a = rw (each, r, a) refl

  batch_round :
      (fuel i n : ℕ) (dst : List Value) (s : IStream)
      → ltb i n ≡ true
      → (length s.p / varint_max_bytes == 0) ≡ false
      → int_loop q (suc fuel) i n dst s ≡ (
          let fit = min (length s.p / varint_max_bytes) (n - i) in
          on_to (int_batch q fit i dst s) (λ dst s. int_loop q fuel (i + fit) n dst s))
  unfolding int_loop
  batch_round fuel i n dst s inside more =
      let fit = min (length s.p / varint_max_bytes) (n - i) in
      rw (int_loop, inside, more) refl
      ∙ unflagged (int_batch q fit i dst s) (λ dst s. int_loop q fuel (i + fit) n dst s)

module _ (q : Pass) (law : Lawful q) where
  -- What is left behind the elements is bytes.
  pub each-IsByte :
      (k i : ℕ) (dst : List Value) (s : IStream)
      → All IsByte s.p
      → All IsByte (each q k i dst s).0.p
  unfolding each
  each-IsByte zero i dst s b = b
  each-IsByte (suc k) i dst s b = elim (Read-cases (q.checked s.p)) [
    | inl (v, rest, r) ↦
        let bytes = (law.behind s.p v rest b r).0 in
        elim (Bool-cases (q.admit v)) [
          | inl ok ↦
              rw (each, r, ok) (each-IsByte k (i + 1) (q.put i v dst) (record s { p = rest }) bytes)
          | inr off ↦ rw (each, r, off) bytes
        ]
    | inr (inl (rest, r)) ↦ rw (each, r) (law.past s.p rest b r)
    | inr (inr r) ↦ rw (each, r) b
  ]

  batch_each :
      (k i : ℕ) (dst : List Value) (s : IStream)
      → All IsByte s.p
      → 10 * k ≤ length s.p
      → int_batch q k i dst s ≡ each q k i dst s
  unfolding int_batch each
  batch_each zero i dst s b room = refl
  batch_each (suc k) i dst s b room =
      let w = law.wide s.p b (omega arith) in
      elim (Read-cases (q.checked s.p)) [
        | inl (v, rest, r) ↦
            let (bytes, near) = law.behind s.p v rest b r in
            elim (Bool-cases (q.admit v)) [
              | inl ok ↦
                  rw (int_batch, each, w, r, ok)
                    (batch_each k (i + 1) (q.put i v dst) (record s { p = rest }) bytes
                      (omega arith))
              | inr off ↦ rw (int_batch, each, w, r, off) refl
            ]
        | inr (inl (rest, r)) ↦ rw (int_batch, each, w, r) refl
        | inr (inr r) ↦ absurd (law.enough s.p b (omega arith) r)
      ]

  -- Batches and single reads give what one read a round gives.
  pub int_loop-each :
      (fuel k i n : ℕ) (dst : List Value) (s : IStream)
      → i + k ≡ n
      → k ≤ fuel
      → All IsByte s.p
      → int_loop q fuel i n dst s ≡ each q k i dst s
  unfolding int_loop each
  int_loop-each zero zero i n dst s e f b = refl
  int_loop-each zero (suc k) i n dst s e f b = absurd (omega arith)
  int_loop-each (suc fuel) zero i n dst s e f b = rw (int_loop, ge→ltb i n (omega arith)) refl
  int_loop-each (suc fuel) (suc k) i n dst s e f b =
      let inside = lt→ltb i n (omega arith) in
      elim (Bool-cases (length s.p / varint_max_bytes == 0)) [
        | inl one ↦ elim (Read-cases (q.checked s.p)) [
          | inl (v, rest, r) ↦ elim (Bool-cases (q.admit v)) [
            | inl ok ↦
                rw (int_loop, each, inside, one, r, ok)
                  (int_loop-each fuel k (i + 1) n (q.put i v dst) (record s { p = rest })
                    (omega arith) (omega arith) (law.behind s.p v rest b r).0)
            | inr off ↦ rw (int_loop, each, inside, one, r, off) refl
          ]
          | inr (inl (rest, r)) ↦ rw (int_loop, each, inside, one, r) refl
          | inr (inr r) ↦ rw (int_loop, each, inside, one, r) refl
        ]
        | inr more ↦
            let fit = min (length s.p / varint_max_bytes) (n - i) in
            let some_fit : (1 ≤ fit) × (fit ≤ suc k) × (10 * fit ≤ length s.p) = ground arith in
            let same = batch_each fit i dst s b some_fit.2 in
            let bytes = each-IsByte fit i dst s b in
            let left : fit + (suc k - fit) ≡ suc k = omega arith in
            batch_round q fuel i n dst s inside more
            ∙ ap (λ r. on_to r (λ dst s. int_loop q fuel (i + fit) n dst s)) same
            ∙ on_to-same (each q fit i dst s) (λ dst s. int_loop q fuel (i + fit) n dst s)
                (λ dst s. each q (suc k - fit) (i + fit) dst s)
                (int_loop-each fuel (suc k - fit) (i + fit) n (each q fit i dst s).1
                  (each q fit i dst s).0 (omega arith) (omega arith) bytes)
            ∙ sym (each-add q fit (suc k - fit) i dst s)
            ∙ ap (λ j. each q j i dst s) left
      ]
