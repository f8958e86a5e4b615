-- ===== src/IStream/Elements/Resume.antt =====
-- readIntElements on an array that arrives in parts: it goes on at the element it stopped at.
use corelib_cpp.Common.{
  ℕ, zero, suc, ◌+◌, ◌-◌, ◌≤◌, ◌<◌, ◌≡◌, refl, sym, ap, ◌∙◌, arith, Bool, true, false, ltb,
  if◌then◌else◌, Bool-cases, inl, inr, none, some,
}
use corelib_cpp.Common.{List, ◌++◌, All, All-append}
use corelib_cpp.Common.{lt→ltb, ge→ltb}
use corelib_cpp.Common.Bytes.{IsByte}
use corelib_cpp.Word.{Endian}
use corelib_cpp.Varint.{Read, got, overflow, cut, get_varint}
use corelib_cpp.Varint.Skipping.{skim, skip_varint-get_varint}
use corelib_cpp.Varint.Behind.{extend, get_varint-extend}
use corelib_cpp.IStream.{IStream}
use corelib_cpp.IStream.Scalars.{Scalar, Value}
use corelib_cpp.IStream.Elements.{
  Bounds, Pass, Reads, storing, passing, skip_read, read_int_elements,
}
use corelib_cpp.IStream.Elements.Each.{each, on_to, Read-cases}
use corelib_cpp.IStream.Elements.Reading.{
  finished, one_by_one, read_int_elements-one_by_one, storing-Lawful, passing-Lawful,
}
use corelib_cpp.IStream.Elements.Parts.{Extends, all_read, failed, stopped, each-Ends}

-- `pend_done` is kept until an element is cut off.
repend : ℕ → Reads → Reads
repend x (s, d, true) = (record s { pend_done = x }, d, true)
repend x (s, d, false) = (record s { pend_done = if s.error then x else s.pend_done }, d, false)

each-repend :
    (q : Pass) (x k i : ℕ) (dst : List Value) (s : IStream)
    → s.error ≡ false
    → each q k i dst (record s { pend_done = x }) ≡ repend x (each q k i dst s)
unfolding each repend
each-repend q x zero i dst s h = refl
each-repend q x (suc k) i dst s h = elim (Read-cases (q.checked s.p)) [
  | inl (v, rest, r) ↦ elim (Bool-cases (q.admit v)) [
    | inl ok ↦
        rw (each, r, ok) (each-repend q x k (i + 1) (q.put i v dst) (record s { p = rest }) h)
    | inr off ↦ rw (each, r, off) refl
  ]
  | inr (inl (rest, r)) ↦ rw (each, r) refl
  | inr (inr r) ↦
      rw (each, r)
        (ap (λ b. (record s { pend_done = if b then x else i; incomplete = true }, dst, false))
          (sym h))
]

-- A result, but for the `pend_done` of a stream in error.
unfoldable pub settled : Reads → Reads
settled (s, d, b) = (record s { pend_done = if s.error then 0 else s.pend_done }, d, b)

settled-repend : (x : ℕ) (r : Reads) → settled (finished (repend x r)) ≡ settled (finished r)
unfolding settled finished repend
settled-repend x (s, d, true) = refl
settled-repend x (s, d, false) =
    ap (λ z. (record s { pend_done = z }, d, false)) (twice s.error s.pend_done)
  where
    twice : (b : Bool) (y : ℕ) → (if b then 0 else if b then x else y) ≡ (if b then 0 else y)
    twice true y = refl
    twice false y = refl

on_to-repend :
    (q : Pass) (x k i : ℕ) (r : Reads)
    → (r.2 ≡ true → r.0.error ≡ false)
    → on_to (repend x r) (λ d s. each q k i d s) ≡ repend x (on_to r (λ d s. each q k i d s))
unfolding repend
on_to-repend q x k i (s, d, true) h = each-repend q x k i d s (h refl)
on_to-repend q x k i (s, d, false) h = refl

-- A loop that runs to its end raises no error.
each-fine :
    (q : Pass) (k i : ℕ) (dst : List Value) (s : IStream)
    → s.error ≡ false
    → (each q k i dst s).2 ≡ true
    → (each q k i dst s).0.error ≡ false
unfolding each
each-fine q zero i dst s h e = h
each-fine q (suc k) i dst s h e = elim (Read-cases (q.checked s.p)) [
  | inl (v, rest, r) ↦ elim (Bool-cases (q.admit v)) [
    | inl ok ↦
        rw (each, r, ok)
          (each-fine q k (i + 1) (q.put i v dst) (record s { p = rest }) h (rw (each, r, ok) at e))
    | inr off ↦ absurd_flag (rw (each, r, off) at e)
  ]
  | inr (inl (rest, r)) ↦ absurd_flag (rw (each, r) at e)
  | inr (inr r) ↦ absurd_flag (rw (each, r) at e)
]
  where
    absurd_flag : {A : Type 0} → false ≡ true → A
    absurd_flag f = cc

module _ (host : Endian) (t : Scalar) (b : Bounds) (n : ℕ) (dst : List Value) (s : IStream)
    (front more : List ℕ) where
  -- The first part stopped in element `j` of the first loop.
  first_stopped :
      (j : ℕ) (left : List ℕ) (d : List Value)
      → s.error ≡ false
      → s.pend_done ≤ j
      → j < s.pend_done + (n - s.pend_done)
      → each (storing host t b) (n - s.pend_done) s.pend_done dst (record s { p = front ++ more })
        ≡ each
            (storing host t b)
            (s.pend_done + (n - s.pend_done) - j)
            j
            d
            (record s { p = left ++ more })
      → settled (one_by_one host t b n d (record s { p = left ++ more; pend_done = j }))
        ≡ settled (one_by_one host t b n dst (record s { p = front ++ more }))
  unfolding one_by_one
  first_stopped j left d fine lo hi e =
      let q = storing host t b in
      let rest = record s { p = left ++ more } in
      let r = each q (n - j) j d rest in
      let next = λ (d : List Value) (s' : IStream). each (passing host t b) (s.count - n) n d s' in
      let span : s.pend_done + (n - s.pend_done) - j ≡ n - j = omega arith in
      rw (lt→ltb j n (omega arith), lt→ltb s.pend_done n (omega arith))
        (ap (λ r. settled (finished (on_to r next))) (each-repend q j (n - j) j d rest fine)
          ∙ ap (λ r. settled (finished r))
              (on_to-repend (passing host t b) j (s.count - n) n r
                (each-fine q (n - j) j d rest fine))
          ∙ settled-repend j (on_to r next)
          ∙ ap (λ r. settled (finished (on_to r next)))
              (sym (e ∙ ap (λ m. each q m j d rest) span)))

  -- It stopped in element `j` of the second loop.
  second_stopped :
      (j : ℕ) (left mid : List ℕ) (d d1 : List Value)
      → s.error ≡ false
      → (let i = if ltb s.pend_done n then n else s.pend_done in
          (i ≤ j)
          × (each
                (storing host t b)
                (n - s.pend_done)
                s.pend_done
                dst
                (record s { p = front ++ more })
              ≡ (record s { p = mid ++ more }, d1, true))
          × (each (passing host t b) (s.count - i) i d1 (record s { p = mid ++ more })
              ≡ each (passing host t b) (i + (s.count - i) - j) j d (record s { p = left ++ more }))
          × (j < i + (s.count - i)))
      → settled (one_by_one host t b n d (record s { p = left ++ more; pend_done = j }))
        ≡ settled (one_by_one host t b n dst (record s { p = front ++ more }))
  unfolding one_by_one each
  second_stopped j left mid d d1 fine (lo, whole, e, hi) =
      let q = passing host t b in
      let i = if ltb s.pend_done n then n else s.pend_done in
      let past : n ≤ j = ground arith in
      let none_left : n - j ≡ 0 = omega arith in
      let span : i + (s.count - i) - j ≡ s.count - j = omega arith in
      let rest = record s { p = left ++ more } in
      let next = λ (d : List Value) (s' : IStream). each q (s.count - j) j d s' in
      let after = λ (d : List Value) (s' : IStream). each q (s.count - i) i d s' in
      rw (ge→ltb j n past) (
        ap
          (λ m.
            settled (
              finished
                (on_to (each (storing host t b) m j d (record rest { pend_done = j })) next)))
          none_left
        ∙ ap (λ r. settled (finished r)) (each-repend q j (s.count - j) j d rest fine)
        ∙ settled-repend j (each q (s.count - j) j d rest)
        ∙ ap (λ r. settled (finished r)) (sym (e ∙ ap (λ m. each q m j d rest) span))
        ∙ ap (λ r. settled (finished (on_to r after))) (sym whole))

  -- Where the read of the first part stopped, and what then comes of it.
  resumed :
      (j : ℕ) (left : List ℕ) (d : List Value)
      → All IsByte front
      → All IsByte more
      → All IsByte left
      → one_by_one host t b n dst (record s { p = front })
        ≡ (record s { p = left; pend_done = j; incomplete = true }, d, false)
      → settled (one_by_one host t b n d (record s { p = left ++ more; pend_done = j }))
        ≡ settled (one_by_one host t b n dst (record s { p = front ++ more }))
      → (let first = read_int_elements host t b n dst (record s { p = front }) in
          settled (
            read_int_elements host t b n first.1
              (record first.0 { p = first.0.p ++ more; incomplete = s.incomplete }))
          ≡ settled (read_int_elements host t b n dst (record s { p = front ++ more })))
  resumed j left d bf bm bl stop same =
      let first = read_int_elements-one_by_one host t b n dst (record s { p = front }) bf ∙ stop in
      let again = record s { p = left ++ more; pend_done = j } in
      ap
        (λ r. settled (
          read_int_elements host t b n r.1
            (record r.0 { p = r.0.p ++ more; incomplete = s.incomplete })))
        first
      ∙ ap settled
          (read_int_elements-one_by_one host t b n d again (All-append IsByte left more bl bm))
      ∙ same
      ∙ ap settled (
          sym (
            read_int_elements-one_by_one host t b n dst (record s { p = front ++ more })
              (All-append IsByte front more bf bm)))

storing-Extends :
    (host : Endian) (t : Scalar) (b : Bounds) (more : List ℕ)
    → All IsByte more
    → Extends (storing host t b) more
storing-Extends host t b more k p h = get_varint-extend host p more h k

skim-extend :
    (more : List ℕ) (r : Read) → skip_read (skim (extend more r)) ≡ extend more (skip_read (skim r))
skim-extend more (got v rest) = refl
skim-extend more (overflow rest) = refl
skim-extend more cut = refl

passing-Extends :
    (host : Endian) (t : Scalar) (b : Bounds) (more : List ℕ)
    → All IsByte more
    → Extends (passing host t b) more
passing-Extends host t (some b) more k p h = get_varint-extend host p more h k
passing-Extends host t none more k p h =
    let short = ap skip_read (skip_varint-get_varint host p h) in
    elim (get_varint-extend host p more h k) [
      | inl ends ↦ inl (short ∙ ap (λ r. skip_read (skim r)) ends)
      | inr on ↦ inr (
          ap skip_read (skip_varint-get_varint host (p ++ more) (All-append IsByte p more h k))
          ∙ ap (λ r. skip_read (skim r)) on
          ∙ skim-extend more (get_varint host p)
          ∙ ap (extend more) (sym short))
    ]

-- An array of which `front` has arrived and then `more`: on a stream without an error and not
-- incomplete, where the read of `front` is incomplete, a second read, of what the first one left
-- and of `more` behind it, gives what one read of `front` and `more` together gives, for the
-- stream, the elements and the answer; of a stream in error the count of elements done is not
-- compared.
pub read_int_elements-resume :
    (host : Endian) (t : Scalar) (b : Bounds) (n : ℕ) (dst : List Value) (s : IStream)
    (front more : List ℕ)
    → All IsByte front
    → All IsByte more
    → s.error ≡ false
    → s.incomplete ≡ false
    → (read_int_elements host t b n dst (record s { p = front })).0.incomplete ≡ true
    → (let first = read_int_elements host t b n dst (record s { p = front }) in
        settled (
          read_int_elements host t b n first.1
            (record first.0 { p = first.0.p ++ more; incomplete = s.incomplete }))
        ≡ settled (read_int_elements host t b n dst (record s { p = front ++ more })))
unfolding one_by_one finished
read_int_elements-resume host t b n dst s front more bf bm fine fresh part =
    let i = if ltb s.pend_done n then n else s.pend_done in
    let q = storing host t b in
    let next = λ (d : List Value) (s' : IStream). each (passing host t b) (s.count - i) i d s' in
    let cut_off : (one_by_one host t b n dst (record s { p = front })).0.incomplete ≡ true =
      ap (λ r. r.0.incomplete)
        (sym (read_int_elements-one_by_one host t b n dst (record s { p = front }) bf))
      ∙ part in
    elim (each-Ends q (storing-Lawful host t b) more (storing-Extends host t b more bm)
      (n - s.pend_done) s.pend_done dst s front bf) [
        | failed left d e ↦
            clash (sym fresh ∙ sym (ap (λ r. (finished (on_to r next)).0.incomplete) e) ∙ cut_off)
        | stopped j left d lo hi bl e e' ↦
            resumed host t b n dst s front more j left d bf bm bl
              (ap (λ r. finished (on_to r next)) e)
              (first_stopped host t b n dst s front more j left d fine lo hi e')
        | all_read mid d1 bl e e' ↦
            elim (each-Ends (passing host t b) (passing-Lawful host t b) more
              (passing-Extends host t b more bm) (s.count - i) i d1 s mid bl) [
                | failed left d f ↦ clash (
                    sym fresh
                    ∙ sym (
                        ap (λ r. (finished (on_to r next)).0.incomplete) e
                        ∙ ap (λ r. (finished r).0.incomplete) f)
                    ∙ cut_off)
                | all_read left d bl f f' ↦ clash (
                    sym fresh
                    ∙ sym (
                        ap (λ r. (finished (on_to r next)).0.incomplete) e
                        ∙ ap (λ r. (finished r).0.incomplete) f)
                    ∙ cut_off)
                | stopped j left d lo hi bl f f' ↦
                    resumed host t b n dst s front more j left d bf bm bl
                      (ap (λ r. finished (on_to r next)) e ∙ ap finished f)
                      (second_stopped host t b n dst s front more j left mid d d1 fine
                        (lo, e', f', hi))
              ]
      ]
  where
    clash : {A : Type 0} → false ≡ true → A
    clash f = cc
