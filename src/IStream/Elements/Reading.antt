-- ===== src/IStream/Elements/Reading.antt =====
-- readIntElements against reads of one element at a time.
use mathlib.Core.Path.{subst}
use corelib_cpp.Common.{
  ℕ, ◌-◌, ◌≤◌, ◌≡◌, refl, sym, ap, ◌∙◌, arith, true, false, not, ltb, if◌then◌else◌, inl, inr, none,
  some,
}
use corelib_cpp.Common.{List, length, All, lt_or_ge}
use corelib_cpp.Common.Bytes.{IsByte}
use corelib_cpp.Word.{Endian}
use corelib_cpp.Varint.{Read, got, overflow, cut, get_varint, get_varint_windowed, skip_varint}
use corelib_cpp.Varint.Decode.{get_varint-parse, get_varint_windowed-parse}
use corelib_cpp.Varint.RoundTrip.{get_varint_bounds}
use corelib_cpp.Varint.Skipping.{
  skim, skip_varint-get_varint, skip_varint_windowed-get_varint_windowed,
}
use corelib_cpp.Varint.Behind.{Leaves, get_varint-Leaves, get_varint-long}
use corelib_cpp.IStream.{IStream}
use corelib_cpp.IStream.Scalars.{Scalar, Value}
use corelib_cpp.IStream.Elements.{
  Bounds, Pass, Reads, int_loop, storing, passing, skip_read, read_int_elements,
}
use corelib_cpp.IStream.Elements.Each.{each, Lawful, on_to, int_loop-each, each-IsByte}

module _ (host : Endian) where
  checked_windowed :
      (p : List ℕ) → All IsByte p → 10 ≤ length p → get_varint_windowed host p ≡ get_varint host p
  checked_windowed p b l = get_varint_windowed-parse host p l b ∙ sym (get_varint-parse host p b)

  reading :
      (q : Pass) → q.windowed ≡ get_varint_windowed host → q.checked ≡ get_varint host → Lawful q
  reading q w c = record {
    wide = λ p b l. ap (λ f. f p) w ∙ checked_windowed p b l ∙ sym (ap (λ f. f p) c);
    enough = λ p b l e. get_varint-long host p b l (sym (ap (λ f. f p) c) ∙ e);
    behind = λ p v rest b e.
        let r : get_varint host p ≡ got v rest = sym (ap (λ f. f p) c) ∙ e in
        (subst Leaves r (get_varint-Leaves host p b), (get_varint_bounds host p v rest b r).2);
    past = λ p rest b e. subst Leaves (sym (ap (λ f. f p) c) ∙ e) (get_varint-Leaves host p b);
  }

  pub storing-Lawful : (t : Scalar) (b : Bounds) → Lawful (storing host t b)
  storing-Lawful t b = reading (storing host t b) refl refl

  skim-got :
      (r : Read) (v : ℕ) (rest : List ℕ)
      → skip_read (skim r) ≡ got v rest
      → (w : ℕ) × (r ≡ got w rest)
  skim-got (got w s) v rest e = (w, cc)
  skim-got (overflow s) v rest e = cc
  skim-got cut v rest e = cc

  skim-cut : (r : Read) → skip_read (skim r) ≡ cut → r ≡ cut
  skim-cut (got w s) e = cc
  skim-cut (overflow s) e = cc
  skim-cut cut e = refl

  skim-overflow :
      (r : Read) (rest : List ℕ) → skip_read (skim r) ≡ overflow rest → r ≡ overflow rest
  skim-overflow (got w s) rest e = cc
  skim-overflow (overflow s) rest e = cc
  skim-overflow cut rest e = cc

  skipping :
      (p : List ℕ)
      → All IsByte p
      → skip_read (skip_varint host p) ≡ skip_read (skim (get_varint host p))
  skipping p b = ap skip_read (skip_varint-get_varint host p b)

  pub passing-Lawful : (t : Scalar) (b : Bounds) → Lawful (passing host t b)
  passing-Lawful t (some b) = reading (passing host t (some b)) refl refl
  passing-Lawful t none = record {
    wide = λ p b l. ap skip_read (
        skip_varint_windowed-get_varint_windowed host p l b
        ∙ ap skim (checked_windowed p b l)
        ∙ sym (skip_varint-get_varint host p b));
    enough = λ p b l e.
        get_varint-long host p b l (skim-cut (get_varint host p) (sym (skipping p b) ∙ e));
    behind = λ p v rest b e.
        let (w, r) = skim-got (get_varint host p) v rest (sym (skipping p b) ∙ e) in
        (subst Leaves r (get_varint-Leaves host p b), (get_varint_bounds host p w rest b r).2);
    past = λ p rest b e.
        subst Leaves (skim-overflow (get_varint host p) rest (sym (skipping p b) ∙ e))
          (get_varint-Leaves host p b);
  }

-- All elements are read: the field is consumed.
unfoldable pub finished : Reads → Reads
finished (s, dst, true) = (record s { consumed = true; pend_done = 0 }, dst, true)
finished (s, dst, false) = (s, dst, false)

-- The array one element at a time: the elements up to index `n` are stored, those behind it only
-- tested.
unfoldable pub one_by_one : Endian → Scalar → Bounds → ℕ → List Value → IStream → Reads
unfolding finished
one_by_one host t b n dst s =
    let i = if ltb s.pend_done n then n else s.pend_done in
    finished (
      on_to (each (storing host t b) (n - s.pend_done) s.pend_done dst s)
        (λ dst s'. each (passing host t b) (s.count - i) i dst s'))

-- The loop from any index, the end passed or not.
loop_each :
    (q : Pass) (i n : ℕ) (dst : List Value) (s : IStream)
    → Lawful q
    → All IsByte s.p
    → int_loop q (n - i) i n dst s ≡ each q (n - i) i dst s
unfolding int_loop each
loop_each q i n dst s law b = elim (lt_or_ge n i) [
  | inl past ↦
      let none_left : n - i ≡ 0 = omega arith in
      ap (λ k. int_loop q k i n dst s) none_left ∙ ap (λ k. each q k i dst s) (sym none_left)
  | inr within ↦ int_loop-each q law (n - i) (n - i) i n dst s (omega arith) (omega arith) b
]

second_finished :
    (r : Reads)
    → (if not r.2 then r else (record r.0 { consumed = true; pend_done = 0 }, r.1, true))
      ≡ finished r
unfolding finished
second_finished (s, dst, true) = refl
second_finished (s, dst, false) = refl

after_first :
    (host : Endian) (t : Scalar) (b : Bounds) (i n : ℕ) (r : Reads)
    → All IsByte r.0.p
    → (let second = int_loop (passing host t b) (n - i) i n r.1 r.0 in
        if not r.2
        then r
        else if not second.2
        then second
        else (record second.0 { consumed = true; pend_done = 0 }, second.1, true))
      ≡ finished (on_to r (λ dst s. each (passing host t b) (n - i) i dst s))
unfolding finished
after_first host t b i n (s, dst, false) k = refl
after_first host t b i n (s, dst, true) k =
    ap (λ r. if not r.2 then r else (record r.0 { consumed = true; pend_done = 0 }, r.1, true))
      (loop_each (passing host t b) i n dst s (passing-Lawful host t b) k)
    ∙ second_finished (each (passing host t b) (n - i) i dst s)

-- On any bytes and either kind of host, the read of an integer array with its batches of windowed
-- reads and its two loops is the read of one element at a time.
pub read_int_elements-one_by_one :
    (host : Endian) (t : Scalar) (b : Bounds) (n : ℕ) (dst : List Value) (s : IStream)
    → All IsByte s.p
    → read_int_elements host t b n dst s ≡ one_by_one host t b n dst s
unfolding read_int_elements one_by_one
read_int_elements-one_by_one host t b n dst s k =
    let law = storing-Lawful host t b in
    let first = loop_each (storing host t b) s.pend_done n dst s law k in
    let i = if ltb s.pend_done n then n else s.pend_done in
    rw first (
      after_first host t b i s.count (each (storing host t b) (n - s.pend_done) s.pend_done dst s)
        (each-IsByte (storing host t b) law (n - s.pend_done) s.pend_done dst s k))
