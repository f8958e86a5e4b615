-- ===== src/IStream/Elements/RoundTrip.antt =====
-- readIntElements on an array as the encoder writes it, and on an array that arrives in parts.
use mathlib.Core.Path.{subst}
use corelib_cpp.Common.{
  ℕ, suc, ◌+◌, ◌-◌, ◌^◌, ◌<◌, ◌≡◌, refl, sym, ap, ap₂, ◌∙◌, arith, true, ltb, if◌then◌else◌, none,
  some,
}
use corelib_cpp.Common.{
  List, [], ◌∷◌, ◌++◌, append_assoc, length, length-append, All, All-append, map, set,
}
use corelib_cpp.Common.Bytes.{IsByte}
use corelib_cpp.Word.{Endian}
use corelib_cpp.Varint.{encode_varint, got}
use corelib_cpp.Varint.RoundTrip.{get_varint-encode_varint, encode_varint_shape}
use corelib_cpp.Varint.Skipping.{skim, skip_varint-get_varint}
use corelib_cpp.OStream.Writes.Arrays.{varints}
use corelib_cpp.IStream.{IStream}
use corelib_cpp.IStream.Scalars.{Scalar, Value, value_of}
use corelib_cpp.IStream.Elements.{
  Bounds, Pass, admits, storing, passing, skip_read, read_int_elements,
}
use corelib_cpp.IStream.Elements.Each.{each, on_to, each-got}
use corelib_cpp.IStream.Elements.Reading.{finished, one_by_one, read_int_elements-one_by_one}

-- An element that fits 64 bits and the bounds.
abbrev pub IsAdmitted : Scalar → Bounds → ℕ → Type 0
IsAdmitted t b w = (w < 2 ^ 64) × (admits t b w ≡ true)

pub varints-IsByte :
    (t : Scalar) (b : Bounds) (ws rest : List ℕ)
    → All (IsAdmitted t b) ws
    → All IsByte rest
    → All IsByte (varints ws ++ rest)
unfolding varints
varints-IsByte t b [] rest a k = k
varints-IsByte t b (w ∷ ws) rest a k =
    subst (All IsByte) (sym (append_assoc (encode_varint w) (varints ws) rest)) (
      All-append IsByte (encode_varint w) (varints ws ++ rest) (encode_varint_shape w a.0.0).0
        (varints-IsByte t b ws rest a.1 k))

-- The stores of a loop from index `i` on.
abbrev stores : (ℕ → ℕ → List Value → List Value) → ℕ → List ℕ → List Value → List Value
stores put i [] dst = dst
stores put i (w ∷ ws) dst = stores put (i + 1) ws (put i w dst)

-- A loop that takes the word `w` when its encoding comes.
record Takes (q : Pass) (put : ℕ → ℕ → List Value → List Value) (w : ℕ) : Type 0 where
  raw : ℕ
  read : (rest : List ℕ) → All IsByte rest → q.checked (encode_varint w ++ rest) ≡ got raw rest
  ok : q.admit raw ≡ true
  same : (i : ℕ) (dst : List Value) → q.put i raw dst ≡ put i w dst

module _ (t : Scalar) (b : Bounds) where
  each-varints :
      (q : Pass) (put : ℕ → ℕ → List Value → List Value) (ws rest : List ℕ) (i : ℕ)
      (dst : List Value) (s : IStream)
      → ((w : ℕ) → IsAdmitted t b w → Takes q put w)
      → All (IsAdmitted t b) ws
      → All IsByte rest
      → each q (length ws) i dst (record s { p = varints ws ++ rest })
        ≡ (record s { p = rest }, stores put i ws dst, true)
  unfolding varints each
  each-varints q put [] rest i dst s h a k = refl
  each-varints q put (w ∷ ws) rest i dst s h a k =
      let takes = h w a.0 in
      let more = varints-IsByte t b ws rest a.1 k in
      let split = append_assoc (encode_varint w) (varints ws) rest in
      ap (λ p. each q (suc (length ws)) i dst (record s { p = p })) split
      ∙ each-got q (length ws) i takes.raw (varints ws ++ rest) dst
          (record s { p = encode_varint w ++ (varints ws ++ rest) })
          (takes.read (varints ws ++ rest) more) takes.ok
      ∙ ap (λ d. each q (length ws) (i + 1) d (record s { p = varints ws ++ rest }))
          (takes.same i dst)
      ∙ each-varints q put ws rest (i + 1) (put i w dst) s h a.1 k

set-middle :
    (front back : List Value) (x v : Value)
    → set (front ++ (x ∷ back)) (length front) v ≡ front ++ (v ∷ back)
set-middle [] back x v = refl
set-middle (y ∷ front) back x v = ap (λ l. y ∷ l) (set-middle front back x v)

-- Stores of consecutive indexes fill the list.
stores-map :
    (t : Scalar) (ws : List ℕ) (front back : List Value)
    → length back ≡ length ws
    → stores (λ i w dst. set dst i (value_of t w)) (length front) ws (front ++ back)
      ≡ front ++ map (value_of t) ws
stores-map t [] front [] h = refl
stores-map t [] front (x ∷ back) h = absurd (omega arith)
stores-map t (w ∷ ws) front [] h = absurd (omega arith)
stores-map t (w ∷ ws) front (x ∷ back) h =
    let v = value_of t w in
    let put : ℕ → ℕ → List Value → List Value = λ i w dst. set dst i (value_of t w) in
    let longer : length (front ++ (v ∷ [])) ≡ length front + 1 = length-append front (v ∷ []) in
    ap (stores put (length front + 1) ws)
      (set-middle front back x v ∙ sym (append_assoc front (v ∷ []) back))
    ∙ ap (λ i. stores put i ws ((front ++ (v ∷ [])) ++ back)) (sym longer)
    ∙ stores-map t ws (front ++ (v ∷ [])) back (omega arith)
    ∙ append_assoc front (v ∷ []) (map (value_of t) ws)

stores-none : (i : ℕ) (ws : List ℕ) (dst : List Value) → stores (λ i w d. d) i ws dst ≡ dst
stores-none i [] dst = refl
stores-none i (w ∷ ws) dst = stores-none (i + 1) ws dst

module _ (host : Endian) (t : Scalar) (b : Bounds) where
  storing-Takes :
      (w : ℕ) → IsAdmitted t b w → Takes (storing host t b) (λ i w dst. set dst i (value_of t w)) w
  storing-Takes w a = record {
    raw = w;
    read = λ rest k. get_varint-encode_varint host w rest a.0 k;
    ok = a.1;
    same = λ i dst. refl;
  }

passing-Takes :
    (host : Endian) (t : Scalar) (b : Bounds) (w : ℕ)
    → IsAdmitted t b w
    → Takes (passing host t b) (λ i w d. d) w
passing-Takes host t (some b) w a = record {
  raw = w;
  read = λ rest k. get_varint-encode_varint host w rest a.0 k;
  ok = a.1;
  same = λ i dst. refl;
}
passing-Takes host t none w a = record {
  raw = 0;
  read = λ rest k.
      let whole = get_varint-encode_varint host w rest a.0 k in
      let bytes = All-append IsByte (encode_varint w) rest (encode_varint_shape w a.0).0 k in
      ap skip_read (skip_varint-get_varint host (encode_varint w ++ rest) bytes ∙ ap skim whole);
  ok = refl;
  same = λ i dst. refl;
}

fresh_array :
    (host : Endian) (t : Scalar) (b : Bounds) (n : ℕ) (dst : List Value) (s : IStream)
    → s.pend_done ≡ 0
    → one_by_one host t b n dst s
      ≡ finished (
          on_to
            (each (storing host t b) n 0 dst s)
            (λ dst s'. each (passing host t b) (s.count - n) n dst s'))
unfolding one_by_one
fresh_array host t b n dst s done =
    let i : (if ltb 0 n then n else 0) ≡ n = ground arith in
    let all : n - 0 ≡ n = omega arith in
    ap
      (λ z. finished (
        on_to (each (storing host t b) (n - z) z dst s) (λ dst s'.
          each (passing host t b) (s.count - (if ltb z n then n else z)) (if ltb z n then n else z)
            dst s')))
      done
    ∙ ap₂
        (λ j m. finished (
          on_to (each (storing host t b) m 0 dst s)
            (λ dst s'. each (passing host t b) (s.count - j) j dst s')))
        i all

-- An integer array written as the words of `xs` and `ys`, all in the bounds, with any bytes
-- behind it, is read back from its first element on: into a span of as many elements as `xs` come
-- the values of `xs`, the elements `ys` are passed over, the field is consumed, and the bytes
-- behind it are left.
pub read_int_elements-varints :
    (host : Endian) (t : Scalar) (b : Bounds) (xs ys rest : List ℕ) (dst : List Value) (s : IStream)
    → All (IsAdmitted t b) xs
    → All (IsAdmitted t b) ys
    → All IsByte rest
    → length dst ≡ length xs
    → s.count ≡ length xs + length ys
    → s.pend_done ≡ 0
    → read_int_elements host t b
        (length xs)
        dst
        (record s { p = varints xs ++ (varints ys ++ rest) })
      ≡ (record s { p = rest; consumed = true; pend_done = 0 }, map (value_of t) xs, true)
unfolding one_by_one finished
read_int_elements-varints host t b xs ys rest dst s ax ay k fits all done =
    let behind = varints-IsByte t b ys rest ay k in
    let left : s.count - length xs ≡ length ys = omega arith in
    let start = record s { p = varints xs ++ (varints ys ++ rest) } in
    let first =
      each-varints t b (storing host t b) (λ i w d. set d i (value_of t w)) xs (varints ys ++ rest)
        0 dst s (storing-Takes host t b) ax behind in
    let second =
      each-varints t b (passing host t b) (λ i w d. d) ys rest (length xs) (map (value_of t) xs) s
        (passing-Takes host t b) ay k in
    read_int_elements-one_by_one host t b (length xs) dst start
      (varints-IsByte t b xs (varints ys ++ rest) ax behind)
    ∙ fresh_array host t b (length xs) dst start done
    ∙ ap
        (λ r.
          finished
            (on_to r (λ d s'. each (passing host t b) (s.count - length xs) (length xs) d s')))
        (first
          ∙ ap (λ d. (record s { p = varints ys ++ rest }, d, true)) (stores-map t xs [] dst fits))
    ∙ ap
        (λ m. finished (
          each (passing host t b) m (length xs) (map (value_of t) xs)
            (record s { p = varints ys ++ rest })))
        left
    ∙ ap finished (
        second
        ∙ ap (λ d. (record s { p = rest }, d, true))
            (stores-none (length xs) ys (map (value_of t) xs)))
