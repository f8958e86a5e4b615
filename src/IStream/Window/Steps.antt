-- ===== src/IStream/Window/Steps.antt =====
-- The bytes that the header parser, skipPayload and the bookkeeping of a level leave.
use corelib_cpp.Common.{
  ℕ, zero, suc, ◌+◌, ◌-◌, ◌*◌, ◌<◌, ◌≡◌, refl, arith, Bool, true, false, not, ltb, leb,
  if◌then◌else◌, Option, none, some,
}
use corelib_cpp.Common.{List, length, All}
use corelib_cpp.Common.Bytes.{IsByte}
use corelib_cpp.Word.{Endian, shr}
use corelib_cpp.Wire.{
  Wire, max_depth, id_max, array_max, fixlen_word_valid, array_fixlen_word_valid,
}
use corelib_cpp.Varint.{Read, got, overflow, cut, get_varint, Skip, skipped, skip_varint}
use corelib_cpp.IStream.{IStream}
use corelib_cpp.IStream.Header.{
  then_got, tag_of, fixlen_of, count_of, esize_of, count_then_esize, meta_of, parse_field_tag,
  parse_field_meta, parse_field_header, is_sequence_end, Step,
}
use corelib_cpp.IStream.Levels.{
  suspend_here, suspend_at_boundary, discount_skipped, skip_elements, skip_bytes, skip_scalar,
  skip_field,
}
use corelib_cpp.IStream.Window.{
  Behind, here, further, bytes_behind, no_longer, drop-Behind, nil-Behind, either, Left, Passed,
  get_varint-Left, skip_varint-Passed,
}

-- A step on the stream that leaves a back part of the bytes.
abbrev pub Stays : (IStream → IStream) → Type 0
Stays f = (s : IStream) → All IsByte s.p → Behind s.p (f s).p

abbrev pub Kept : List ℕ → IStream × Bool → Type 0
Kept p (t, go) = Behind p t.p

-- Where it goes on, a byte at least was read.
abbrev pub Ahead : List ℕ → IStream × Bool → Type 0
Ahead p (t, go) = Behind p t.p × (go ≡ true → length t.p < length p)

then_got-Behind :
    (r : Read) (next : ℕ → Step) (s : IStream)
    → Left s.p r
    → ((v : ℕ) (rest : List ℕ) → Behind s.p rest → Behind rest (next v (record s { p = rest })).0.p)
    → Behind s.p (then_got r next s).0.p
unfolding then_got
then_got-Behind (got v rest) next s (h, l) k =
    further s.p rest (next v (record s { p = rest })).0.p h (k v rest h)
then_got-Behind (overflow rest) next s h k = h
then_got-Behind cut next s h k = here s.p

tag-Ahead : (r : Read) (s : IStream) → Left s.p r → Ahead s.p (then_got r tag_of s)
unfolding then_got tag_of
tag-Ahead (got v rest) s (h, l) =
    let at = record s { p = rest } in
    either (Ahead s.p) (ltb id_max (shr v 3)) (record at { error = true }, false) _ (h, λ c. l)
      (h, λ c. l)
tag-Ahead (overflow rest) s h = (h, λ c. cc)
tag-Ahead cut s h = (here s.p, λ c. cc)

fixlen_of-Behind : (v : ℕ) (s : IStream) → Kept s.p (fixlen_of v s)
unfolding fixlen_of
fixlen_of-Behind v s = either (Kept s.p) (not (fixlen_word_valid v)) _ _ (here s.p) (here s.p)

esize_of-Behind : (v : ℕ) (s : IStream) → Kept s.p (esize_of v s)
unfolding esize_of
esize_of-Behind v s = either (Kept s.p) (not (array_fixlen_word_valid v)) _ _ (here s.p) (here s.p)

count_of-Behind : (v : ℕ) (s : IStream) → Kept s.p (count_of v s)
unfolding count_of
count_of-Behind v s = either (Kept s.p) (ltb array_max v) _ _ (here s.p) (here s.p)

module _ (host : Endian) where
  pub parse_field_tag-Ahead : (s : IStream) → All IsByte s.p → Ahead s.p (parse_field_tag host s)
  unfolding parse_field_tag
  parse_field_tag-Ahead s k = tag-Ahead (get_varint host s.p) s (get_varint-Left host s.p k)

  meta_of-Behind : (w : Wire) (s : IStream) → All IsByte s.p → Kept s.p (meta_of host w s)
  unfolding meta_of count_then_esize count_of
  meta_of-Behind Wire.fixlen s k =
      then_got-Behind (get_varint host s.p) fixlen_of s (get_varint-Left host s.p k)
        (λ v rest b. fixlen_of-Behind v (record s { p = rest }))
  meta_of-Behind Wire.array_unsigned s k =
      then_got-Behind (get_varint host s.p) count_of s (get_varint-Left host s.p k)
        (λ v rest b. count_of-Behind v (record s { p = rest }))
  meta_of-Behind Wire.array_signed s k =
      then_got-Behind (get_varint host s.p) count_of s (get_varint-Left host s.p k)
        (λ v rest b. count_of-Behind v (record s { p = rest }))
  meta_of-Behind Wire.array_fixlen s k =
      then_got-Behind (get_varint host s.p) (count_then_esize host) s (get_varint-Left host s.p k)
        (λ v rest b.
          counted v (ltb array_max v) (record s { p = rest }) (bytes_behind s.p rest b k))
    where
      counted :
          (n : ℕ) (over : Bool) (s : IStream)
          → All IsByte s.p
          → Kept s.p (
              let r : IStream × Bool =
                if over
                then (record s { error = true }, false)
                else (record s { count = n }, true) in
              if r.1 then then_got (get_varint host r.0.p) esize_of r.0 else (r.0, false))
      counted n true s k = here s.p
      counted n false s k =
          then_got-Behind (get_varint host s.p) esize_of (record s { count = n })
            (get_varint-Left host s.p k)
            (λ v rest b. esize_of-Behind v (record s { count = n; p = rest }))
  meta_of-Behind Wire.unsigned s k = here s.p
  meta_of-Behind Wire.signed s k = here s.p
  meta_of-Behind Wire.sequence_start s k = here s.p
  meta_of-Behind Wire.sequence_end s k = here s.p

  pub parse_field_meta-Behind : (s : IStream) → All IsByte s.p → Kept s.p (parse_field_meta host s)
  unfolding parse_field_meta
  parse_field_meta-Behind s k = meta_of-Behind s.type (record s { fix_len = 0; count = 0 }) k

  pub parse_field_header-Ahead :
      (s : IStream) → All IsByte s.p → Ahead s.p (parse_field_header host s)
  unfolding parse_field_header
  parse_field_header-Ahead s k = go_on (parse_field_tag host s) (parse_field_tag-Ahead s k)
    where
      go_on :
          (r : IStream × Bool)
          → Ahead s.p r
          → Ahead s.p (
              if not r.1
              then (r.0, false)
              else if is_sequence_end r.0.type
              then (record r.0 { error = true }, false)
              else parse_field_meta host r.0)
      go_on (t, false) (h, l) = (h, l)
      go_on (t, true) (h, l) =
          let meta = parse_field_meta-Behind t (bytes_behind s.p t.p h k) in
          let shorter = l refl in
          either (Ahead s.p) (is_sequence_end t.type) _ _ (h, λ c. cc)
            (
              further s.p t.p (parse_field_meta host t).0.p h meta,
              λ c. omega (arith, shorter, no_longer t.p (parse_field_meta host t).0.p meta),
            )

  -- Integers of an array from some index on.
  skip_elements-Behind :
      (n i : ℕ) (s : IStream) → All IsByte s.p → Behind s.p (skip_elements host n i s).p
  unfolding skip_elements
  skip_elements-Behind zero i s k = here s.p
  skip_elements-Behind (suc n) i s k =
      next (skip_varint host s.p) (skip_varint-Passed host s.p k)
        (λ rest b. skip_elements-Behind n (i + 1) (record s { p = rest }) b)
    where
      next :
          (r : Skip)
          → Passed s.p r
          → ((rest : List ℕ)
              → All IsByte rest
              → Behind rest (skip_elements host n (i + 1) (record s { p = rest })).p)
          → Behind s.p
              (elim r as (λ x. IStream) [
                | skipped rest ↦ skip_elements host n (i + 1) (record s { p = rest })
                | Skip.overflow rest ↦ record s { p = rest; error = true }
                | Skip.cut ↦ record s { pend_done = i; incomplete = true }
              ]).p
      next (skipped rest) (h, l) f =
          further s.p rest (skip_elements host n (i + 1) (record s { p = rest })).p h
            (f rest (bytes_behind s.p rest h k))
      next (Skip.overflow rest) h f = h
      next Skip.cut h f = here s.p

  skip_scalar-Stays : Stays (skip_scalar host)
  unfolding skip_scalar
  skip_scalar-Stays s k = next (skip_varint host s.p) (skip_varint-Passed host s.p k)
    where
      next :
          (r : Skip)
          → Passed s.p r
          → Behind s.p
              (elim r as (λ x. IStream) [
                | skipped rest ↦ record s { p = rest }
                | Skip.overflow rest ↦ record s { p = rest; error = true }
                | Skip.cut ↦ record s { incomplete = true }
              ]).p
      next (skipped rest) (h, l) = h
      next (Skip.overflow rest) h = h
      next Skip.cut h = here s.p

skip_bytes-Stays : (n : ℕ) (s : IStream) → Behind s.p (skip_bytes n s).p
unfolding skip_bytes
skip_bytes-Stays n s =
    either (λ (t : IStream). Behind s.p t.p) (ltb (length s.p) (n - s.pend_done)) _ _
      (nil-Behind s.p) (drop-Behind (n - s.pend_done) s.p)

pub skip_field-Stays :
    (host : Endian) (sequence : IStream → IStream)
    → Stays sequence
    → Stays (skip_field host sequence)
unfolding skip_field
skip_field-Stays host sequence inner s k = of_type s.type s k
  where
    of_type :
        (w : Wire) (s : IStream)
        → All IsByte s.p
        → Behind s.p (skip_field host sequence (record s { type = w })).p
    of_type Wire.unsigned s k = skip_scalar-Stays host (record s { type = Wire.unsigned }) k
    of_type Wire.signed s k = skip_scalar-Stays host (record s { type = Wire.signed }) k
    of_type Wire.fixlen s k = skip_bytes-Stays s.fix_len (record s { type = Wire.fixlen })
    of_type Wire.array_unsigned s k =
        skip_elements-Behind host (s.count - s.pend_done) s.pend_done
          (record s { type = Wire.array_unsigned }) k
    of_type Wire.array_signed s k =
        skip_elements-Behind host (s.count - s.pend_done) s.pend_done
          (record s { type = Wire.array_signed }) k
    of_type Wire.array_fixlen s k =
        skip_bytes-Stays (s.count * s.fix_len) (record s { type = Wire.array_fixlen })
    of_type Wire.sequence_start s k =
        either (λ (t : IStream). Behind s.p t.p) (leb max_depth s.seq_depth) _ _ (here s.p)
          (inner (record s { type = Wire.sequence_start }) k)
    of_type Wire.sequence_end s k = here s.p

pub suspend_here_p : (id : ℕ) (declined : Bool) (s : IStream) → (suspend_here id declined s).p ≡ s.p
unfolding suspend_here
suspend_here_p id declined s = at s.suspend_depth s
  where
    at :
        (d : Option ℕ) (s : IStream)
        → (suspend_here id declined (record s { suspend_depth = d })).p ≡ s.p
    at none s = refl
    at (some d) s = refl

pub suspend_at_boundary_p : (s : IStream) → (suspend_at_boundary s).p ≡ s.p
unfolding suspend_at_boundary
suspend_at_boundary_p s = at s.suspend_depth s
  where
    at :
        (d : Option ℕ) (s : IStream)
        → (suspend_at_boundary (record s { suspend_depth = d })).p ≡ s.p
    at none s = refl
    at (some d) s = refl

pub discount_skipped_p : (from : List ℕ) (s : IStream) → (discount_skipped from s).p ≡ s.p
unfolding discount_skipped
discount_skipped_p from s =
    either (λ (t : IStream). t.p ≡ s.p) (ltb (length s.p) (length from)) _ _ refl refl
