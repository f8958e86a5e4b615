-- ===== src/IStream/Skipping/Leaves.antt =====
-- skipPayload on the payload of a single field.
use mathlib.Core.Path.{subst}
use corelib_cpp.Common.{
  ℕ, suc, ◌+◌, ◌-◌, ◌*◌, ◌^◌, ◌<◌, ◌≡◌, refl, sym, ap, ap₂, ◌∙◌, arith, true, false,
}
use corelib_cpp.Common.{
  List, [], ◌∷◌, ◌++◌, append_assoc, length, length-append, All, All-append, drop-append, ge→ltb,
}
use corelib_cpp.Common.Bytes.{IsByte}
use corelib_cpp.Word.{Endian}
use corelib_cpp.Varint.{encode_varint, skipped, skip_varint}
use corelib_cpp.Varint.RoundTrip.{get_varint-encode_varint, encode_varint_shape}
use corelib_cpp.Varint.Skipping.{skim, skip_varint-get_varint}
use corelib_cpp.OStream.Writes.Arrays.{varints, IsU64}
use corelib_cpp.IStream.{IStream}
use corelib_cpp.IStream.Header.Heads.{Head}
use corelib_cpp.IStream.Levels.{skip_field, skip_bytes, skip_elements, skip_scalar}
use corelib_cpp.IStream.Skipping.{IsPayload, begun}

pub varints-IsByte :
    (ws rest : List ℕ) → All IsU64 ws → All IsByte rest → All IsByte (varints ws ++ rest)
unfolding varints
varints-IsByte [] rest h k = k
varints-IsByte (w ∷ ws) rest h k =
    subst (All IsByte) (sym (append_assoc (encode_varint w) (varints ws) rest)) (
      All-append IsByte (encode_varint w) (varints ws ++ rest) (encode_varint_shape w h.0).0
        (varints-IsByte ws rest h.1 k))

module _ (host : Endian) where
  pub skip_varint-encode_varint :
      (v : ℕ) (rest : List ℕ)
      → v < 2 ^ 64
      → All IsByte rest
      → skip_varint host (encode_varint v ++ rest) ≡ skipped rest
  skip_varint-encode_varint v rest h k =
      skip_varint-get_varint host (encode_varint v ++ rest)
        (All-append IsByte (encode_varint v) rest (encode_varint_shape v h).0 k)
      ∙ ap skim (get_varint-encode_varint host v rest h k)

  skip_scalar-encode_varint :
      (v : ℕ) (rest : List ℕ) (s : IStream)
      → v < 2 ^ 64
      → All IsByte rest
      → skip_scalar host (record s { p = encode_varint v ++ rest }) ≡ record s { p = rest }
  unfolding skip_scalar
  skip_scalar-encode_varint v rest s h k =
      rw (skip_scalar, skip_varint-encode_varint v rest h k) refl

  skip_elements-varints :
      (ws rest : List ℕ) (i : ℕ) (s : IStream)
      → All IsU64 ws
      → All IsByte rest
      → skip_elements host (length ws) i (record s { p = varints ws ++ rest })
        ≡ record s { p = rest; pend_done = 0 }
  unfolding skip_elements varints
  skip_elements-varints [] rest i s h k = refl
  skip_elements-varints (w ∷ ws) rest i s h k =
      let more = varints-IsByte ws rest h.1 k in
      ap (λ p. skip_elements host (suc (length ws)) i (record s { p = p }))
        (append_assoc (encode_varint w) (varints ws) rest)
      ∙ rw (skip_elements, skip_varint-encode_varint w (varints ws ++ rest) h.0 more)
          (skip_elements-varints ws rest (i + 1) s h.1 k)

skip_bytes_lem :
    (bs rest : List ℕ) (n : ℕ) (s : IStream)
    → length bs ≡ n
    → skip_bytes n (record s { p = bs ++ rest; pend_done = 0 })
      ≡ record s { p = rest; pend_done = 0 }
unfolding skip_bytes
skip_bytes_lem bs rest n s e =
    let size = length-append bs rest in
    let left : n - 0 ≡ length bs = omega arith in
    rw (skip_bytes, left, ge→ltb (length (bs ++ rest)) (length bs) (omega arith))
      (ap (λ p. record s { p = p; pend_done = 0 }) (drop-append (length bs) bs rest refl))

-- The payload of a field that no handler took is passed, and nothing else changes.
pub skip_field-begun :
    (host : Endian) (sequence : IStream → IStream) (h : Head) (bs rest : List ℕ) (s : IStream)
    → IsPayload h bs
    → All IsByte rest
    → skip_field host sequence (record (begun h s) { p = bs ++ rest })
      ≡ record (begun h s) { p = rest }
unfolding skip_field IsPayload
skip_field-begun host sequence (Head.unsigned i) bs rest s (v, small, e) k =
    ap (λ q. skip_scalar host (record (begun (Head.unsigned i) s) { p = q ++ rest })) e
    ∙ skip_scalar-encode_varint host v rest (begun (Head.unsigned i) s) small k
skip_field-begun host sequence (Head.signed i) bs rest s (v, small, e) k =
    ap (λ q. skip_scalar host (record (begun (Head.signed i) s) { p = q ++ rest })) e
    ∙ skip_scalar-encode_varint host v rest (begun (Head.signed i) s) small k
skip_field-begun host sequence (Head.sequence i) bs rest s none k = elim none [ ]
skip_field-begun host sequence (Head.sized i f n) bs rest s (e, b) k =
    skip_bytes_lem bs rest n (begun (Head.sized i f n) s) e
skip_field-begun host sequence (Head.counted i true n) bs rest s (ws, u, l, e) k =
    ap₂ (λ q m. skip_elements host m 0 (record (begun (Head.counted i true n) s) { p = q ++ rest }))
      e (omega arith)
    ∙ skip_elements-varints host ws rest 0 (begun (Head.counted i true n) s) u k
skip_field-begun host sequence (Head.counted i false n) bs rest s (ws, u, l, e) k =
    ap₂
      (λ q m. skip_elements host m 0 (record (begun (Head.counted i false n) s) { p = q ++ rest }))
      e (omega arith)
    ∙ skip_elements-varints host ws rest 0 (begun (Head.counted i false n) s) u k
skip_field-begun host sequence (Head.floats i f n) bs rest s (e, b) k =
    skip_bytes_lem bs rest (n * _) (begun (Head.floats i f n) s) e
