-- ===== src/Exchange/Payloads.antt =====
-- A string or a blob from the encoder to the decoder.
use mathlib.Core.Path.{subst}
use corelib_cpp.Common.{ℕ, ◌≤◌, ◌≡◌, refl, sym, ap, ◌∙◌, arith, inl, inr, Bool, true, false, some}
use corelib_cpp.Common.{List, [], ◌++◌, append-nil, length, All}
use corelib_cpp.Common.Bytes.{IsByte}
use corelib_cpp.Word.{Endian}
use corelib_cpp.Wire.{Error, Fix, id_max, fixlen_max, fixlen_len_valid}
use corelib_cpp.OStream.{OStream}
use corelib_cpp.OStream.View.{wire}
use corelib_cpp.OStream.Fields.{write_fixlen}
use corelib_cpp.OStream.Writes.{write_fixlen_lem}
use corelib_cpp.IStream.{IStream}
use corelib_cpp.IStream.Dest.{Dest, dest_contents}
use corelib_cpp.IStream.Dest.Holds.{Suits}
use corelib_cpp.IStream.Header.{parse_field_header}
use corelib_cpp.IStream.Header.Heads.{Head, encode_head, headed}
use corelib_cpp.IStream.Header.RoundTrip.{parse_field_header-encode_head}
use corelib_cpp.IStream.Payload.{Read, fit_and_read}
use corelib_cpp.IStream.Payload.Pieces.{Ended, accepted}
use corelib_cpp.IStream.Payload.Chunks.{read_chunks, read_chunks-Ended}
use corelib_cpp.Exchange.{IsEmpty, first_write}

-- The outcome for a payload that is accepted.
taken :
    (validate : Bool) (payload rest : List ℕ) (s : IStream) (r : Read)
    → accepted validate payload ≡ true
    → Ended validate payload rest s r
    → (r.2 ≡ true) × (dest_contents r.1 ≡ payload) × (r.0.consumed ≡ true) × (r.0.p ≡ rest)
taken validate payload rest s r ok (inl (same, a)) = (a.read, a.contents, a.consumed, a.behind)
taken validate payload rest s r ok (inr (off, _, _)) = (let f : true ≡ false = sym ok ∙ off in cc)

-- A payload of bytes, in range for its subtype and valid UTF-8 if it is to be validated, written
-- with a valid id as the first field of a stream that is empty and valid, and without an error,
-- is read from the bytes on the wire into a destination with room for it, by a decoder in which
-- nothing is pending and on a host of any byte order: the destination holds the payload, the
-- field is consumed and no bytes are left.
pub fit_and_read-write_fixlen :
    (writer reader : Endian) (validate : Bool) (f : Fix) (payload : List ℕ) (d : Dest) (i : ℕ)
    (o : OStream) (s : IStream)
    → All IsByte payload
    → accepted validate payload ≡ true
    → fixlen_len_valid (some f) (length payload) ≡ true
    → length payload ≤ fixlen_max
    → Suits (length payload) d
    → i ≤ id_max
    → IsEmpty o
    → (write_fixlen writer i f payload o).1 ≡ Error.no_error
    → s.pend_done ≡ 0
    → s.utf8_state ≡ 0
    → (let r =
          fit_and_read reader validate d
            (parse_field_header reader (record s {
              p = wire (write_fixlen writer i f payload o).0;
              incomplete = false;
              consumed = false;
            })).0 in
        (r.2 ≡ true) × (dest_contents r.1 ≡ payload) × (r.0.consumed ≡ true) × (r.0.p ≡ []))
unfolding read_chunks
fit_and_read-write_fixlen writer reader validate f payload d i o s b ok valid few suits hi e fine
      done state =
    let head = Head.sized i f (length payload) in
    let fresh = record s { incomplete = false; consumed = false } in
    let written =
      first_write o (encode_head head ++ payload) (write_fixlen writer i f payload o) e fine
        (write_fixlen_lem writer i f payload o hi few e.valid e.fine) in
    let whole : Ended validate payload [] (headed head fresh)
        (fit_and_read reader validate d (headed head (record fresh { p = payload }))) =
      subst
        (λ q.
          Ended validate payload [] (headed head fresh)
            (read_chunks reader validate [] q d (headed head fresh)))
        (append-nil payload)
        (read_chunks-Ended reader validate [] payload [] d (headed head fresh) done state suits
          (omega arith) (inr refl) b) in
    let parsed : parse_field_header reader
          (record fresh { p = wire (write_fixlen writer i f payload o).0 })
        ≡ (headed head (record fresh { p = payload }), true) =
      ap (λ p. parse_field_header reader (record fresh { p = p })) written
      ∙ parse_field_header-encode_head reader head payload fresh (hi, valid) b in
    subst
      (λ q.
        let r = fit_and_read reader validate d q.0 in
        (r.2 ≡ true) × (dest_contents r.1 ≡ payload) × (r.0.consumed ≡ true) × (r.0.p ≡ []))
      (sym parsed)
      (taken validate payload [] (headed head fresh)
        (fit_and_read reader validate d (headed head (record fresh { p = payload }))) ok whole)
