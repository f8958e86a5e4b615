-- ===== src/IStream/Payload/Gates.antt =====
-- The gates of strings and blobs: the tests that accept without reading, against the reads.
use corelib_cpp.Common.{
  ℕ, ◌≡◌, refl, Bool, true, false, ◌&&◌, if◌then◌else◌, Option, none, some, Bool-cases, inl, inr,
}
use corelib_cpp.Word.{Endian}
use corelib_cpp.Wire.{Wire, Fix}
use corelib_cpp.IStream.{IStream}
use corelib_cpp.IStream.Dest.{Dest}
use corelib_cpp.IStream.Payload.{
  tag_matches_fix, past, is_none, fit_and_read, read_string_gated, accepts_string_gated,
  read_string, accepts_string, read_string_capped, accepts_string_capped, read_blob_gated,
  accepts_blob_gated, read_blob, accepts_blob, read_blob_capped, accepts_blob_capped,
}

abbrev pub after_gate :
    IStream × Bool → (IStream → IStream × Dest × Bool) → Dest → IStream × Dest × Bool
after_gate (s', go) read d = if go then read s' else (s', d, false)

read_blob_gated-accepts_blob_gated :
    (host : Endian) (bound dyn : Option ℕ) (d : Dest) (s : IStream)
    → read_blob_gated host bound dyn d s
      ≡ after_gate (accepts_blob_gated bound dyn s) (fit_and_read host false d) d
unfolding read_blob_gated accepts_blob_gated
read_blob_gated-accepts_blob_gated host bound dyn d s =
    let t = (tag_matches_fix Wire.fixlen Fix.blob s).0 in
    elim (Bool-cases (tag_matches_fix Wire.fixlen Fix.blob s).1) [
      | inr off ↦ rw off refl
      | inl on ↦ elim (Bool-cases (past bound t.fix_len)) [
        | inl over ↦ rw (on, over) refl
        | inr under ↦ elim (Bool-cases (is_none bound && past dyn t.fix_len)) [
          | inl over ↦ rw (on, under, over) refl
          | inr admitted ↦ rw (on, under, admitted) refl
        ]
      ]
    ]

read_string_gated-accepts_string_gated :
    (host : Endian) (bound dyn : Option ℕ) (d : Dest) (s : IStream)
    → read_string_gated host bound dyn d s
      ≡ after_gate (accepts_string_gated bound dyn s) (fit_and_read host true d) d
unfolding read_string_gated accepts_string_gated
read_string_gated-accepts_string_gated host bound dyn d s =
    let t = (tag_matches_fix Wire.fixlen Fix.string s).0 in
    elim (Bool-cases (tag_matches_fix Wire.fixlen Fix.string s).1) [
      | inr off ↦ rw off refl
      | inl on ↦ elim (Bool-cases (past bound t.fix_len)) [
        | inl over ↦ rw (on, over) refl
        | inr under ↦ elim (Bool-cases (is_none bound && past dyn t.fix_len)) [
          | inl over ↦ rw (on, under, over) refl
          | inr admitted ↦ rw (on, under, admitted) refl
        ]
      ]
    ]

read_string-accepts_string :
    (host : Endian) (n : Option ℕ) (d : Dest) (s : IStream)
    → read_string host n d s ≡ after_gate (accepts_string n s) (fit_and_read host true d) d
unfolding read_string accepts_string
read_string-accepts_string host none d s = refl
read_string-accepts_string host (some n) d s =
    read_string_gated-accepts_string_gated host (some n) none d s

read_string_capped-accepts_string_capped :
    (host : Endian) (n : Option ℕ) (d : Dest) (s : IStream)
    → read_string_capped host n d s
      ≡ after_gate (accepts_string_capped n s) (fit_and_read host true d) d
unfolding read_string_capped accepts_string_capped
read_string_capped-accepts_string_capped host none d s = refl
read_string_capped-accepts_string_capped host (some n) d s =
    read_string_gated-accepts_string_gated host none (some n) d s

read_blob-accepts_blob :
    (host : Endian) (n : Option ℕ) (d : Dest) (s : IStream)
    → read_blob host n d s ≡ after_gate (accepts_blob n s) (fit_and_read host false d) d
unfolding read_blob accepts_blob
read_blob-accepts_blob host none d s = refl
read_blob-accepts_blob host (some n) d s = read_blob_gated-accepts_blob_gated host (some n) none d s

read_blob_capped-accepts_blob_capped :
    (host : Endian) (n : Option ℕ) (d : Dest) (s : IStream)
    → read_blob_capped host n d s
      ≡ after_gate (accepts_blob_capped n s) (fit_and_read host false d) d
unfolding read_blob_capped accepts_blob_capped
read_blob_capped-accepts_blob_capped host none d s = refl
read_blob_capped-accepts_blob_capped host (some n) d s =
    read_blob_gated-accepts_blob_gated host none (some n) d s

-- Each of the four reads of a payload under a bound or a cap reads exactly where the test of that
-- name accepts the field, from the state that the test leaves, and otherwise stores nothing and
-- leaves that state; strings are validated as UTF-8, blobs are not.
pub gated_reads :
    (host : Endian) (n : Option ℕ) (d : Dest) (s : IStream)
    → (read_string host n d s ≡ after_gate (accepts_string n s) (fit_and_read host true d) d)
      × (read_string_capped host n d s
          ≡ after_gate (accepts_string_capped n s) (fit_and_read host true d) d)
      × (read_blob host n d s ≡ after_gate (accepts_blob n s) (fit_and_read host false d) d)
      × (read_blob_capped host n d s
          ≡ after_gate (accepts_blob_capped n s) (fit_and_read host false d) d)
gated_reads host n d s = (
  read_string-accepts_string host n d s,
  read_string_capped-accepts_string_capped host n d s,
  read_blob-accepts_blob host n d s,
  read_blob_capped-accepts_blob_capped host n d s,
)
