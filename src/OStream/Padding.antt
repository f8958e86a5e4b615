-- ===== src/OStream/Padding.antt =====
-- OStreamImpl: `encodeVarintPadded` into the buffer, with the scratch bytes behind a varint.
use corelib_cpp.Common.{ℕ, ◌+◌, ◌≤◌, ◌<◌, ◌≡◌, ◌^◌, refl, ap, ◌∙◌, arith, inl, inr}
use corelib_cpp.Common.{List, ◌++◌, length, take, length-take}
use corelib_cpp.Word.{Endian}
use corelib_cpp.Wire.{Error}
use corelib_cpp.Varint.{encode_varint, encode_varint_padded}
use corelib_cpp.Varint.Padded.{encode_varint_padded_lem}
use corelib_cpp.OStream.{OStream, poke}
use corelib_cpp.OStream.View.{IsValid, wire, poke-wire, poke-length, sent}
use corelib_cpp.OStream.Push.{Wrote, Outcome, extend-Wrote, extend-Refused}
use corelib_cpp.OStream.Fields.{put_padded}

-- A write without a check, that took at most `k` bytes of room.
pub record Fits (k : ℕ) (bytes : List ℕ) (s t : OStream) : Type 0 where
  pub wrote : Wrote bytes s (t, Error.no_error)
  pub size : length t.memory ≡ length s.memory
  pub taken : t.cursor ≤ s.cursor + k

pub put_padded-Fits :
    (host : Endian) (v : ℕ) (s : OStream)
    → v < 2 ^ 64
    → IsValid s
    → s.failure ≡ Error.no_error
    → s.cursor + 10 ≤ length s.memory
    → Fits 10 (encode_varint v) s (put_padded host v s)
unfolding put_padded wire
put_padded-Fits host v s h valid f r =
    let stored = (encode_varint_padded host v).0 in
    let n = (encode_varint_padded host v).1 in
    let (front, size, few) = encode_varint_padded_lem host v h in
    let whole : n ≤ length stored =
      (let e = length-take n stored in
        let e' : length (take n stored) ≡ length (encode_varint v) = ap length front in
        omega arith) in
    let room : s.cursor + length stored ≤ length s.memory = omega arith in
    let kept_size : length (poke s.cursor stored s.memory) ≡ length s.memory =
      poke-length s.cursor stored s.memory room in
    record {
      wrote = record {
        valid = ground arith;
        kept = record { callback = refl; seq_depth = refl; pending = refl };
        fine = f;
        returned = refl;
        same =
            poke-wire s.cursor n s.offset stored s.memory (sent s.delivered) whole room
              valid.reserved
            ∙ ap (λ t. wire s ++ t) front;
      };
      size = kept_size;
      taken = omega arith;
    }

pub Fits-trans :
    {j k : ℕ} {xs ys : List ℕ} {s t u : OStream}
    → Fits j xs s t
    → Fits k ys t u
    → Fits (j + k) (xs ++ ys) s u
Fits-trans a b = record {
  wrote = extend-Wrote a.wrote b.wrote;
  size = b.size ∙ a.size;
  taken = omega (arith, a.taken, b.taken);
}

pub after_Fits :
    {k : ℕ} {xs ys : List ℕ} {s t : OStream} {r : OStream × Error}
    → Fits k xs s t
    → Outcome ys t r
    → Outcome (xs ++ ys) s r
after_Fits a (inl w) = inl (extend-Wrote a.wrote w)
after_Fits a (inr w) = inr (extend-Refused a.wrote w)
