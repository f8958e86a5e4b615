-- ===== src/IStream/Nested/Floats.antt =====
-- IStreamImpl::readFloatElements: the elements loaded at once, and one by one.
use corelib_cpp.Common.{
  ℕ, zero, suc, ◌+◌, ◌-◌, ◌*◌, ◌≤◌, ◌≡◌, refl, ap, ap₂, ◌∙◌, arith, true, inl, inr, lt_or_ge,
  lt→ltb, ge→ltb,
}
use corelib_cpp.Common.{List, [], ◌∷◌, length, length-drop, drop, take, set}
use corelib_cpp.Word.{Endian, load_little_bits}
use corelib_cpp.IStream.{IStream}
use corelib_cpp.IStream.Nested.{float_pieces, load_floats}

drop_twice {ℓ} : {A : Type ℓ} (a b c : ℕ) (p : List A) → c ≡ b + a → drop a (drop b p) ≡ drop c p
drop_twice a zero c p e = let same : a ≡ c = omega arith in ap (λ n. drop n p) same
drop_twice a (suc b) zero p e = absurd (omega arith)
drop_twice zero (suc b) (suc c) [] e = refl
drop_twice (suc a) (suc b) (suc c) [] e = refl
drop_twice a (suc b) (suc c) (x ∷ p) e = drop_twice a b c p (omega arith)

-- On either kind of host: where the elements from an index on are all in the window, reading them
-- one by one stores what loading them at once does, of those that the span has room for, and
-- reads every byte of them.
pub float_pieces-load_floats :
    (host : Endian) (size k i n : ℕ) (dst : List ℕ) (s : IStream)
    → k * size ≤ length s.p
    → n ≤ i + k
    → float_pieces host size k i n dst s ≡ (
      record s { p = drop (k * size) s.p; pend_done = 0; consumed = true },
      load_floats host size (n - i) i s.p dst,
      true,
    )
unfolding float_pieces load_floats
float_pieces-load_floats host size zero i n dst s h l =
    ap₂
      (λ m q. (
        record s { p = q; pend_done = 0; consumed = true },
        load_floats host size m i s.p dst,
        true,
      ))
      none_left no_bytes
  where
    none_left : 0 ≡ n - i
    none_left = omega arith

    no_bytes : s.p ≡ drop (0 * size) s.p
    no_bytes = let nothing : 0 ≡ 0 * size = omega arith in ap (λ m. drop m s.p) nothing
float_pieces-load_floats host size (suc k) i n dst s h l =
    let rest : IStream = record s { p = drop size s.p } in
    let all : (k + 1) * size ≡ size + k * size = omega arith in
    let shorter = length-drop size s.p in
    let same = drop_twice (k * size) size (suc k * size) s.p (omega arith) in
    elim (lt_or_ge i n) [
      | inl more ↦
          let d = set dst i (load_little_bits host (take size s.p)) in
          let left : n - i ≡ suc (n - (i + 1)) = omega arith in
          rw (float_pieces, ge→ltb (length s.p) size (omega arith), lt→ltb i n more, left)
            (float_pieces-load_floats host size k (i + 1) n d rest (omega arith) (omega arith)
              ∙ ap
                  (λ q. (
                    record s { p = q; pend_done = 0; consumed = true },
                    load_floats host size (n - (i + 1)) (i + 1) (drop size s.p) d,
                    true,
                  ))
                  same)
      | inr done ↦
          let here : n - i ≡ 0 = omega arith in
          let there : n - (i + 1) ≡ 0 = omega arith in
          rw (float_pieces, ge→ltb (length s.p) size (omega arith), ge→ltb i n done, here)
            (float_pieces-load_floats host size k (i + 1) n dst rest (omega arith) (omega arith)
              ∙ ap₂
                  (λ q m. (
                    record s { p = q; pend_done = 0; consumed = true },
                    load_floats host size m (i + 1) (drop size s.p) dst,
                    true,
                  ))
                  same there)
    ]
