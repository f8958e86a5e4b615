-- ===== src/Containers/Refine.antt =====
-- InlineVector: the operations as seen through the elements in use.
use corelib_cpp.Common.{
  ℕ, zero, suc, ◌+◌, ◌-◌, ◌≤◌, ◌<◌, ◌≡◌, refl, sym, ap, ap₂, ◌∙◌, arith, min, lt_or_ge, lt→ltb,
  ge→ltb, inl, inr,
}
use corelib_cpp.Common.{
  List, [], ◌∷◌, ◌++◌, length, set, take, replicate, append-nil, append_assoc, length-set,
  length-take, take_all,
}
use corelib_cpp.Containers.{InlineVector, capacity, assign_loop, assign, fill, resize}

-- The elements in use.
abbrev pub contents {ℓ} : {A : Type ℓ} → InlineVector A → List A
contents v = take v.len v.buf

module _ {ℓ} {A : Type ℓ} where
  pub take-set_next :
      (i : ℕ) (a : A) (buf : List A)
      → i < length buf
      → take (suc i) (set buf i a) ≡ take i buf ++ (a ∷ [])
  take-set_next zero a [] h = absurd (omega arith)
  take-set_next (suc i) a [] h = absurd (omega arith)
  take-set_next zero a (x ∷ buf) h = refl
  take-set_next (suc i) a (x ∷ buf) h = ap (◌∷◌ x) (take-set_next i a buf (omega arith))

  pub take-set_before : (n i : ℕ) (a : A) (buf : List A) → n ≤ i → take n (set buf i a) ≡ take n buf
  take-set_before zero i a buf h = refl
  take-set_before (suc n) i a [] h = refl
  take-set_before (suc n) zero a (x ∷ buf) h = absurd (omega arith)
  take-set_before (suc n) (suc i) a (x ∷ buf) h =
      ap (◌∷◌ x) (take-set_before n i a buf (omega arith))

  -- `assign` behind what is there already.
  assign_loop_lem :
      (init : List A) (v : InlineVector A)
      → v.len ≤ capacity v
      → contents (assign_loop init v) ≡ contents v ++ take (capacity v - v.len) init
  unfolding assign_loop
  assign_loop_lem [] v h = sym (
      ap (λ t. contents v ++ t) (take_all (capacity v - v.len) [] (omega arith))
      ∙ append-nil (contents v))
  assign_loop_lem (a ∷ init) v h =
      let next : InlineVector A = record { buf = set v.buf v.len a; len = v.len + 1 } in
      let size : capacity next ≡ capacity v = length-set v.buf v.len a in
      elim (lt_or_ge v.len (capacity v)) [
        | inl below ↦ rw (lt→ltb v.len (capacity v) below) (
            let one : v.len + 1 ≡ suc v.len = omega arith in
            let left : capacity next - (v.len + 1) ≡ capacity v - suc v.len = omega arith in
            let more : capacity v - v.len ≡ suc (capacity v - suc v.len) = omega arith in
            assign_loop_lem init next (omega arith)
            ∙ ap₂ (λ n k. take n (set v.buf v.len a) ++ take k init) one left
            ∙ ap (λ t. t ++ take (capacity v - suc v.len) init) (take-set_next v.len a v.buf below)
            ∙ append_assoc (contents v) (a ∷ []) (take (capacity v - suc v.len) init)
            ∙ ap (λ n. contents v ++ take n (a ∷ init)) (sym more))
        | inr full ↦ rw (ge→ltb v.len (capacity v) full) (
            let none_left : capacity v - v.len ≡ 0 = omega arith in
            sym (ap (λ n. contents v ++ take n (a ∷ init)) none_left ∙ append-nil (contents v)))
      ]

  -- Assigning a list leaves the vector with its elements up to the capacity, whatever stood there.
  pub assign_lem :
      (init : List A) (v : InlineVector A) → contents (assign init v) ≡ take (capacity v) init
  unfolding assign
  assign_lem init v =
      let whole : capacity v - 0 ≡ capacity v = omega arith in
      assign_loop_lem init (record v { len = 0 }) (omega arith) ∙ ap (λ n. take n init) whole

  -- The loop of `resize`.
  length-fill : (d : A) (i k : ℕ) (buf : List A) → length (fill d i k buf) ≡ length buf
  unfolding fill
  length-fill d i zero buf = refl
  length-fill d i (suc k) buf = length-fill d (i + 1) k (set buf i d) ∙ length-set buf i d

  take-fill_before :
      (d : A) (n i k : ℕ) (buf : List A) → n ≤ i → take n (fill d i k buf) ≡ take n buf
  unfolding fill
  take-fill_before d n i zero buf h = refl
  take-fill_before d n i (suc k) buf h =
      take-fill_before d n (i + 1) k (set buf i d) (omega arith) ∙ take-set_before n i d buf h

  take-fill :
      (d : A) (i k : ℕ) (buf : List A)
      → i + k ≤ length buf
      → take (i + k) (fill d i k buf) ≡ take i buf ++ replicate k d
  unfolding fill
  take-fill d i zero buf h =
      let e : i + 0 ≡ i = omega arith in ap (λ n. take n buf) e ∙ sym (append-nil (take i buf))
  take-fill d i (suc k) buf h =
      let e : i + suc k ≡ (i + 1) + k = omega arith in
      let one : i + 1 ≡ suc i = omega arith in
      let size = length-set buf i d in
      ap (λ n. take n (fill d (i + 1) k (set buf i d))) e
      ∙ take-fill d (i + 1) k (set buf i d) (omega arith)
      ∙ ap (λ n. take n (set buf i d) ++ replicate k d) one
      ∙ ap (λ t. t ++ replicate k d) (take-set_next i d buf (omega arith))
      ∙ append_assoc (take i buf) (d ∷ []) (replicate k d)

  take-take : (m n : ℕ) (xs : List A) → m ≤ n → take m (take n xs) ≡ take m xs
  take-take zero n xs h = refl
  take-take (suc m) zero xs h = absurd (omega arith)
  take-take (suc m) (suc n) [] h = refl
  take-take (suc m) (suc n) (x ∷ xs) h = ap (◌∷◌ x) (take-take m n xs (omega arith))

  -- `resize` to `m`, at most the capacity.
  resized :
      (d : A) (m : ℕ) (v : InlineVector A)
      → v.len ≤ capacity v
      → m ≤ capacity v
      → take m (fill d v.len (m - v.len) (fill d m (v.len - m) v.buf))
        ≡ take m (contents v) ++ replicate (m - v.len) d
  resized d m v h k =
      let cleared = fill d m (v.len - m) v.buf in
      let size = length-fill d m (v.len - m) v.buf in
      let used = length-take v.len v.buf in
      elim (lt_or_ge m v.len) [
        | inl shrinks ↦
            (let none_new : m - v.len ≡ 0 = omega arith in
              take-fill_before d m v.len (m - v.len) cleared (omega arith)
              ∙ take-fill_before d m m (v.len - m) v.buf (omega arith)
              ∙ sym (take-take m v.len v.buf (omega arith))
              ∙ sym (append-nil (take m (contents v)))
              ∙ ap (λ n. take m (contents v) ++ replicate n d) (sym none_new))
        | inr grows ↦
            (let whole : m ≡ v.len + (m - v.len) = omega arith in
              ap (λ n. take n (fill d v.len (m - v.len) cleared)) whole
              ∙ take-fill d v.len (m - v.len) cleared (omega arith)
              ∙ ap (λ t. t ++ replicate (m - v.len) d)
                  (take-fill_before d v.len m (v.len - m) v.buf grows
                    ∙ sym (take_all m (contents v) (omega arith))))
      ]

  -- A vector within its capacity, resized, keeps its elements up to the new length, which is cut at
  -- the capacity, and fills up with default values; its length stays within its capacity, which
  -- stays the same.
  pub resize_lem :
      (d : A) (n : ℕ) (v : InlineVector A)
      → v.len ≤ capacity v
      → (contents (resize d n v)
          ≡ take (min n (capacity v)) (contents v) ++ replicate (min n (capacity v) - v.len) d)
        × ((resize d n v).len ≤ capacity (resize d n v))
        × (capacity (resize d n v) ≡ capacity v)
  unfolding resize
  resize_lem d n v h =
      let size = λ (m : ℕ).
        length-fill d v.len (m - v.len) (fill d m (v.len - m) v.buf)
        ∙ length-fill d m (v.len - m) v.buf in
      elim (lt_or_ge (capacity v) n) [
        | inl past ↦
            (let e : min n (capacity v) ≡ capacity v = omega arith in
              let s = size (capacity v) in
              rw (lt→ltb (capacity v) n past, e)
                (resized d (capacity v) v h (omega arith), omega arith, s))
        | inr fits ↦
            (let e : min n (capacity v) ≡ n = omega arith in
              let s = size n in
              rw (ge→ltb (capacity v) n fits, e) (resized d n v h fits, omega arith, s))
      ]
