-- ===== src/Containers/Octets.antt =====
-- FixedBytes: its operations as seen through the bytes in use.
use mathlib.Core.Path.{subst}
use corelib_cpp.Common.{
  ℕ, zero, suc, ◌+◌, ◌≤◌, ◌<◌, ◌≡◌, refl, sym, ap, ap₂, ◌∙◌, arith, true, false, ltb, ◌==◌,
  Bool-cases, inl, inr, lt_or_ge, lt→ltb, ge→ltb,
}
use corelib_cpp.Common.{
  List, [], ◌∷◌, ◌++◌, length, length-append, length-take, take, get_or, set, take_all, take_front,
}
use corelib_cpp.Containers
use corelib_cpp.Containers.{InlineVector}
use corelib_cpp.Containers.Refine.{assign_lem, take-set_next}
use corelib_cpp.Containers.FixedBytes
use corelib_cpp.Containers.FixedBytes.{
  FixedBytes, assign_loop, assign, push_back, contents, equal_from, equal,
}

-- The same bytes as a vector of elements.
abbrev as_vector : FixedBytes → InlineVector ℕ
as_vector v = record { buf = v.buf; len = v.len }

assign_loop-as_vector :
    (init : List ℕ) (v : FixedBytes)
    → as_vector (assign_loop init v) ≡ Containers.assign_loop init (as_vector v)
unfolding assign_loop Containers.assign_loop
assign_loop-as_vector [] v = refl
assign_loop-as_vector (b ∷ init) v = elim (Bool-cases (ltb v.len (length v.buf))) [
  | inl room ↦
      rw room (assign_loop-as_vector init (record v { buf = set v.buf v.len b; len = v.len + 1 }))
  | inr full ↦ rw full refl
]

assign-contents :
    (init : List ℕ) (v : FixedBytes) → contents (assign init v) ≡ take (FixedBytes.capacity v) init
unfolding assign Containers.assign
assign-contents init v =
    ap (λ u. take u.len u.buf) (assign_loop-as_vector init (record v { len = 0 }))
    ∙ assign_lem init (as_vector v)

push_back-contents :
    (b : ℕ) (v : FixedBytes)
    → v.len ≤ FixedBytes.capacity v
    → contents (push_back b v) ≡ take (FixedBytes.capacity v) (contents v ++ (b ∷ []))
unfolding push_back
push_back-contents b v h = elim (lt_or_ge v.len (length v.buf)) [
  | inl room ↦ rw (lt→ltb v.len (length v.buf) room) (
      let one : v.len + 1 ≡ suc v.len = omega arith in
      ap (λ n. take n (set v.buf v.len b)) one
      ∙ take-set_next v.len b v.buf room
      ∙ sym (
          take_all (length v.buf) (contents v ++ (b ∷ []))
            (omega (arith, length-append (contents v) (b ∷ []), length-take v.len v.buf))))
  | inr full ↦ rw (ge→ltb v.len (length v.buf) full) (
      let e : v.len ≡ length v.buf = omega arith in
      sym (
        take_front (length v.buf) (contents v) (b ∷ []) (omega (arith, length-take v.len v.buf))
        ∙ take_all (length v.buf) (contents v) (omega (arith, length-take v.len v.buf))))
]

take-get_or :
    (i : ℕ) (xs : List ℕ) → i < length xs → take (suc i) xs ≡ take i xs ++ (get_or xs i 0 ∷ [])
take-get_or i [] h = absurd (omega arith)
take-get_or zero (x ∷ xs) h = refl
take-get_or (suc i) (x ∷ xs) h = ap (λ l. x ∷ l) (take-get_or i xs (omega arith))

get_or-take : (n i : ℕ) (xs : List ℕ) → i < n → get_or (take n xs) i 0 ≡ get_or xs i 0
get_or-take zero i xs h = absurd (omega arith)
get_or-take (suc n) i [] h = refl
get_or-take (suc n) zero (x ∷ xs) h = refl
get_or-take (suc n) (suc i) (x ∷ xs) h = get_or-take n i xs (omega arith)

-- The loop of the comparison.
equal_from_sound :
    (i k n : ℕ) (v o : FixedBytes)
    → i + k ≡ n
    → n ≤ length v.buf
    → n ≤ length o.buf
    → take i v.buf ≡ take i o.buf
    → equal_from i k v o ≡ true
    → take n v.buf ≡ take n o.buf
unfolding equal_from
equal_from_sound i zero n v o s hv ho e t =
    let whole : i ≡ n = omega arith in subst (λ m. take m v.buf ≡ take m o.buf) whole e
equal_from_sound i (suc k) n v o s hv ho e t =
    elim (Bool-cases (get_or v.buf i 0 == get_or o.buf i 0)) [
      | inl same ↦
          let byte : get_or v.buf i 0 ≡ get_or o.buf i 0 = ground arith in
          let one : i + 1 ≡ suc i = omega arith in
          equal_from_sound (i + 1) k n v o (omega arith) hv ho
            (subst (λ m. take m v.buf ≡ take m o.buf) (sym one)
              (take-get_or i v.buf (omega arith)
                ∙ ap₂ (λ l b. l ++ (b ∷ [])) e byte
                ∙ sym (take-get_or i o.buf (omega arith))))
            (rw (equal_from, same) at t)
      | inr differ ↦ let f : false ≡ true = rw (equal_from, differ) at t in cc
    ]

equal_from_complete :
    (i k n : ℕ) (v o : FixedBytes)
    → i + k ≡ n
    → take n v.buf ≡ take n o.buf
    → equal_from i k v o ≡ true
unfolding equal_from
equal_from_complete i zero n v o s e = refl
equal_from_complete i (suc k) n v o s e =
    let byte : get_or v.buf i 0 ≡ get_or o.buf i 0 =
      sym (get_or-take n i v.buf (omega arith))
      ∙ ap (λ l. get_or l i 0) e
      ∙ get_or-take n i o.buf (omega arith) in
    let same : (get_or v.buf i 0 == get_or o.buf i 0) ≡ true = ground arith in
    rw (equal_from, same) (equal_from_complete (i + 1) k n v o (omega arith) e)

equal-contents :
    (v o : FixedBytes)
    → v.len ≤ FixedBytes.capacity v
    → o.len ≤ FixedBytes.capacity o
    → (equal v o ≡ true → contents v ≡ contents o) × (contents v ≡ contents o → equal v o ≡ true)
unfolding equal
equal-contents v o hv ho = elim (Bool-cases (v.len == o.len)) [
  | inl on ↦
      let same : v.len ≡ o.len = ground arith in
      (
        λ t.
            equal_from_sound 0 v.len v.len v o (omega arith) hv (omega arith) refl
              (rw (equal, on) at t)
            ∙ ap (λ n. take n o.buf) same,
        λ e.
            rw (equal, on)
              (equal_from_complete 0 v.len v.len v o (omega arith)
                (e ∙ ap (λ n. take n o.buf) (sym same))),
      )
  | inr off ↦ (
    λ t. (let f : false ≡ true = rw (equal, off) at t in cc),
    λ e. absurd (ground (arith, ap length e, length-take v.len v.buf, length-take o.len o.buf)),
  )
]

-- Of byte vectors within their capacities: assign leaves the bytes given, up to the capacity,
-- push_back adds a byte where there is room for one, and the comparison answers true for the same
-- bytes in use, whatever stands behind them, and only for these.
pub fixed_bytes_lem :
    (init : List ℕ) (b : ℕ) (v o : FixedBytes)
    → v.len ≤ FixedBytes.capacity v
    → o.len ≤ FixedBytes.capacity o
    → (contents (assign init v) ≡ take (FixedBytes.capacity v) init)
      × (contents (push_back b v) ≡ take (FixedBytes.capacity v) (contents v ++ (b ∷ [])))
      × (equal v o ≡ true → contents v ≡ contents o)
      × (contents v ≡ contents o → equal v o ≡ true)
fixed_bytes_lem init b v o hv ho =
    let (sound, complete) = equal-contents v o hv ho in
    (assign-contents init v, push_back-contents b v hv, sound, complete)
