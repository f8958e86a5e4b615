-- ===== src/IStream/Dest/Holds.antt =====
-- Destinations: what a piece that is stored leaves at the front, and what is in use in the end.
use corelib_cpp.Common.{
  ℕ, ◌+◌, ◌-◌, ◌≤◌, ◌≡◌, sym, ap, ◌∙◌, arith, true, ◌==◌, Bool-cases, inl, inr, lt_or_ge, ge→ltb,
  lt→ltb, ==_iff,
}
use corelib_cpp.Common.{
  List, ◌++◌, length, take, replicate, take_all, take_front, length-take, length-append,
  length-replicate, append-nil,
}
use corelib_cpp.Containers.FixedString
use corelib_cpp.Containers.FixedBytes
use corelib_cpp.Containers.Refine.{take-set_before}
use corelib_cpp.OStream.{poke}
use corelib_cpp.OStream.View.{poke-take, poke-length}
use corelib_cpp.IStream.Dest.{
  Dest, resize, dest_set_len, fit_dest, dest_store, has_room, dest_contents,
}

-- All the elements of the array.
abbrev pub stored : Dest → List ℕ
stored (Dest.string s) = s.buf
stored (Dest.bytes b) = b.buf
stored (Dest.growable xs) = xs

-- A fixed destination has room for `n` elements, and a string for its NUL.
abbrev pub Suits : ℕ → Dest → Type 0
Suits n (Dest.string s) = n + 1 ≤ length s.buf
Suits n (Dest.bytes b) = n ≤ length b.buf
Suits n (Dest.growable xs) = Unit {0}

abbrev pub Holds : List ℕ → Dest → Type 0
Holds front d = take (length front) (stored d) ≡ front

resize-length : (n : ℕ) (xs : List ℕ) → length (resize n xs) ≡ n
resize-length n xs =
    let a = length-append (take n xs) (replicate (n - length xs) 0) in
    let b = length-take n xs in
    let c : length (replicate {A = ℕ} (n - length xs) 0) ≡ n - length xs =
      length-replicate (n - length xs) 0 in
    omega arith

held-le : (front xs : List ℕ) → take (length front) xs ≡ front → length front ≤ length xs
held-le front xs h =
    let a = length-take (length front) xs in
    let b : length (take (length front) xs) ≡ length front = ap length h in omega arith

resize-held :
    (n : ℕ) (front xs : List ℕ)
    → length xs ≤ n
    → take (length front) xs ≡ front
    → take (length front) (resize n xs) ≡ front
resize-held n front xs l h =
    let inside : length front ≤ length (take n xs) =
      (let a = length-take n xs in let b = held-le front xs h in omega arith) in
    take_front (length front) (take n xs) (replicate (n - length xs) 0) inside
    ∙ ap (take (length front)) (take_all n xs l)
    ∙ h

-- The sizer makes room up to `want`.
pub fit_dest-Holds :
    (n want : ℕ) (front : List ℕ) (d : Dest)
    → Suits n d
    → want ≤ n
    → Holds front d
    → Holds front (fit_dest want d)
      × Suits n (fit_dest want d)
      × (want ≤ length (stored (fit_dest want d)))
unfolding fit_dest
fit_dest-Holds n want front (Dest.string s) u l h = (h, u, omega arith)
fit_dest-Holds n want front (Dest.bytes b) u l h = (h, u, omega arith)
fit_dest-Holds n want front (Dest.growable xs) u l h =
    let size = resize-length want xs in
    elim (lt_or_ge (length xs) want) [
      | inl grows ↦
          rw (lt→ltb (length xs) want grows)
            (resize-held want front xs (omega arith) h, tt, omega arith)
      | inr fits ↦ rw (ge→ltb (length xs) want fits) (h, tt, fits)
    ]

-- `roomFor` admits what the sizer made room for.
pub has_room-fit :
    (n need : ℕ) (d : Dest) → Suits n d → need ≤ length (stored d) → has_room n need d ≡ true
has_room-fit n need (Dest.string s) u h = ground arith
has_room-fit n need (Dest.bytes b) u h = ground arith
has_room-fit n need (Dest.growable xs) u h = ground arith

poke-held :
    (front piece xs : List ℕ)
    → length front + length piece ≤ length xs
    → take (length front) xs ≡ front
    → take (length (front ++ piece)) (poke (length front) piece xs) ≡ front ++ piece
poke-held front piece xs l h =
    ap (λ n. take n (poke (length front) piece xs)) (length-append front piece)
    ∙ poke-take (length front) (length piece) piece xs (omega arith) l
    ∙ ap (λ t. t ++ take (length piece) piece) h
    ∙ ap (λ t. front ++ t) (take_all (length piece) piece (omega arith))

pub dest_store-Holds :
    (n : ℕ) (front piece : List ℕ) (d : Dest)
    → Suits n d
    → length front + length piece ≤ length (stored d)
    → Holds front d
    → Holds (front ++ piece) (dest_store (length front) piece d)
      × Suits n (dest_store (length front) piece d)
unfolding dest_store
dest_store-Holds n front piece (Dest.string s) u l h =
    let size = poke-length (length front) piece s.buf l in
    (poke-held front piece s.buf l h, omega arith)
dest_store-Holds n front piece (Dest.bytes b) u l h =
    let size = poke-length (length front) piece b.buf l in
    (poke-held front piece b.buf l h, omega arith)
dest_store-Holds n front piece (Dest.growable xs) u l h = (poke-held front piece xs l h, tt)

-- With all of the payload stored, its length makes it the contents.
pub dest_set_len-contents :
    (payload : List ℕ) (d : Dest)
    → Suits (length payload) d
    → Holds payload d
    → dest_contents (dest_set_len (length payload) d) ≡ payload
unfolding dest_set_len FixedString.set_len FixedBytes.set_len
dest_set_len-contents payload (Dest.string s) u h =
    rw (ge→ltb (length s.buf - 1) (length payload) (omega arith))
      (take-set_before (length payload) (length payload) 0 s.buf (omega arith) ∙ h)
dest_set_len-contents payload (Dest.bytes b) u h = elim (lt_or_ge (length payload) (length b.buf)) [
  | inl below ↦ rw (lt→ltb (length payload) (length b.buf) below) h
  | inr full ↦
      rw (ge→ltb (length payload) (length b.buf) full)
        (let e : length b.buf ≡ length payload = omega arith in ap (λ n. take n b.buf) e ∙ h)
]
dest_set_len-contents payload (Dest.growable xs) u h =
    let enough = held-le payload xs h in
    elim (Bool-cases (length xs == length payload)) [
      | inl same ↦ rw same (
          let e : length xs ≡ length payload = (==_iff (length xs) (length payload)).0 same in
          sym (take_all (length payload) xs (omega arith)) ∙ h)
      | inr other ↦ rw other (
          let none_new : length payload - length xs ≡ 0 = omega arith in
          ap (λ n. take (length payload) xs ++ replicate n 0) none_new
          ∙ append-nil (take (length payload) xs)
          ∙ h)
    ]
