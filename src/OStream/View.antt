-- ===== src/OStream/View.antt =====
-- What a stream has put on the wire so far, and when its buffer is sound.
use corelib_cpp.Common.{ℕ, ◌+◌, ◌≤◌, ◌<◌, ◌≡◌, sym, ap, ◌∙◌, arith, ◌⊎◌}
use corelib_cpp.Common.{
  List, [], ◌∷◌, ◌++◌, append-nil, append_assoc, length, take, drop, length-append,
}
use corelib_cpp.Common.{
  length-take, length-drop, take_front, take_all, take_past, drop_front, true, false,
}
use corelib_cpp.OStream.{OStream, Install, Chunk, has_callback, is_ok, poke, store}
use corelib_cpp.OStream.{init_buffer}

-- The chunks that the callback was handed, joined, without the reserved bytes.
unfoldable pub sent : List Chunk → List ℕ
sent [] = []
sent (c ∷ cs) = drop c.reserved c.bytes ++ sent cs

-- With what stands in the buffer.
unfoldable pub wire : OStream → List ℕ
wire s = sent s.delivered ++ drop s.offset (take s.cursor s.memory)

-- A stream with a callback and no failure has a byte of buffer at least.
pub record IsValid (s : OStream) : Type 0 where
  pub inside : s.cursor ≤ length s.memory
  pub reserved : s.offset ≤ s.cursor
  pub usable : (has_callback s.callback ≡ false) ⊎ (is_ok s.failure ≡ false) ⊎ (1 ≤ length s.memory)

-- Just installed: nothing is written, and with a callback and no failure a byte can be.
pub record IsFresh (s : OStream) : Type 0 where
  pub empty : s.cursor ≡ s.offset
  pub inside : s.offset ≤ length s.memory
  pub writable :
      (has_callback s.callback ≡ false) ⊎ (is_ok s.failure ≡ false) ⊎ (s.offset < length s.memory)
  pub marked : s.installed ≡ true

pub init_buffer-IsFresh : (b : Install) (s : OStream) → IsFresh (init_buffer b s)
unfolding init_buffer
init_buffer-IsFresh b s = ground arith

pub IsFresh-IsValid : {s : OStream} → IsFresh s → IsValid s
IsFresh-IsValid f = ground arith

pub sent-append :
    (cs : List Chunk) (c : Chunk) → sent (cs ++ (c ∷ [])) ≡ sent cs ++ drop c.reserved c.bytes
unfolding sent
sent-append [] c = append-nil (drop c.reserved c.bytes)
sent-append (d ∷ cs) c =
    ap (λ t. drop d.reserved d.bytes ++ t) (sent-append cs c)
    ∙ sym (append_assoc (drop d.reserved d.bytes) (sent cs) (drop c.reserved c.bytes))

-- Storing where there is room appends to the wire, and the buffer keeps its length.
pub poke-length :
    (at : ℕ) (bytes memory : List ℕ)
    → at + length bytes ≤ length memory
    → length (poke at bytes memory) ≡ length memory
poke-length at bytes memory h =
    let e1 = length-append (take at memory) (bytes ++ drop (at + length bytes) memory) in
    let e2 = length-append bytes (drop (at + length bytes) memory) in
    let e3 = length-take at memory in let e4 = length-drop (at + length bytes) memory in omega arith

-- Only the part of a store below the new cursor is on the wire: scratch bytes behind it are not.
pub poke-take :
    (at n : ℕ) (bytes memory : List ℕ)
    → n ≤ length bytes
    → at + length bytes ≤ length memory
    → take (at + n) (poke at bytes memory) ≡ take at memory ++ take n bytes
poke-take at n bytes memory h k =
    let size : length (take at memory) ≡ at = (let e = length-take at memory in omega arith) in
    let e : at + n ≡ length (take at memory) + n = omega arith in
    ap (λ m. take m (poke at bytes memory)) e
    ∙ take_past (take at memory) (bytes ++ drop (at + length bytes) memory) n
    ∙ ap (λ t. take at memory ++ t) (take_front n bytes (drop (at + length bytes) memory) h)

pub store-length :
    (bytes : List ℕ) (s : OStream)
    → s.cursor + length bytes ≤ length s.memory
    → length (store bytes s).memory ≡ length s.memory
unfolding store
store-length bytes s h = poke-length s.cursor bytes s.memory h

pub poke-wire :
    (at n offset : ℕ) (bytes memory front : List ℕ)
    → n ≤ length bytes
    → at + length bytes ≤ length memory
    → offset ≤ at
    → front ++ drop offset (take (at + n) (poke at bytes memory))
      ≡ (front ++ drop offset (take at memory)) ++ take n bytes
poke-wire at n offset bytes memory front h k o =
    let inside : offset ≤ length (take at memory) =
      (let e = length-take at memory in omega arith) in
    ap (λ t. front ++ drop offset t) (poke-take at n bytes memory h k)
    ∙ ap (λ t. front ++ t) (drop_front offset (take at memory) (take n bytes) inside)
    ∙ sym (append_assoc front (drop offset (take at memory)) (take n bytes))

pub store-wire :
    (bytes : List ℕ) {s : OStream}
    → IsValid s
    → s.cursor + length bytes ≤ length s.memory
    → wire (store bytes s) ≡ wire s ++ bytes
unfolding wire store
store-wire bytes {s} v h =
    poke-wire s.cursor (length bytes) s.offset bytes s.memory (sent s.delivered) (omega arith) h
      v.reserved
    ∙ ap (λ t. wire s ++ t) (take_all (length bytes) bytes (omega arith))
