-- ===== src/OStream.antt =====
-- include/sofab/sofab.hpp, class OStreamImpl: the state of an output stream, its buffer, the flush
-- callback and the latched failure. Its writes stand in the children.
pub mod Fields
pub mod Sequences
pub mod View
pub mod Drain
pub mod Push
pub mod Padding
pub mod Writes
pub mod Message
use corelib_cpp.Common.{ℕ, zero, suc, ◌+◌, ◌-◌, ◌≤◌, ◌<◌, Bool, true, false, not, ◌&&◌, ◌||◌}
use corelib_cpp.Common.{List, [], ◌∷◌, ◌++◌, Option, none, some, length, take, drop, set}
use corelib_cpp.Common.{ltb, leb, ◌==◌, if◌then◌else◌, map}
use corelib_cpp.Wire.{Error, no_error, buffer_full, invalid_argument, min_output_buffer}

-- A call of `setBuffer`: the new buffer with what stands in it, and the bytes reserved in front.
pub record Install : Type 0 where
  pub bytes : List ℕ
  pub reserved : ℕ

-- A chunk handed to the callback, with the count of reserved bytes that it begins with.
pub record Chunk : Type 0 where
  pub reserved : ℕ
  pub bytes : List ℕ

-- `flushCallback_`: the `setBuffer` calls that the callback makes, in order, when it is handed the
-- last of these chunks.
abbrev pub Callback : Type 0
Callback = List Chunk → List Install

-- `memory` is [buffer_, end_) and `cursor` is cursor_ - buffer_. `delivered` is what the callback
-- was handed so far. `pending` is the run of ids, the outermost first.
pub record OStream : Type 0 where
  pub memory : List ℕ
  pub cursor : ℕ
  pub offset : ℕ
  pub callback : Option Callback
  pub delivered : List Chunk
  pub seq_depth : ℕ
  pub pending : List ℕ
  pub failure : Error
  pub installed : Bool

abbrev pub has_callback : Option Callback → Bool
has_callback none = false
has_callback (some f) = true

abbrev pub is_ok : Error → Bool
is_ok Error.no_error = true
is_ok _ = false

-- What a write does to the stream, and the error it returns.
abbrev pub Op : Type 0
Op = OStream → OStream × Error

-- `if (Error e = first; e != None) return e;` and then the second.
infixl 5 ◌>>◌
abbrev pub ◌>>◌ : Op → Op → Op
◌>>◌ first second s = let (s', e) = first s in if is_ok e then second s' else (s', e)

abbrev pub succeed : Op
succeed s = (s, Error.no_error)

-- `latch`: the first failure is kept.
unfoldable pub latch : Error → Op
latch e s = (if is_ok s.failure then record s { failure = e } else s, e)

-- `initBuffer`, also the whole of `setBuffer` but for who owns the memory.
unfoldable pub init_buffer : Install → OStream → OStream
unfolding latch
init_buffer b s =
    let buflen = length b.bytes in
    if ltb buflen b.reserved
      || (has_callback s.callback && ltb (buflen - b.reserved) min_output_buffer)
    then (latch Error.invalid_argument
        (record s { memory = []; cursor = 0; offset = 0; installed = true })).0
    else record s { memory = b.bytes; cursor = b.reserved; offset = b.reserved; installed = true }

unfoldable pub init_buffers : List Install → OStream → OStream
init_buffers [] s = s
init_buffers (b ∷ bs) s = init_buffers bs (init_buffer b s)

-- A stream as a constructor leaves it: with or without a callback, over the first buffer.
unfoldable pub open_stream : Option Callback → Install → OStream
unfolding init_buffer
open_stream cb b = init_buffer b (record {
  memory = [];
  cursor = 0;
  offset = 0;
  callback = cb;
  delivered = [];
  seq_depth = 0;
  pending = [];
  failure = Error.no_error;
  installed = false;
})

-- `end_ - cursor_`
abbrev pub room : OStream → ℕ
room s = length s.memory - s.cursor

-- Bytes stored through a pointer `at` bytes into the buffer. Past the end they would lengthen it.
abbrev pub poke : ℕ → List ℕ → List ℕ → List ℕ
poke at bytes memory = take at memory ++ (bytes ++ drop (at + length bytes) memory)

-- `std::memcpy(cursor_, data, len); cursor_ += len;`
unfoldable pub store : List ℕ → OStream → OStream
store bytes s = record s { memory = poke s.cursor bytes s.memory; cursor = s.cursor + length bytes }

-- The call of the callback, at which `installed_` is lowered first.
unfoldable pub hand_over : Callback → OStream → OStream
unfolding init_buffers
hand_over f s =
    let chunk : Chunk = record { reserved = s.offset; bytes = take s.cursor s.memory } in
    let delivered = s.delivered ++ (chunk ∷ []) in
    init_buffers (f delivered) (record s { delivered = delivered; installed = false })

-- Without a new buffer the drained one is used again, from its start.
unfoldable pub rewind : OStream → OStream
rewind s = if s.installed then s else record s { cursor = 0; offset = 0 }

-- `pushByte` at a full buffer.
unfoldable pub drain_then : ℕ → Option Callback → Op
unfolding latch hand_over rewind store
drain_then b none s = latch Error.buffer_full s
drain_then b (some f) s =
    let s1 = hand_over f s in
    if is_ok s1.failure then (store (b ∷ []) (rewind s1), Error.no_error) else (s1, s1.failure)

unfoldable pub push_byte : ℕ → Op
unfolding drain_then store
push_byte b s =
    if not (is_ok s.failure)
    then (s, s.failure)
    else if s.cursor == length s.memory
    then drain_then b s.callback s
    else (store (b ∷ []) s, Error.no_error)

unfoldable pub push_each : List ℕ → Op
unfolding push_byte
push_each [] s = (s, Error.no_error)
push_each (b ∷ bs) s = let (s', e) = push_byte b s in if is_ok e then push_each bs s' else (s', e)

unfoldable pub push_bytes : List ℕ → Op
unfolding push_each store
push_bytes bytes s =
    if leb (length bytes) (room s) then (store bytes s, Error.no_error) else push_each bytes s

-- `flush` returns the count of bytes that stood in the buffer, and `bytesUsed` is that count.
unfoldable pub flush_to : Option Callback → OStream → OStream
unfolding hand_over rewind
flush_to none s = s
flush_to (some f) s = if ltb s.offset s.cursor then rewind (hand_over f s) else s

unfoldable pub flush : OStream → OStream × ℕ
unfolding flush_to
flush s = (flush_to s.callback s, s.cursor)
