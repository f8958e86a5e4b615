-- ===== src/Lib.antt =====
-- Verification of the SofaBuffers C++ core library: include/sofab/sofab.hpp, a header-only encoder
-- and decoder of a tagged binary format.
--
-- The program. A message is a sequence of fields. A field is a header word, the field id shifted by
-- three with a wire type in its low bits, and a payload: a varint, a zigzag varint, a length word with
-- bytes (a float, a string, a blob), an array, or a nested sequence up to its end mark. OStreamImpl
-- writes fields into a buffer of the caller, which a callback drains when it is full. Nested sequences
-- are opened lazily: their headers wait in a run of ids and are written in front of the first content;
-- a sequence that closes without content leaves no trace. IStreamImpl reads a message in chunks, and
-- its integers all pass one varint reader.
--
-- The files.
--   Common: lists, bytes, bits and tests on native numbers that the others share.
--   Word: storeLittle64, loadLittle64, storeLittleBits, loadLittleBits, spread7 and gather7 of
--     namespace detail. Memory is a list of bytes, `Endian` is std::endian::native.
--   Zigzag: zigzagEncode and zigzagDecode. An int64_t is an integer, cast through its 64-bit word.
--   Wire: the limits, Error, DecodeStatus, Wire, Fix, headerWord, fixlenWord and the checks of the
--     words that a decoder reads.
--   Varint: OStreamImpl::encodeVarint and encodeVarintPadded; IStreamImpl::getVarint, skipVarint and
--     their windowed forms. A pointer is the list of the bytes from it on. Varint/Spec is the format.
--   OStream: the state of OStreamImpl as a record, initBuffer, latch, pushByte, pushBytes and flush.
--     OStream/Fields has putVarint, commitPending, beforeContent and the writes of one field,
--     OStream/Sequences has sequenceBeginLazy, sequenceEnd and sequenceEndKeep. OStream/View says what
--     is on the wire, OStream/Drain, Push, Padding and Writes follow a write down to it, and
--     OStream/Message has messages as trees of calls.
--   Utf8: utf8Dfa, utf8Advance and utf8Valid.
--   Containers: InlineVector, and below it FixedString with utf8Prefix, and FixedBytes. An array of N
--     elements is a list of that length, and the elements in use are its first len_.
--   BitsEqual: bitsEqual of include/sofab/bits_equal.hpp, on floats by their bit patterns.
--   IStream: the state of IStreamImpl as a record, with reset, the refusals and latchTerminal.
--     IStream/Header has parseFieldTag, parseFieldMeta and parseFieldHeader, IStream/Limits
--     capCannotFire, exceedsBufferAtHeader, rejectElementIndex, armElem and seqIndexAdmitted,
--     IStream/Dest the destinations of strings and blobs, IStream/Payload readPayload with its pieces,
--     readString, readBlob and the accepts tests, IStream/Scalars read of numbers, bool and floats,
--     and IStream/Elements readIntElements. IStream/Levels has the records of a suspension, skipPayload
--     and beginField, IStream/Dispatch dispatchLevel, deliverPending, descendResume and skipSequence,
--     IStream/Feed parseTopLevel, parseWindow and feed, IStream/Nested the reads of messages, of float
--     arrays and into raw memory, IStream/Collectors the handlers of StringSeq, BlobSeq, MessageSeq and
--     RowSeq. IStream/Skipping describes messages as fields and follows a decoder over them, and
--     IStream/Window the bytes that are left behind each step, by which its loops end.
--   Exchange: the encoder's wire as the decoder's input, for one field.
--   Tests: runs at concrete inputs.
--
-- How state and errors are modelled. An operation of OStreamImpl is a function from the stream to
-- the stream and the Error that it returns. A read of IStreamImpl gives the stream, the destination
-- and the bool that it returns; its outcomes are the flags error_, incomplete_ and consumed_ of the
-- stream, and [p_, end_) is the list of the bytes that are left, so that a chunk is that list anew.
-- A FieldCb is a parameter: a function of a field's id, length and count on a state of its own and the
-- stream. suspendDepth_ and spanBase_ are options.
-- [buffer_, end_) is the list `memory`, cursor_ is an offset into it. The flush callback is a
-- parameter: a function from the chunks that it was handed so far to the buffers that it installs
-- by setBuffer, in order. A float is its bit pattern. 64-bit arithmetic wraps by `% 2 ^ 64`, and a
-- shift to the right is a division.
--
-- Bounds and fuel. encodeVarint recurs on the value by well-founded recursion. The outer loop of
-- writeIntArray runs on the count of elements as fuel, and each round takes one element at least. A
-- varint has ten bytes at most. The loops of readIntElements run on the count of elements that are
-- left, and each round takes one at least. The loops of parseTopLevel and dispatchLevel run on the count of
-- bytes that are left, and each round reads one at least. Sequences are skipped through as many levels
-- as MAX_DEPTH admits. countl_zero and countr_zero run over the 64 bits of a
-- word.
--
-- Not modelled. Of IStreamImpl: readArray and readArrayCapped with their gates, and the dispatch of read()
-- on the type of its destination, as that of write(). A pointer that has passed end_ has no counterpart
-- among the lists of bytes that are left. size_t has 64 bits, SOFAB_STRICT_UTF8 is on as it is
-- by default, and a negative `long` or `int` that stands for no bound is `none`. The owners of streams
-- (OStream, OStreamInline, IStreamInline and the like) forward to the two implementations. The readers of
-- rows, and containers of a fixed number of elements in the sequence readers. Also writeLazy, writeIf and
-- the Result that chains writes; tests, benchmarks and build files.
pub mod Common
pub mod Word
pub mod Zigzag
pub mod Wire
pub mod Varint
pub mod OStream
pub mod Utf8
pub mod Containers
pub mod BitsEqual
pub mod IStream
pub mod Exchange
pub mod Tests
