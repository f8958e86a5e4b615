-- ===== src/IStream/Skipping/Sequences.antt =====
-- skipSequence on a whole sequence.
use corelib_cpp.Common.{ℕ, suc, ◌+◌, ◌≤◌, ◌≡◌, arith}
use corelib_cpp.Common.{List, ◌++◌, length, All}
use corelib_cpp.Common.Bytes.{IsByte}
use corelib_cpp.Word.{Endian}
use corelib_cpp.Wire.{max_depth}
use corelib_cpp.OStream.Writes.Nested.{end_mark}
use corelib_cpp.IStream.{IStream}
use corelib_cpp.IStream.Dispatch.{skip_levels}
use corelib_cpp.IStream.Skipping.{Fields, encode_fields, IsFields}
use corelib_cpp.IStream.Skipping.Trees.{Marks, mark, still}
use corelib_cpp.IStream.Skipping.Passing.{skip_sequence_of}
use corelib_cpp.IStream.Skipping.Whole.{loop-fields, enough_room}

-- On either kind of host: a sequence of fields in range, nested no deeper than the levels that
-- are left and than the depth that is admitted, is skipped as a whole, up to the bytes behind its
-- end mark, by a stream that is neither resuming nor in error.
pub skip_levels-encode_fields :
    (host : Endian) (f : Fields) (k d : ℕ) (rest : List ℕ) (s : IStream)
    → IsFields d f
    → d ≤ k
    → s.seq_depth + 1 + d ≤ max_depth
    → All IsByte rest
    → (m : Marks) × (skip_levels host
          (suc k)
          (record (still s) { p = encode_fields f ++ (end_mark ++ rest) })
        ≡ record (still (mark m s)) { p = rest })
unfolding skip_levels
skip_levels-encode_fields host f k d rest s h l deep b =
    let p = encode_fields f ++ (end_mark ++ rest) in
    let (m, e) =
      loop-fields host f k d (length p) rest (record s { seq_depth = s.seq_depth + 1 }) h l
        (omega arith) b (enough_room f rest) in
    (m, skip_sequence_of host (skip_levels host k) p rest m s e)
