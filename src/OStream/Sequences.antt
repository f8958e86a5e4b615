-- ===== src/OStream/Sequences.antt =====
-- OStreamImpl: nested sequences, opened lazily, and their ends.
use corelib_cpp.Common.{ℕ, ◌+◌, ◌-◌, ltb, leb, if◌then◌else◌}
use corelib_cpp.Common.{List, [], ◌∷◌, ◌++◌, length}
use corelib_cpp.Wire.{Error, Wire, header_word, id_max, max_depth}
use corelib_cpp.OStream.{OStream, Op, ◌>>◌, latch}
use corelib_cpp.OStream.Fields.{put_varint, commit_pending, is_empty}

-- `PendingRun::pop`: the innermost id goes.
abbrev pub drop_last : List ℕ → List ℕ
drop_last [] = []
drop_last (i ∷ []) = []
drop_last (i ∷ j ∷ ids) = i ∷ drop_last (j ∷ ids)

unfoldable pub put_sequence_end : Op
unfolding put_varint
put_sequence_end = put_varint (header_word 0 Wire.sequence_end)

-- `PendingRun::push` refuses past `max_depth` entries.
unfoldable pub sequence_begin_lazy : ℕ → Op
unfolding latch
sequence_begin_lazy field_id s =
    if leb max_depth s.seq_depth
    then latch Error.invalid_argument s
    else if ltb id_max field_id
    then latch Error.invalid_argument s
    else if leb max_depth (length s.pending)
    then latch Error.invalid_argument s
    else (
      record s { pending = s.pending ++ (field_id ∷ []); seq_depth = s.seq_depth + 1 },
      Error.no_error,
    )

-- `if (seqDepth_ > 0) --seqDepth_;`
unfoldable pub leave : OStream → OStream
leave s = record s { seq_depth = s.seq_depth - 1 }

unfoldable pub sequence_end : Op
unfolding leave put_sequence_end
sequence_end s =
    if is_empty s.pending
    then put_sequence_end (leave s)
    else (record (leave s) { pending = drop_last s.pending }, Error.no_error)

unfoldable pub sequence_end_keep : Op
unfolding leave put_sequence_end commit_pending
sequence_end_keep s =
    if is_empty s.pending
    then put_sequence_end (leave s)
    else (commit_pending >> put_sequence_end) (leave s)
