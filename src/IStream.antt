-- ===== src/IStream.antt =====
-- include/sofab/sofab.hpp, class IStreamImpl: the state of an input stream, its outcomes and the
-- refusals that latch them. Its reads stand in the children.
pub mod Header
pub mod Limits
pub mod Dest
pub mod Scalars
pub mod Payload
pub mod Elements
pub mod Levels
pub mod Dispatch
pub mod Feed
pub mod Skipping
pub mod Nested
pub mod Collectors
pub mod Window
use corelib_cpp.Common.{
  ℕ, ◌+◌, ◌-◌, Bool, true, false, ◌==◌, if◌then◌else◌, List, [], length, Option, none, some,
}
use corelib_cpp.Wire.{Error, Wire, Fix}

-- The bounds of the elements of a wrapper array. A negative `long` or `int` is `none`.
pub record ElemLimits : Type 0 where
  pub bound : Option ℕ
  pub schema : Option ℕ
  pub dyn : Option ℕ
  pub dest : Option ℕ
  pub wire : Option Wire
  pub fix : Option Fix

-- The field that a suspension holds, `pend_` and what goes with it.
pub record Pending : Type 0 where
  pub active : Bool
  pub field_id : ℕ
  pub type : Wire
  pub fix : Fix
  pub len : ℕ
  pub count : ℕ
  pub skip : Bool

-- `p` is [p_, end_) and `span_base` is [spanBase_, end_), so that p_ - spanBase_ is the difference of
-- their lengths; `span_base` is `none` for a null pointer. `suspend_depth` is `none` for -1.
pub record IStream : Type 0 where
  pub carry : List ℕ
  pub suspend_depth : Option ℕ
  pub replay : Bool
  pub path : ℕ → ℕ × Bool
  pub pend : Pending
  pub pend_done : ℕ
  pub utf8_state : ℕ
  pub span_carry : ℕ
  pub span_base : Option (List ℕ)
  pub span_skip : Bool
  pub cap_inert : Bool
  pub span_skipped : ℕ
  pub p : List ℕ
  pub type : Wire
  pub fix_type : Fix
  pub fix_len : ℕ
  pub count : ℕ
  pub consumed : Bool
  pub error : Bool
  pub limit_exceeded : Bool
  pub arg_error : Bool
  pub terminal : Error
  pub seq_depth : ℕ
  pub skipped : ℕ
  pub incomplete : Bool
  pub elem : ElemLimits
  pub field_id : ℕ
  pub max_buffered : ℕ

abbrev pub no_limits : ElemLimits
no_limits = record { bound = none; schema = none; dyn = none; dest = none; wire = none; fix = none }

-- `reset`: what a constructor leaves, but for the receiver's limit.
unfoldable pub reset : IStream → IStream
reset s = record s {
  carry = [];
  suspend_depth = none;
  replay = false;
  pend = record s.pend { active = false; skip = false };
  pend_done = 0;
  utf8_state = 0;
  span_carry = 0;
  span_base = none;
  span_skip = false;
  span_skipped = 0;
  p = [];
  type = Wire.unsigned;
  fix_type = Fix.fp32;
  fix_len = 0;
  count = 0;
  field_id = 0;
  consumed = false;
  error = false;
  limit_exceeded = false;
  arg_error = false;
  terminal = Error.no_error;
  incomplete = false;
  seq_depth = 0;
  skipped = 0;
  elem = no_limits;
}

unfoldable pub invalidate : IStream → IStream
invalidate s = record s { error = true }

unfoldable pub exceed_limit : IStream → IStream
exceed_limit s = record s { limit_exceeded = true; error = true }

unfoldable pub reject_destination : IStream → IStream
reject_destination s = record s { arg_error = true; error = true }

unfoldable pub reject_unbounded : IStream → IStream
reject_unbounded s = record s { arg_error = true; error = true }

-- `latchTerminal`
unfoldable pub latch_terminal : IStream → IStream
latch_terminal s = record s {
  terminal =
      if s.limit_exceeded
      then Error.limit_exceeded
      else if s.arg_error
      then Error.invalid_argument
      else Error.invalid_message;
}

-- `spanned` and `spannedLive`
unfoldable pub spanned : IStream → ℕ
spanned s = elim s.span_base [
  | none ↦ s.span_carry
  | some base ↦ s.span_carry + (length base - length s.p)
]

unfoldable pub spanned_live : IStream → ℕ
unfolding spanned
spanned_live s = spanned s - s.span_skipped

unfoldable pub at_boundary : IStream → Bool
at_boundary s = elim s.suspend_depth [ none ↦ length s.carry == 0 | some d ↦ false ]
