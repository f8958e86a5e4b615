-- ===== src/IStream/Limits/Elements.antt =====
-- The two places that refuse an element index: beginField, at its header, and the handler.
use corelib_cpp.Common.{ℕ, ◌≡◌, arith, Bool, true, false, if◌then◌else◌, Option, none, some}
use corelib_cpp.IStream.{IStream}
use corelib_cpp.IStream.Limits.{reached, arm_elem, reject_element_index, seq_index_admitted}

abbrev pub has_bound : Option ℕ → Option ℕ → Option ℕ → Bool
has_bound none none none = false
has_bound _ _ _ = true

-- Where a cap, a configured count or a destination's capacity bounds a wrapper array, the test of
-- a reader admits an element index exactly if it is below the bound that the armed level keeps,
-- and refuses it by the reason that the level's own test gives.
pub seq_index_admitted-reject_element_index :
    (i : ℕ) (cap dyn dest : Option ℕ) (s : IStream)
    → has_bound cap dyn dest ≡ true
    → let armed : IStream = record s { elem = arm_elem cap dyn dest s.elem } in
      seq_index_admitted i cap dyn dest armed ≡ (
        if reached armed.elem.bound i then (reject_element_index i armed, false) else (armed, true))
unfolding seq_index_admitted reject_element_index arm_elem
seq_index_admitted-reject_element_index i none none none s h = ground arith
seq_index_admitted-reject_element_index i none none (some d) s h = ground arith
seq_index_admitted-reject_element_index i none (some y) none s h = ground arith
seq_index_admitted-reject_element_index i none (some y) (some d) s h = ground arith
seq_index_admitted-reject_element_index i (some c) none none s h = ground arith
seq_index_admitted-reject_element_index i (some c) none (some d) s h = ground arith
seq_index_admitted-reject_element_index i (some c) (some y) none s h = ground arith
seq_index_admitted-reject_element_index i (some c) (some y) (some d) s h = ground arith
